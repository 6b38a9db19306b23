-- ===== src/Store/Invariant.antt =====
-- A store (internal/store/store.go) never panics, and each of its operations keeps every shard
-- valid and every key in the shard that its hash selects.
use vortex_kv_cache.Base.{
  ℕ, ◌-◌, ◌^◌, ◌==◌, some, ◌≡◌, ◌∙◌, sym, Bytes, arith, ◌≟◌, ≟_iff, length, length-set, All,
  All-get, All-set, get_elem?, set as set_elem, get_elem?-some, get_elem?-set_self,
  get_elem?-set_ne, Bool-cases, Option-cases, inl, inr,
}
use vortex_kv_cache.Base.Dict.{lookup}
use vortex_kv_cache.Eviction.{EvictionPolicy, PolicyLaws}
use vortex_kv_cache.Entry.{Entry}
use vortex_kv_cache.Shard.{Shard}
use vortex_kv_cache.Shard.Invariant
use vortex_kv_cache.Shard.Invariant.{new_shard-IsValid}
use vortex_kv_cache.Shard.Local.{IsLocal}
use vortex_kv_cache.Store.{Store, returns, shard_index, at_shard}
use vortex_kv_cache.Store.Routing.{shard_index-mod}

module _ {P : EvictionPolicy} {W : Type 0} (L : PolicyLaws P) (hash : Bytes → ℕ) where
  pub record IsValid (s : Store P W) : Type 0 where
    pub bits : ℕ
    pub count : length s.shards ≡ 2 ^ bits
    pub mask : s.shard_mask ≡ 2 ^ bits - 1
    pub shards : All (Invariant.IsValid L) s.shards
    pub placed :
        (i : ℕ) (shd : Shard P) (key : Bytes) (e : Entry)
        → get_elem? s.shards i ≡ some shd
        → lookup key shd.items ≡ some e
        → shard_index P W hash s key ≡ i

  -- the shard of a key, and what a method makes of the store
  pub record Called {A : Type 0} (key : Bytes) (method : Shard P → Shard P × A) (s : Store P W)
      : Type 0 where
    pub shd : Shard P
    pub found : get_elem? s.shards (shard_index P W hash s key) ≡ some shd
    pub result :
        at_shard P W hash key method s
        ≡ returns (
          record s { shards = set_elem s.shards (shard_index P W hash s key) (method shd).0 },
          (method shd).1,
        )

  pub at_shard-returns :
      {A : Type 0} (key : Bytes) (method : Shard P → Shard P × A) (s : Store P W)
      → IsValid s
      → Called key method s
  unfolding at_shard
  at_shard-returns key method s v =
      let (_, bound) = shard_index-mod P W hash v.bits s key v.mask in
      let (shd, found) =
        get_elem?-some s.shards (shard_index P W hash s key) (omega (arith, v.count)) in
      record { shd = shd; found = found; result = rw (found, at_shard) }

  pub at_shard-IsValid :
      {A : Type 0} (key : Bytes) (method : Shard P → Shard P × A) (s : Store P W)
      → IsLocal L key method
      → IsValid s
      → (shd : Shard P) → get_elem? s.shards (shard_index P W hash s key) ≡ some shd
      → IsValid
          (record s { shards = set_elem s.shards (shard_index P W hash s key) (method shd).0 })
  at_shard-IsValid key method s m v shd found =
      let n = shard_index P W hash s key in
      let valid = All-get (Invariant.IsValid L) s.shards n shd v.shards found in
      record {
        bits = v.bits;
        count = length-set s.shards n (method shd).0 ∙ v.count;
        mask = v.mask;
        shards =
            All-set (Invariant.IsValid L) s.shards n (method shd).0 v.shards (m.keeps shd valid);
        placed = λ i x j e at there. elim (Bool-cases (n == i)) [
          | inl same ↦
              let self = get_elem?-set_self s.shards n (method shd).0 shd found in
              let there' : lookup j (method shd).0.items ≡ some e =
                ground (arith, there, self, at) in
              elim (Bool-cases (key ≟ j)) [
                | inl own ↦ ground (arith, ≟_iff key j)
                | inr foreign ↦ elim (Option-cases (lookup j shd.items)) [
                  | inl miss ↦ absurd (ground (arith, m.only shd j foreign miss))
                  | inr (e', hit) ↦ ground (arith, v.placed n shd j e' found hit)
                ]
              ]
          | inr other ↦
              v.placed i x j e
                (sym (get_elem?-set_ne s.shards n i (method shd).0 (ground arith)) ∙ at) there
        ];
      }
