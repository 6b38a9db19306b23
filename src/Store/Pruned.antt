-- ===== src/Store/Pruned.antt =====
-- What sweeps (internal/store/shard.go, `activeSweep`) may make of the shards of a store: no client
-- sees the difference.
use vortex_kv_cache.Base.{
  ℕ, zero, suc, ◌≡◌, ◌∙◌, refl, ap, some, List, [], ◌∷◌, Bytes, length, get_elem?, All,
}
use vortex_kv_cache.Base.Int.{ℤ}
use vortex_kv_cache.Base.Dict.{lookup}
use vortex_kv_cache.Eviction.{EvictionPolicy, PolicyLaws}
use vortex_kv_cache.Entry.{Entry}
use vortex_kv_cache.Shard.{Shard}
use vortex_kv_cache.Shard.Invariant
use vortex_kv_cache.Shard.View.{see}
use vortex_kv_cache.Store.Seen.{see_at}

module _ {P : EvictionPolicy} (L : PolicyLaws P) (later : ℤ) where
  -- what sweeps may make of a shard
  pub record Pruned (s t : Shard P) : Type 0 where
    pub valid : Invariant.IsValid L t
    pub only : (j : Bytes) (e : Entry) → lookup j t.items ≡ some e → lookup j s.items ≡ some e
    pub same : (j : Bytes) → see later t j ≡ see later s j

  pub Pruned-refl : (s : Shard P) → Invariant.IsValid L s → Pruned s s
  Pruned-refl s v = record { valid = v; only = λ j e h. h; same = λ j. refl }

  pub Pruned-trans : (s t u : Shard P) → Pruned s t → Pruned t u → Pruned s u
  Pruned-trans s t u p q = record {
    valid = q.valid;
    only = λ j e h. p.only j e (q.only j e h);
    same = λ j. q.same j ∙ p.same j;
  }

  pub data AllPruned : List (Shard P) → List (Shard P) → Type 0 where
    no_shards : AllPruned [] []
    one_more :
        (s t : Shard P) (ss ts : List (Shard P))
        → Pruned s t
        → AllPruned ss ts
        → AllPruned (s ∷ ss) (t ∷ ts)

  pub AllPruned-refl : (ss : List (Shard P)) → All (Invariant.IsValid L) ss → AllPruned ss ss
  AllPruned-refl [] v = no_shards
  AllPruned-refl (s ∷ ss) v = one_more s s ss ss (Pruned-refl s v.0) (AllPruned-refl ss v.1)

  pub length-AllPruned : {ss ts : List (Shard P)} → AllPruned ss ts → length ts ≡ length ss
  length-AllPruned no_shards = refl
  length-AllPruned (one_more s t ss ts p q) = ap suc (length-AllPruned q)

  pub All-AllPruned : {ss ts : List (Shard P)} → AllPruned ss ts → All (Invariant.IsValid L) ts
  All-AllPruned no_shards = tt
  All-AllPruned (one_more s t ss ts p q) = (p.valid, All-AllPruned q)

  pub see_at-AllPruned :
      {ss ts : List (Shard P)} (n : ℕ) (j : Bytes)
      → AllPruned ss ts
      → see_at later (get_elem? ts n) j ≡ see_at later (get_elem? ss n) j
  see_at-AllPruned n j no_shards = refl
  see_at-AllPruned zero j (one_more s t ss ts p q) = p.same j
  see_at-AllPruned (suc n) j (one_more s t ss ts p q) = see_at-AllPruned n j q

  -- an entry of a shard that is left, in the shard before
  pub record Before (ss : List (Shard P)) (n : ℕ) (j : Bytes) (e : Entry) : Type 0 where
    pub shd : Shard P
    pub there : get_elem? ss n ≡ some shd
    pub stored : lookup j shd.items ≡ some e

  pub before :
      {ss ts : List (Shard P)} (n : ℕ) (t : Shard P) (j : Bytes) (e : Entry)
      → AllPruned ss ts
      → get_elem? ts n ≡ some t
      → lookup j t.items ≡ some e
      → Before ss n j e
  before n t j e no_shards h k = absurd (cc)
  before zero t j e (one_more s u ss ts p q) h k = record {
    shd = s;
    there = refl;
    stored = p.only j e (let same : u ≡ t = cc in rw same k);
  }
  before (suc n) t j e (one_more s u ss ts p q) h k =
      let b = before n t j e q h k in record { shd = b.shd; there = b.there; stored = b.stored }
