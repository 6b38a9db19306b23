-- ===== src/Store/Routing.antt =====
-- `NewStore` and `getShard` of internal/store/store.go: the shard of a key always exists.
use vortex_kv_cache.Base.{
  ℕ, zero, suc, ◌-◌, ◌%◌, ◌^◌, ◌<◌, true, false, ◌≡◌, ◌↔◌, ap, Bytes, arith, none, some, ◌≤◌, ltb,
  ◌⊎◌, inl, inr, Bool-cases,
}
use vortex_kv_cache.Base.Int.{ℤ, pos, negsuc, pos_part}
use vortex_kv_cache.Base.Bits.{bit_and-mask, power_iff, pow_pos}
use vortex_kv_cache.Eviction.{EvictionPolicy}
use vortex_kv_cache.Store.{
  Config, Store, panic, returns, bad_shard_count, open_store, new_store, shard_index,
}

pub good_count : (c : ℤ) → (bad_shard_count c ≡ false) ↔ ((k : ℕ) × (c ≡ pos (2 ^ k)))
unfolding bad_shard_count
good_count (pos zero) =
    (λ h. absurd (cc), λ h. absurd (omega (arith, pow_pos h.0, ap pos_part h.1)))
good_count (pos (suc m)) =
    let n = suc m in
    let w = power_iff n (omega arith) in
    (
      λ h. let (k, e) = w.0 (ground arith) in (k, ap pos e),
      λ h. let e : n ≡ 2 ^ h.0 = ap pos_part h.1 in let z = w.1 (h.0, e) in ground (arith, z),
    )
good_count (negsuc n) = (λ h. absurd (cc), λ h. absurd (cc (h.1)))

module _ (P : EvictionPolicy) (W : Type 0) where
  -- the three results
  pub new_store-cases :
      (limit : ℕ) (cfg : Config)
      → ((bad_shard_count cfg.shard_count ≡ true) × (new_store P W limit cfg ≡ returns none))
        ⊎ (((bad_shard_count cfg.shard_count ≡ false)
              × (limit < pos_part cfg.shard_count)
              × (new_store P W limit cfg ≡ panic))
            ⊎ ((bad_shard_count cfg.shard_count ≡ false)
                × (pos_part cfg.shard_count ≤ limit)
                × (new_store P W limit cfg ≡ returns (some (open_store P W cfg)))))
  unfolding new_store
  new_store-cases limit cfg = elim (Bool-cases (bad_shard_count cfg.shard_count)) [
    | inl bad ↦ inl (bad, rw (bad, new_store))
    | inr good ↦ elim (Bool-cases (ltb limit (pos_part cfg.shard_count))) [
      | inl over ↦ inr (inl (good, ground arith, rw (good, new_store) (rw over)))
      | inr fits ↦ inr (inr (good, ground arith, rw (good, new_store) (rw fits)))
    ]
  ]

  -- `NewStore` makes a store exactly if the number of shards of its configuration is a power of
  -- two within the limit of `make`, and panics exactly if it is a power of two above that limit.
  pub new_store_iff :
      (limit : ℕ) (cfg : Config)
      → (((s : Store P W) × (new_store P W limit cfg ≡ returns (some s)))
          ↔ ((k : ℕ) × (cfg.shard_count ≡ pos (2 ^ k)) × (2 ^ k ≤ limit)))
        × ((new_store P W limit cfg ≡ panic)
            ↔ ((k : ℕ) × (cfg.shard_count ≡ pos (2 ^ k)) × (limit < 2 ^ k)))
  new_store_iff limit cfg =
      let g = good_count cfg.shard_count in
      elim (new_store-cases limit cfg) [
        | inl (bad, e) ↦ (
          (λ h. absurd (cc (h.1)), λ h. let good = g.1 (h.0, h.1) in absurd (cc)),
          (λ h. absurd (cc), λ h. let good = g.1 (h.0, h.1) in absurd (cc)),
        )
        | inr (inl (good, over, e)) ↦
            let (k, size) = g.0 good in
            (
              (λ h. absurd (cc (h.1)), λ h. absurd (omega (arith, over, h.2, ap pos_part h.1))),
              (λ h. (k, size, omega (arith, over, ap pos_part size)), λ h. e),
            )
        | inr (inr (good, fits, e)) ↦
            let (k, size) = g.0 good in
            (
              (λ h. (k, size, omega (arith, fits, ap pos_part size)), λ h. (open_store P W cfg, e)),
              (λ h. absurd (cc), λ h. absurd (omega (arith, fits, h.2, ap pos_part h.1))),
            )
      ]

  -- If the mask of a store is a power of two less one, then the index of the shard of a key is the
  -- remainder of its hash by that power, and smaller than it.
  pub shard_index-mod :
      (hash : Bytes → ℕ) (k : ℕ) (s : Store P W) (key : Bytes)
      → s.shard_mask ≡ 2 ^ k - 1
      → (shard_index P W hash s key ≡ hash key % 2 ^ k) × (shard_index P W hash s key < 2 ^ k)
  shard_index-mod hash k s key m =
      let e = bit_and-mask k (hash key) in
      let f : shard_index P W hash s key ≡ hash key % 2 ^ k = rw m e in
      (f, omega (arith, f, pow_pos k))
