-- ===== src/Store/Listed.antt =====
-- `Snapshot` and `Len` of internal/store/store.go list and count what the clients of a store see.
use mathlib.Core.List.{map}
use vortex_kv_cache.Base.{
  ℕ, ◌+◌, ◌<◌, zero, suc, ◌≢◌, ap, Option, none, some, false, ◌≡◌, ◌∙◌, refl, sym, List, [], ◌∷◌,
  ◌++◌, Bytes, arith, ≟_iff, Option-cases, Bool-cases, inl, inr, length, length-append, get_elem?,
  All,
}
use vortex_kv_cache.Base.Int.{ℤ}
use vortex_kv_cache.Base.Dict.{
  Dict, lookup, Distinct, lookup-append_absent, lookup-append_present, append-Distinct,
}
use vortex_kv_cache.Eviction.{EvictionPolicy, PolicyLaws}
use vortex_kv_cache.Entry.{Entry, is_expired, remaining_ttl}
use vortex_kv_cache.Shard
use vortex_kv_cache.Shard.{Shard, count_live}
use vortex_kv_cache.Shard.Invariant
use vortex_kv_cache.Shard.View.{see_items, lifetime_of}
use vortex_kv_cache.Store.{
  Store, SnapshotEntry, snapshot_items, snapshot_shards, snapshot, len_shards, len, shard_index,
}
use vortex_kv_cache.Store.Invariant.{IsValid}
use vortex_kv_cache.Store.Seen.{see_at, store_see}

-- a snapshot as a map from keys to values and lifetimes
abbrev pub listing : List SnapshotEntry → Dict (Bytes × ℤ)
listing = map (λ e. (e.key, (e.value, e.ttl)))

-- what is seen under a key, with the lifetime that is left in place of the deadline
abbrev pub listed : ℤ → Option (Bytes × ℤ) → Option (Bytes × ℤ)
listed now none = none
listed now (some (v, d)) = some (v, lifetime_of now (some (v, d)))

listing-append : (xs ys : List SnapshotEntry) → listing (xs ++ ys) ≡ listing xs ++ listing ys
listing-append [] ys = refl
listing-append (x ∷ xs) ys = ap (λ r. (x.key, (x.value, x.ttl)) ∷ r) (listing-append xs ys)

lookup-items :
    (now : ℤ) (m : Dict Entry) (k : Bytes)
    → Distinct m
    → lookup k (listing (snapshot_items now m)) ≡ listed now (see_items now m k)
unfolding lookup snapshot_items is_expired remaining_ttl
lookup-items now [] k d = refl
lookup-items now ((j, e) ∷ m) k d = ground (arith, ≟_iff j k, lookup-items now m k d.1)

items-Distinct : (now : ℤ) (m : Dict Entry) → Distinct m → Distinct (listing (snapshot_items now m))
unfolding snapshot_items
items-Distinct now [] d = tt
items-Distinct now ((j, e) ∷ m) d = elim (Bool-cases (is_expired e now)) [
  | inl old ↦ rw old (items-Distinct now m d.1)
  | inr live ↦ rw live (rw d.0 at (lookup-items now m j d.1), items-Distinct now m d.1)
]

length-items : (now : ℤ) (m : Dict Entry) → length (snapshot_items now m) ≡ count_live now m
unfolding snapshot_items count_live
length-items now [] = refl
length-items now ((j, e) ∷ m) = ground (arith, length-items now m)

module _ {P : EvictionPolicy} (home : Bytes → ℕ) where
  -- the keys of the shards are at home there, the first shard being the `n`-th
  abbrev Housed : ℕ → List (Shard P) → Type 0
  Housed n [] = Unit
  Housed n (shd ∷ shds) =
      Distinct shd.items
      × ((k : Bytes) (e : Entry) → lookup k shd.items ≡ some e → home k ≡ n)
      × Housed (n + 1) shds

  elsewhere :
      (now : ℤ) (n : ℕ) (shd : Shard P) (shds : List (Shard P)) (k : Bytes)
      → Housed n (shd ∷ shds)
      → home k ≢ n
      → lookup k (listing (snapshot_items now shd.items)) ≡ none
  elsewhere now n shd shds k h other = elim (Option-cases (lookup k shd.items)) [
    | inl miss ↦ rw miss at (lookup-items now shd.items k h.0)
    | inr (e, hit) ↦ absurd (other (h.1 k e hit))
  ]

  housed :
      (L : PolicyLaws P) (n : ℕ) (shds : List (Shard P))
      → All (Invariant.IsValid L) shds
      → ((i : ℕ) (shd : Shard P) (k : Bytes) (e : Entry)
          → get_elem? shds i ≡ some shd
          → lookup k shd.items ≡ some e
          → home k ≡ n + i)
      → Housed n shds
  housed L n [] v h = tt
  housed L n (shd ∷ shds) v h = (
    v.0.distinct,
    λ k e hit. omega (arith, h 0 shd k e refl hit),
    housed L (n + 1) shds v.1 (λ i x k e at hit. omega (arith, h (suc i) x k e at hit)),
  )

module _ {P : EvictionPolicy} (W : Type 0) (now : ℤ) (home : Bytes → ℕ) where
  lookup-before :
      (n : ℕ) (shds : List (Shard P)) (k : Bytes)
      → Housed home n shds
      → home k < n
      → lookup k (listing (snapshot_shards P W now shds)) ≡ none
  unfolding lookup snapshot_shards
  lookup-before n [] k h less = refl
  lookup-before n (shd ∷ shds) k h less =
      rw (listing-append (snapshot_items now shd.items) (snapshot_shards P W now shds)) (
        lookup-append_absent k _ _ (elsewhere home now n shd shds k h (omega arith))
        ∙ lookup-before (n + 1) shds k h.2 (omega arith))

  lookup-shards :
      (n i : ℕ) (shds : List (Shard P)) (k : Bytes)
      → Housed home n shds
      → home k ≡ n + i
      → lookup k (listing (snapshot_shards P W now shds))
        ≡ listed now (see_at now (get_elem? shds i) k)
  unfolding lookup snapshot_shards
  lookup-shards n i [] k h e = refl
  lookup-shards n zero (shd ∷ shds) k h e =
      rw (listing-append (snapshot_items now shd.items) (snapshot_shards P W now shds))
        (elim (Option-cases (see_items now shd.items k)) [
          | inl miss ↦ rw miss (
              lookup-append_absent k _ _ (rw miss at (lookup-items now shd.items k h.0))
              ∙ lookup-before (n + 1) shds k h.2 (omega arith))
          | inr (r, hit) ↦
              rw hit (lookup-append_present k _ _ _ (rw hit at (lookup-items now shd.items k h.0)))
        ])
  lookup-shards n (suc i) (shd ∷ shds) k h e =
      rw (listing-append (snapshot_items now shd.items) (snapshot_shards P W now shds)) (
        lookup-append_absent k _ _ (elsewhere home now n shd shds k h (omega arith))
        ∙ lookup-shards (n + 1) i shds k h.2 (omega arith))

  shards-Distinct :
      (n : ℕ) (shds : List (Shard P))
      → Housed home n shds
      → Distinct (listing (snapshot_shards P W now shds))
  unfolding snapshot_shards
  shards-Distinct n [] h = tt
  shards-Distinct n (shd ∷ shds) h =
      rw (listing-append (snapshot_items now shd.items) (snapshot_shards P W now shds)) (
        append-Distinct _ _ (items-Distinct now shd.items h.0) (shards-Distinct (n + 1) shds h.2)
          (λ k r hit. elim (Option-cases (lookup k shd.items)) [
            | inl miss ↦
                let e : lookup k (listing (snapshot_items now shd.items)) ≡ none =
                  rw miss at (lookup-items now shd.items k h.0) in
                absurd (cc)
            | inr (e, there) ↦ lookup-before (n + 1) shds k h.2 (omega (arith, h.1 k e there))
          ]))

  length-shards :
      (shds : List (Shard P)) → length (snapshot_shards P W now shds) ≡ len_shards P W now shds
  unfolding snapshot_shards len_shards Shard.len
  length-shards [] = refl
  length-shards (shd ∷ shds) = omega (
    arith,
    length-append (snapshot_items now shd.items) (snapshot_shards P W now shds),
    length-items now shd.items,
    length-shards shds,
  )

module _ {P : EvictionPolicy} {W : Type 0} (L : PolicyLaws P) (hash : Bytes → ℕ) where
  -- On a valid store that is open, for a lawful policy, `Snapshot` lists under each key exactly
  -- what the store shows under it at that time, with the lifetime that is left, or -1 if there is
  -- no deadline; it lists no key twice, and `Len` counts the entries that it lists.
  pub listing-snapshot :
      (s : Store P W) (now : ℤ) (key : Bytes)
      → IsValid L hash s
      → s.closed ≡ false
      → (lookup key (listing (snapshot P W now s)) ≡ listed now (store_see hash now s key))
        × Distinct (listing (snapshot P W now s))
        × (len P W now s ≡ length (snapshot P W now s))
  unfolding snapshot len
  listing-snapshot s now key v open_store =
      let home = shard_index P W hash s in
      let h =
        housed home L 0 s.shards v.shards
          (λ i shd k e at hit. omega (arith, v.placed i shd k e at hit)) in
      rw open_store (
        lookup-shards W now home 0 (home key) s.shards key h (omega arith),
        shards-Distinct W now home 0 s.shards h,
        sym (length-shards W now home s.shards),
      )
