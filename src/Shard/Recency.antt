-- ===== src/Shard/Recency.antt =====
-- A shard with the LRU policy: which key a full shard gives up (internal/store/shard.go with
-- internal/store/lru.go).
use vortex_kv_cache.Base.{
  Option, if◌then◌else◌, ap, ◌≟◌, none, some, true, ◌≡◌, ◌∙◌, List, Bytes, arith, Option-cases, inl,
  inr,
}
use vortex_kv_cache.Base.Int.{ℤ}
use vortex_kv_cache.Base.Dict.{lookup, lookup-delete, lookup-insert}
use vortex_kv_cache.Entry.{Entry, new_entry}
use vortex_kv_cache.Lru.{LruPolicy, on_set, on_delete}
use vortex_kv_cache.Lru.Contract.{lru_policy}
use vortex_kv_cache.Lru.History.{
  Call, last?, use_key, step, Represents, step-Represents, select_evict-last?,
}
use vortex_kv_cache.Shard.{Shard, is_full, victim, drop, store, make_room, set}
use vortex_kv_cache.Shard.View.{is_key}

-- the keys that a full shard keeps
pub without_last : List Bytes → List Bytes
unfolding last? use_key
without_last ks = elim (last? ks) [ none ↦ ks | some k ↦ use_key ks (Call.del k) ]

-- the policy of a shard stands for the keys `ks`, the most recently used first
pub record Recent (s : Shard lru_policy) (ks : List Bytes) : Type 0 where
  pub policy : LruPolicy
  pub there : s.eviction ≡ some policy
  pub order : Represents policy ks

module _ (s : Shard lru_policy) (ks : List Bytes) (r : Recent s ks)
    (full : is_full lru_policy s ≡ true) where
  lru_victim : victim lru_policy s ≡ last? ks
  unfolding victim
  lru_victim = ground (arith, r.there, select_evict-last? r.policy ks r.order)

  make_room-Recent : Recent (make_room lru_policy s) (without_last ks)
  unfolding make_room without_last
  make_room-Recent = elim (Option-cases (last? ks)) [
    | inl empty ↦ rw (lru_victim ∙ empty, make_room) (rw (empty, without_last) r)
    | inr (k, last) ↦
        rw (lru_victim ∙ last, make_room)
          (rw (last, without_last)
            (record {
              policy = on_delete k r.policy;
              there = unfold drop in ground (arith, r.there);
              order = unfold step in step-Represents r.policy ks (Call.del k) r.order;
            }))
  ]

  -- what `make_room` leaves in the map
  make_room-items :
      (j : Bytes)
      → lookup j (make_room lru_policy s).items
        ≡ (if is_key (last? ks) j then none else lookup j s.items)
  unfolding make_room drop
  make_room-items j = elim (Option-cases (last? ks)) [
    | inl empty ↦ rw (lru_victim ∙ empty, make_room) (rw empty)
    | inr (k, last) ↦ rw (lru_victim ∙ last, make_room) (rw last (lookup-delete k j s.items))
  ]

  -- If a shard with the LRU policy is full and its policy represents a list of keys in the order
  -- of their use, then a `set` of a key that is not stored leaves a map with the new entry under
  -- the key, nothing under the last key of the list if that is another one, and under any other
  -- key what it held before, and a policy that represents the keys of the list but the last, in
  -- their order, behind the new key.
  pub lru_eviction :
      (k val : Bytes) (life now : ℤ) (j : Bytes)
      → lookup k s.items ≡ none
      → let s' = set lru_policy k val life now s in
        (lookup j s'.items ≡ (
          if k ≟ j
          then some (new_entry val life now)
          else if is_key (last? ks) j
          then none
          else lookup j s.items))
        × Recent s' (use_key (without_last ks) (Call.set k))
  unfolding set store
  lru_eviction k val life now j miss =
      let m = make_room-Recent in
      let room = make_room lru_policy s in
      (
        rw (miss, set)
            (lookup-insert k j (new_entry val life now) room.items
              ∙ ap (λ (o : Option Entry). if k ≟ j then some (new_entry val life now) else o)
                  (make_room-items j)),
        rw (miss, set)
            (record {
              policy = on_set k m.policy;
              there = ground (arith, m.there);
              order =
                  unfold step in step-Represents m.policy (without_last ks) (Call.set k) m.order;
            }),
      )
