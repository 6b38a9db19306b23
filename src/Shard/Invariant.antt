-- ===== src/Shard/Invariant.antt =====
-- The invariant of a shard (internal/store/shard.go): the policy holds exactly the stored keys, and
-- a bounded shard holds no more keys than its bound.
use vortex_kv_cache.Base.{
  ◌≤◌, Option, none, some, Bool, true, false, ◌≡◌, refl, [], ◌∷◌, Bytes, arith, ≟_iff, length,
  is_some,
}
use vortex_kv_cache.Base.Int.{ℤ, pos, ◌≤ℤ◌, ◌<ℤ◌}
use vortex_kv_cache.Base.Dict.{
  Dict, lookup, insert, delete, Distinct, lookup-insert, lookup-delete, insert-Distinct,
  delete-Distinct, length-insert_present,
}
use vortex_kv_cache.Eviction.{EvictionPolicy, PolicyLaws}
use vortex_kv_cache.Entry.{Entry}
use vortex_kv_cache.Shard.{Shard, notify, new_shard, drop, store}

module _ {P : EvictionPolicy} (L : PolicyLaws P) where
  -- the policy holds the keys of the map, and no others
  abbrev pub InStep : Option P.State → Dict Entry → Type 0
  InStep none items = Unit
  InStep (some p) items = L.IsValid p × ((k : Bytes) → L.has p k ≡ is_some (lookup k items))

  pub record IsValid (s : Shard P) : Type 0 where
    pub distinct : Distinct s.items
    pub in_step : InStep s.eviction s.items
    pub bounded :
        is_some s.eviction ≡ true → pos 0 <ℤ s.max_keys → pos (length s.items) ≤ℤ s.max_keys

  pub new_shard-IsValid : (n : ℤ) (factory : Bool) → IsValid (new_shard P n factory)
  unfolding new_shard lookup
  new_shard-IsValid n true = record {
    distinct = tt;
    in_step = (L.create-IsValid, L.has-create);
    bounded = λ e h. omega arith;
  }
  new_shard-IsValid n false = record { distinct = tt; in_step = tt; bounded = λ e. cc }

  pub InStep-delete :
      (k : Bytes) (o : Option P.State) (items : Dict Entry)
      → InStep o items
      → InStep (notify (P.on_delete k) o) (delete k items)
  InStep-delete k none items h = tt
  InStep-delete k (some p) items h = (
    L.on_delete-IsValid k p h.0,
    λ j. ground (arith, L.has-on_delete k j p h.0, h.1 j, lookup-delete k j items),
  )

  pub InStep-insert :
      (k : Bytes) (e : Entry) (o : Option P.State) (items : Dict Entry)
      → InStep o items
      → InStep (notify (P.on_set k) o) (insert k e items)
  InStep-insert k e none items h = tt
  InStep-insert k e (some p) items h = (
    L.on_set-IsValid k p h.0,
    λ j. ground (arith, L.has-on_set k j p h.0, h.1 j, lookup-insert k j e items),
  )

  -- a write to an entry that is there, without a word to the policy
  pub InStep-update :
      (k : Bytes) (e e' : Entry) (o : Option P.State) (items : Dict Entry)
      → lookup k items ≡ some e
      → InStep o items
      → InStep o (insert k e' items)
  InStep-update k e e' none items hit h = tt
  InStep-update k e e' (some p) items hit h =
      (h.0, λ j. ground (arith, h.1 j, lookup-insert k j e' items, ≟_iff k j))

  pub InStep-get :
      (k : Bytes) (o : Option P.State) (items : Dict Entry)
      → InStep o items
      → InStep (notify (P.on_get k) o) items
  InStep-get k none items h = tt
  InStep-get k (some p) items h =
      (L.on_get-IsValid k p h.0, λ j. ground (arith, L.has-on_get k j p h.0, h.1 j))

  pub is_some-notify :
      (f : P.State → P.State) (o : Option P.State) → is_some (notify f o) ≡ is_some o
  is_some-notify f none = refl
  is_some-notify f (some p) = refl

  length-delete-le : (k : Bytes) (m : Dict Entry) → length (delete k m) ≤ length m
  unfolding delete
  length-delete-le k [] = omega arith
  length-delete-le k ((j, e) ∷ m) = ground (arith, length-delete-le k m)

  pub drop-IsValid : (k : Bytes) (s : Shard P) → IsValid s → IsValid (drop P k s)
  unfolding drop
  drop-IsValid k s v = record {
    distinct = delete-Distinct k s.items v.distinct;
    in_step = InStep-delete k s.eviction s.items v.in_step;
    bounded = λ e h. omega (
      arith,
      v.bounded (rw (← is_some-notify (P.on_delete k) s.eviction) e) h,
      length-delete-le k s.items,
    );
  }

  pub store_present-IsValid :
      (k : Bytes) (e e' : Entry) (s : Shard P)
      → lookup k s.items ≡ some e
      → IsValid s
      → IsValid (store P k e' s)
  unfolding store
  store_present-IsValid k e e' s hit v = record {
    distinct = insert-Distinct k e' s.items v.distinct;
    in_step = InStep-insert k e' s.eviction s.items v.in_step;
    bounded = λ f h. omega (
      arith,
      v.bounded (rw (← is_some-notify (P.on_set k) s.eviction) f) h,
      length-insert_present k e' e s.items hit,
    );
  }

  pub update-IsValid :
      (k : Bytes) (e e' : Entry) (s : Shard P)
      → lookup k s.items ≡ some e
      → IsValid s
      → IsValid (record s { items = insert k e' s.items })
  update-IsValid k e e' s hit v = record {
    distinct = insert-Distinct k e' s.items v.distinct;
    in_step = InStep-update k e e' s.eviction s.items hit v.in_step;
    bounded = λ f h. omega (arith, v.bounded f h, length-insert_present k e' e s.items hit);
  }
