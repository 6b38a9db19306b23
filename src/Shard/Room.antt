-- ===== src/Shard/Room.antt =====
-- How a full shard makes room for a new key (`set` of internal/store/shard.go).
use vortex_kv_cache.Base.{
  ◌<◌, none, some, true, ◌≡◌, ◌∙◌, [], ◌∷◌, Bytes, arith, ≟_refl, length, is_some, Bool-cases,
  Option-cases, inl, inr,
}
use vortex_kv_cache.Base.Int.{pos, ◌<ℤ◌}
use vortex_kv_cache.Base.Dict.{
  Dict, lookup, lookup-delete, insert-Distinct, length-insert_absent, length-delete_present,
}
use vortex_kv_cache.Eviction.{EvictionPolicy, PolicyLaws}
use vortex_kv_cache.Entry.{Entry}
use vortex_kv_cache.Shard.{Shard, is_full, victim, drop, store, make_room}
use vortex_kv_cache.Shard.Invariant.{IsValid, InStep, drop-IsValid, InStep-insert, is_some-notify}

module _ {P : EvictionPolicy} (L : PolicyLaws P) where
  unfoldable pub HasRoom : Shard P → Type 0
  HasRoom s = is_some s.eviction ≡ true → pos 0 <ℤ s.max_keys → pos (length s.items) <ℤ s.max_keys

  pub store_absent-IsValid :
      (k : Bytes) (e : Entry) (s : Shard P)
      → lookup k s.items ≡ none
      → HasRoom s
      → IsValid L s
      → IsValid L (store P k e s)
  unfolding store HasRoom
  store_absent-IsValid k e s miss room v = record {
    distinct = insert-Distinct k e s.items v.distinct;
    in_step = InStep-insert L k e s.eviction s.items v.in_step;
    bounded = λ f h. omega (
      arith,
      room (rw (← is_some-notify L (P.on_set k) s.eviction) f) h,
      length-insert_absent k e s.items miss,
    );
  }

  some_key : (m : Dict Entry) → 0 < length m → (k : Bytes) × (is_some (lookup k m) ≡ true)
  unfolding lookup
  some_key [] h = elim h [ ]
  some_key ((k, e) ∷ m) h = (k, ground (arith, ≟_refl k))

  -- the policy of a full shard has a key to give up, and the map holds it
  full-victim :
      (s : Shard P) (p : P.State)
      → s.eviction ≡ some p
      → IsValid L s
      → 0 < length s.items
      → (k : Bytes) × (e : Entry) × (P.select_evict p ≡ some k) × (lookup k s.items ≡ some e)
  full-victim s p at_p v h =
      let w : InStep L (some p) s.items = rw at_p at v.in_step in
      elim (Option-cases (P.select_evict p)) [
        | inl nothing ↦
            let (k, there) = some_key s.items h in
            absurd (ground (arith, w.1 k, L.select_evict-none k p w.0 nothing))
        | inr (k, chosen) ↦
            let there : is_some (lookup k s.items) ≡ true =
              ground (arith, w.1 k, L.has-select_evict k p w.0 chosen) in
            elim (Option-cases (lookup k s.items)) [
              | inl miss ↦ absurd (ground arith)
              | inr (e, hit) ↦ (k, e, chosen, hit)
            ]
      ]

  victim_full :
      (s : Shard P) (p : P.State)
      → s.eviction ≡ some p
      → is_full P s ≡ true
      → victim P s ≡ P.select_evict p
  unfolding victim
  victim_full s p at_p full = rw (full, at_p, victim)

  pub make_room-drop : (s : Shard P) (k : Bytes) → victim P s ≡ some k → make_room P s ≡ drop P k s
  unfolding make_room
  make_room-drop s k e = rw (e, make_room)

  pub make_room_keep : (s : Shard P) → victim P s ≡ none → make_room P s ≡ s
  unfolding make_room
  make_room_keep s e = rw (e, make_room)

  -- after the eviction there is room for one more key
  full-HasRoom :
      (s : Shard P) (p : P.State)
      → IsValid L s
      → s.eviction ≡ some p
      → is_full P s ≡ true
      → HasRoom (make_room P s)
  unfolding HasRoom is_full drop
  full-HasRoom s p v at_p full =
      let (k, e, chosen, hit) = full-victim s p at_p v (ground arith) in
      rw (make_room-drop s k (victim_full s p at_p full ∙ chosen)) (λ f h.
        omega (arith, v.bounded (rw at_p) h, length-delete_present k e s.items v.distinct hit))

  pub make_room-HasRoom : (s : Shard P) → IsValid L s → HasRoom (make_room P s)
  make_room-HasRoom s v = elim (Bool-cases (is_full P s)) [
    | inl full ↦ elim (Option-cases s.eviction) [
      | inl off ↦
          rw (make_room_keep s (unfold victim in ground arith))
            (unfold HasRoom in λ f. absurd (ground arith))
      | inr (p, at_p) ↦ full-HasRoom s p v at_p full
    ]
    | inr room ↦
        rw (make_room_keep s (unfold victim in ground arith))
          (unfold HasRoom is_full in λ f h. ground arith)
  ]

  pub make_room-absent :
      (s : Shard P) (k : Bytes) → lookup k s.items ≡ none → lookup k (make_room P s).items ≡ none
  make_room-absent s k miss = elim (Option-cases (victim P s)) [
    | inl nothing ↦ rw (make_room_keep s nothing) miss
    | inr (j, chosen) ↦
        rw (make_room-drop s j chosen) (unfold drop in ground (arith, lookup-delete j k s.items))
  ]

  pub make_room-IsValid : (s : Shard P) → IsValid L s → IsValid L (make_room P s)
  make_room-IsValid s v = elim (Option-cases (victim P s)) [
    | inl nothing ↦ rw (make_room_keep s nothing) v
    | inr (k, chosen) ↦ rw (make_room-drop s k chosen) (drop-IsValid L k s v)
  ]
