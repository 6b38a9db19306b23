-- ===== src/Shard/Sections.antt =====
-- The critical sections of internal/store/shard.go keep the invariant, in any order.
use vortex_kv_cache.Base.{
  ℕ, ◌+◌, List, [], ◌∷◌, Bytes, length, Bool-cases, Option-cases, inl, inr, ◌==◌,
}
use vortex_kv_cache.Base.Int.{ℤ, pos, leb_ℤ}
use vortex_kv_cache.Base.Dict.{lookup}
use vortex_kv_cache.Eviction.{EvictionPolicy, PolicyLaws}
use vortex_kv_cache.Entry.{new_entry, deadline, is_expired}
use vortex_kv_cache.Shard.{
  Shard, drop, make_room, set, get_read, purge_expired, touch_present, remove, expire, active_sweep,
  sweep_loop,
}
use vortex_kv_cache.Shard.Invariant.{
  IsValid, drop-IsValid, store_present-IsValid, update-IsValid, InStep-get, is_some-notify,
}
use vortex_kv_cache.Shard.Room.{
  store_absent-IsValid, make_room-HasRoom, make_room-IsValid, make_room-absent,
}

module _ {P : EvictionPolicy} (L : PolicyLaws P) where
  pub set-IsValid :
      (k val : Bytes) (life now : ℤ) (s : Shard P)
      → IsValid L s
      → IsValid L (set P k val life now s)
  unfolding set
  set-IsValid k val life now s v = elim (Option-cases (lookup k s.items)) [
    | inl miss ↦
        rw (miss, set)
          (store_absent-IsValid L k (new_entry val life now) (make_room P s)
            (make_room-absent L s k miss) (make_room-HasRoom L s v) (make_room-IsValid L s v))
    | inr (e, hit) ↦ rw (hit, set) (store_present-IsValid L k e (new_entry val life now) s hit v)
  ]

  pub get_read-IsValid :
      (k : Bytes) (now : ℤ) (s : Shard P) → IsValid L s → IsValid L (get_read P k now s).0
  unfolding get_read
  get_read-IsValid k now s v = elim (Option-cases (lookup k s.items)) [
    | inl miss ↦ rw (miss, get_read) v
    | inr (e, hit) ↦ elim (Bool-cases (is_expired e now)) [
      | inl old ↦ rw (hit, get_read) (rw old v)
      | inr live ↦
          rw (hit, get_read)
            (rw live (update-IsValid L k e (record e { accessed_at = now }) s hit v))
    ]
  ]

  pub purge_expired-IsValid :
      (k : Bytes) (now : ℤ) (s : Shard P) → IsValid L s → IsValid L (purge_expired P k now s)
  unfolding purge_expired
  purge_expired-IsValid k now s v = elim (Option-cases (lookup k s.items)) [
    | inl miss ↦ rw (miss, purge_expired) v
    | inr (e, hit) ↦ elim (Bool-cases (is_expired e now)) [
      | inl old ↦ rw (hit, purge_expired) (rw old (drop-IsValid L k s v))
      | inr live ↦ rw (hit, purge_expired) (rw live v)
    ]
  ]

  pub touch_present-IsValid :
      (k : Bytes) (s : Shard P) → IsValid L s → IsValid L (touch_present P k s)
  unfolding touch_present
  touch_present-IsValid k s v = elim (Option-cases (lookup k s.items)) [
    | inl miss ↦ rw (miss, touch_present) v
    | inr (e, hit) ↦
        rw (hit, touch_present)
          (record {
            distinct = v.distinct;
            in_step = InStep-get L k s.eviction s.items v.in_step;
            bounded = λ f h. v.bounded (rw (← is_some-notify L (P.on_get k) s.eviction) f) h;
          })
  ]

  pub remove-IsValid : (k : Bytes) (s : Shard P) → IsValid L s → IsValid L (remove P k s).0
  unfolding remove
  remove-IsValid k s v = elim (Option-cases (lookup k s.items)) [
    | inl miss ↦ rw (miss, remove) v
    | inr (e, hit) ↦ rw (hit, remove) (drop-IsValid L k s v)
  ]

  pub expire-IsValid :
      (k : Bytes) (life now : ℤ) (s : Shard P) → IsValid L s → IsValid L (expire P k life now s).0
  unfolding expire
  expire-IsValid k life now s v = elim (Option-cases (lookup k s.items)) [
    | inl miss ↦ rw (miss, expire) v
    | inr (e, hit) ↦ elim (Bool-cases (is_expired e now)) [
      | inl old ↦ rw (hit, expire) (rw old (drop-IsValid L k s v))
      | inr live ↦
          rw (hit, expire)
            (rw live
              (store_present-IsValid L k e (record e { expires_at = deadline life now }) s hit v))
    ]
  ]

  sweep_loop-IsValid :
      (size now : ℤ) (order : List Bytes) (m n : ℕ) (s : Shard P)
      → IsValid L s
      → IsValid L (sweep_loop P size now order m n s).0
  unfolding sweep_loop
  sweep_loop-IsValid size now [] m n s v = v
  sweep_loop-IsValid size now (k ∷ order) m n s v = elim (Bool-cases (leb_ℤ size (pos m))) [
    | inl enough ↦ rw (enough, sweep_loop) v
    | inr more ↦ elim (Option-cases (lookup k s.items)) [
      | inl miss ↦
          rw (more, sweep_loop) (rw (miss, sweep_loop) (sweep_loop-IsValid size now order m n s v))
      | inr (e, hit) ↦ elim (Bool-cases (is_expired e now)) [
        | inl old ↦
            rw (more, sweep_loop)
              (rw (hit, sweep_loop)
                (rw old (
                  sweep_loop-IsValid size now order (m + 1) (n + 1) (drop P k s)
                    (drop-IsValid L k s v))))
        | inr live ↦
            rw (more, sweep_loop)
              (rw (hit, sweep_loop) (rw live (sweep_loop-IsValid size now order (m + 1) n s v)))
      ]
    ]
  ]

  pub active_sweep-IsValid :
      (size now : ℤ) (order : List Bytes) (s : Shard P)
      → IsValid L s
      → IsValid L (active_sweep P size now order s).0
  unfolding active_sweep
  active_sweep-IsValid size now order s v = elim (Bool-cases (length s.items == 0)) [
    | inl empty ↦ rw empty v
    | inr more ↦ rw more (sweep_loop-IsValid size now order 0 0 s v)
  ]
