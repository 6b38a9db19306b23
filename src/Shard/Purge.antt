-- ===== src/Shard/Purge.antt =====
-- `activeSweep` of internal/store/shard.go, as a whole.
use vortex_kv_cache.Base.{
  ◌+◌, ◌≤◌, ◌==◌, none, some, true, false, ◌≡◌, refl, List, [], ◌∷◌, Bytes, arith, length,
  Bool-cases, inl, inr,
}
use vortex_kv_cache.Base.Int.{ℤ, pos, ◌≤ℤ◌}
use vortex_kv_cache.Base.Dict.{Dict, lookup, Distinct}
use vortex_kv_cache.Eviction.{EvictionPolicy}
use vortex_kv_cache.Entry.{Entry, is_expired}
use vortex_kv_cache.Shard.{Shard, len, active_sweep}
use vortex_kv_cache.Lru.History.{mem}
use vortex_kv_cache.Shard.View.{see}
use vortex_kv_cache.Shard.Sweep.{
  sweep_loop-Swept, lookup-sweep_loop, see-sweep_loop, sweep_loop_complete,
}

empty_lookup : (j : Bytes) (m : Dict Entry) → length m ≡ 0 → lookup j m ≡ none
unfolding lookup
empty_lookup j [] h = refl
empty_lookup j (x ∷ m) h = absurd (omega arith)

module _ {P : EvictionPolicy} (size now : ℤ) where
  -- On a shard that stores no key twice, and with a sample size that is not negative, a sweep
  -- removes as many entries as it reports, reports no more of them than it samples, samples at
  -- most the sample size, and leaves the number of live entries as it was.
  pub active_sweep_counts :
      (order : List Bytes) (s : Shard P)
      → Distinct s.items
      → pos 0 ≤ℤ size
      → (length (active_sweep P size now order s).0.items + (active_sweep P size now order s).1
          ≡ length s.items)
        × ((active_sweep P size now order s).1 ≤ (active_sweep P size now order s).2)
        × (pos (active_sweep P size now order s).2 ≤ℤ size)
        × (len P now (active_sweep P size now order s).0 ≡ len P now s)
  unfolding active_sweep len
  active_sweep_counts order s d h =
      let i = sweep_loop-Swept size now order 0 0 s d in
      elim (Bool-cases (length s.items == 0)) [
        | inl empty ↦ rw empty (omega arith, omega arith, omega arith, refl)
        | inr more ↦
            rw more
              (omega (arith, i.removed), omega (arith, i.few), i.limited (omega arith), i.live)
      ]

  -- a sweep removes as many entries as it reports
  pub length-active_sweep :
      (order : List Bytes) (s : Shard P)
      → Distinct s.items
      → length (active_sweep P size now order s).0.items + (active_sweep P size now order s).1
        ≡ length s.items
  unfolding active_sweep
  length-active_sweep order s d = elim (Bool-cases (length s.items == 0)) [
    | inl empty ↦ rw empty (omega arith)
    | inr more ↦
        rw more (let i = sweep_loop-Swept size now order 0 0 s d in omega (arith, i.removed))
  ]

  -- an entry that a sweep leaves stood there before it
  pub lookup-active_sweep :
      (order : List Bytes) (s : Shard P) (j : Bytes) (e : Entry)
      → lookup j (active_sweep P size now order s).0.items ≡ some e
      → lookup j s.items ≡ some e
  unfolding active_sweep
  lookup-active_sweep order s j e h = elim (Bool-cases (length s.items == 0)) [
    | inl empty ↦ rw empty at h
    | inr more ↦ lookup-sweep_loop size now j e order 0 0 s (rw more at h)
  ]

  -- In whatever order a sweep visits the keys, it changes nothing that the shard shows under any
  -- key from the time of the sweep on.
  pub see-active_sweep :
      (order : List Bytes) (s : Shard P) (j : Bytes) (later : ℤ)
      → now ≤ℤ later
      → see later (active_sweep P size now order s).0 j ≡ see later s j
  unfolding active_sweep
  see-active_sweep order s j later h = elim (Bool-cases (length s.items == 0)) [
    | inl empty ↦ rw empty
    | inr more ↦ rw more (see-sweep_loop size now later j h order 0 0 s)
  ]

  -- If the sample size is at least the length of the order in which a sweep visits the keys, then
  -- no entry that is stored afterwards under a key of that order is expired at the time of the
  -- sweep.
  pub active_sweep_purges :
      (order : List Bytes) (s : Shard P) (j : Bytes) (e : Entry)
      → pos (length order) ≤ℤ size
      → mem j order ≡ true
      → lookup j (active_sweep P size now order s).0.items ≡ some e
      → is_expired e now ≡ false
  unfolding active_sweep
  active_sweep_purges order s j e room i h = elim (Bool-cases (length s.items == 0)) [
    | inl empty ↦ absurd (ground (arith, empty_lookup j s.items, rw empty at h))
    | inr more ↦ sweep_loop_complete size now j e order 0 0 s (omega arith) i (rw more at h)
  ]
