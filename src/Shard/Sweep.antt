-- ===== src/Shard/Sweep.antt =====
-- `activeSweep` of internal/store/shard.go: whatever order the runtime visits the keys in.
use vortex_kv_cache.Base.{
  ℕ, ◌+◌, ◌≤◌, none, some, true, false, ◌≡◌, ◌∙◌, refl, List, [], ◌∷◌, Bytes, arith, ≟_iff, length,
  Bool-cases, Option-cases, inl, inr,
}
use vortex_kv_cache.Base.Int.{ℤ, pos, leb_ℤ, ◌≤ℤ◌}
use vortex_kv_cache.Base.Dict.{
  Dict, lookup, delete, Distinct, lookup-delete, delete-Distinct, length-delete_present,
  delete_absent,
}
use vortex_kv_cache.Eviction.{EvictionPolicy}
use vortex_kv_cache.Entry.{Entry, is_expired}
use vortex_kv_cache.Shard.{Shard, count_live, drop, sweep_loop}
use vortex_kv_cache.Lru.History.{mem}
use vortex_kv_cache.Shard.View.{see, see-drop_expired}

-- dropping an expired entry keeps the count of the others
count_live-delete :
    (k : Bytes) (e : Entry) (now : ℤ) (m : Dict Entry)
    → Distinct m
    → lookup k m ≡ some e
    → is_expired e now ≡ true
    → count_live now (delete k m) ≡ count_live now m
unfolding count_live lookup delete
count_live-delete k e now [] d hit old = cc
count_live-delete k e now ((j, f) ∷ m) d hit old =
    ground (arith, ≟_iff j k, delete_absent k m, count_live-delete k e now m d.1)

module _ {P : EvictionPolicy} (size now : ℤ) (k : Bytes) (order : List Bytes) (m n : ℕ)
    (s : Shard P) where
  -- one round of the loop
  data Round : Shard P × ℕ × ℕ → Type 0 where
    stop : leb_ℤ size (pos m) ≡ true → Round (s, n, m)
    skip : lookup k s.items ≡ none → Round (sweep_loop P size now order m n s)
    purge :
        (e : Entry)
        → leb_ℤ size (pos m) ≡ false
        → lookup k s.items ≡ some e
        → is_expired e now ≡ true
        → Round (sweep_loop P size now order (m + 1) (n + 1) (drop P k s))
    keep :
        (e : Entry)
        → leb_ℤ size (pos m) ≡ false
        → lookup k s.items ≡ some e
        → is_expired e now ≡ false
        → Round (sweep_loop P size now order (m + 1) n s)

  round : Round (sweep_loop P size now (k ∷ order) m n s)
  unfolding sweep_loop
  round = elim (Bool-cases (leb_ℤ size (pos m))) [
    | inl enough ↦ rw (enough, sweep_loop) (stop enough)
    | inr more ↦ elim (Option-cases (lookup k s.items)) [
      | inl miss ↦ rw (more, sweep_loop) (rw (miss, sweep_loop) (skip miss))
      | inr (e, hit) ↦ elim (Bool-cases (is_expired e now)) [
        | inl old ↦ rw (more, sweep_loop) (rw (hit, sweep_loop) (rw old (purge e more hit old)))
        | inr fresh ↦
            rw (more, sweep_loop) (rw (hit, sweep_loop) (rw fresh (keep e more hit fresh)))
      ]
    ]
  ]

module _ {P : EvictionPolicy} (size now : ℤ) where
  -- what a run of the loop from `m` sampled and `n` expired keys leaves
  pub record Swept (order : List Bytes) (m n : ℕ) (s : Shard P) (r : Shard P × ℕ × ℕ) : Type 0 where
    pub distinct : Distinct r.0.items
    pub removed : length r.0.items + r.1 ≡ length s.items + n
    pub live : count_live now r.0.items ≡ count_live now s.items
    pub few : r.1 + m ≤ r.2 + n
    pub within : r.2 ≤ m + length order
    pub limited : pos m ≤ℤ size → pos r.2 ≤ℤ size

  pub sweep_loop-Swept :
      (order : List Bytes) (m n : ℕ) (s : Shard P)
      → Distinct s.items
      → Swept order m n s (sweep_loop P size now order m n s)
  unfolding sweep_loop
  sweep_loop-Swept [] m n s d = record {
    distinct = d;
    removed = refl;
    live = refl;
    few = omega arith;
    within = omega arith;
    limited = λ h. h;
  }
  sweep_loop-Swept (k ∷ order) m n s d =
      next (round size now k order m n s) (sweep_loop-Swept order)
    where
      next :
          {r : Shard P × ℕ × ℕ}
          → Round size now k order m n s r
          → ((m n : ℕ) (s : Shard P)
              → Distinct s.items
              → Swept order m n s (sweep_loop P size now order m n s))
          → Swept (k ∷ order) m n s r
      next (stop enough) ih = record {
        distinct = d;
        removed = refl;
        live = refl;
        few = omega arith;
        within = omega arith;
        limited = λ h. h;
      }
      next (skip miss) ih =
          let i = ih m n s d in
          record {
            distinct = i.distinct;
            removed = i.removed;
            live = i.live;
            few = i.few;
            within = omega arith;
            limited = i.limited;
          }
      next (purge e more hit old) ih =
          let i = ih (m + 1) (n + 1) (drop P k s) (delete-Distinct k s.items d) in
          record {
            distinct = i.distinct;
            removed = omega (arith, i.removed, length-delete_present k e s.items d hit);
            live = i.live ∙ count_live-delete k e now s.items d hit old;
            few = omega arith;
            within = omega arith;
            limited = λ h. i.limited (ground arith);
          }
      next (keep e more hit fresh) ih =
          let i = ih (m + 1) n s d in
          record {
            distinct = i.distinct;
            removed = i.removed;
            live = i.live;
            few = omega arith;
            within = omega arith;
            limited = λ h. i.limited (ground arith);
          }

  pub see-sweep_loop :
      (later : ℤ) (j : Bytes)
      → now ≤ℤ later
      → (order : List Bytes) (m n : ℕ) (s : Shard P)
      → see later (sweep_loop P size now order m n s).0 j ≡ see later s j
  unfolding sweep_loop
  see-sweep_loop later j h [] m n s = refl
  see-sweep_loop later j h (k ∷ order) m n s =
      next (round size now k order m n s) (see-sweep_loop later j h order)
    where
      next :
          {r : Shard P × ℕ × ℕ}
          → Round size now k order m n s r
          → ((m n : ℕ) (s : Shard P)
              → see later (sweep_loop P size now order m n s).0 j ≡ see later s j)
          → see later r.0 j ≡ see later s j
      next (stop enough) ih = refl
      next (skip miss) ih = ih m n s
      next (purge e more hit old) ih =
          ih (m + 1) (n + 1) (drop P k s) ∙ see-drop_expired k e now later s j h hit old
      next (keep e more hit fresh) ih = ih (m + 1) n s

  -- an entry that a loop leaves stood there before it
  pub lookup-sweep_loop :
      (j : Bytes) (e : Entry) (order : List Bytes) (m n : ℕ) (s : Shard P)
      → lookup j (sweep_loop P size now order m n s).0.items ≡ some e
      → lookup j s.items ≡ some e
  unfolding sweep_loop
  lookup-sweep_loop j e [] m n s h = h
  lookup-sweep_loop j e (k ∷ order) m n s h =
      next (round size now k order m n s) (lookup-sweep_loop j e order) h
    where
      next :
          {r : Shard P × ℕ × ℕ}
          → Round size now k order m n s r
          → ((m n : ℕ) (s : Shard P)
              → lookup j (sweep_loop P size now order m n s).0.items ≡ some e
              → lookup j s.items ≡ some e)
          → lookup j r.0.items ≡ some e
          → lookup j s.items ≡ some e
      next (stop enough) ih h = h
      next (skip miss) ih h = ih m n s h
      next (purge f more hit old) ih h =
          ground (arith, ih (m + 1) (n + 1) (drop P k s) h, lookup-delete k j s.items)
      next (keep f more hit fresh) ih h = ih (m + 1) n s h

  -- a loop that is not cut off purges every expired key of its order
  pub sweep_loop_complete :
      (j : Bytes) (e : Entry) (order : List Bytes) (m n : ℕ) (s : Shard P)
      → pos (m + length order) ≤ℤ size
      → mem j order ≡ true
      → lookup j (sweep_loop P size now order m n s).0.items ≡ some e
      → is_expired e now ≡ false
  unfolding sweep_loop mem
  sweep_loop_complete j e [] m n s room i h = cc
  sweep_loop_complete j e (k ∷ order) m n s room i h =
      next (round size now k order m n s) (sweep_loop_complete j e order)
        (lookup-sweep_loop j e order) h
    where
      next :
          {r : Shard P × ℕ × ℕ}
          → Round size now k order m n s r
          → ((m n : ℕ) (s : Shard P)
              → pos (m + length order) ≤ℤ size
              → mem j order ≡ true
              → lookup j (sweep_loop P size now order m n s).0.items ≡ some e
              → is_expired e now ≡ false)
          → ((m n : ℕ) (s : Shard P)
              → lookup j (sweep_loop P size now order m n s).0.items ≡ some e
              → lookup j s.items ≡ some e)
          → lookup j r.0.items ≡ some e
          → is_expired e now ≡ false
      next (stop enough) ih before h = absurd (ground arith)
      next (skip miss) ih before h =
          ground (
            arith,
            ≟_iff k j,
            before m n s h,
            λ (t : mem j order ≡ true). ih m n s (omega arith) t h,
          )
      next (purge f more hit old) ih before h = ground (
        arith,
        ≟_iff k j,
        before (m + 1) (n + 1) (drop P k s) h,
        lookup-delete k j s.items,
        λ (t : mem j order ≡ true). ih (m + 1) (n + 1) (drop P k s) (omega arith) t h,
      )
      next (keep f more hit fresh) ih before h = ground (
        arith,
        ≟_iff k j,
        before (m + 1) n s h,
        λ (t : mem j order ≡ true). ih (m + 1) n s (omega arith) t h,
      )
