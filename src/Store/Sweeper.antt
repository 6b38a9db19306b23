-- ===== src/Store/Sweeper.antt =====
-- A cycle of the background sweeper of internal/store/store.go ends, and no client sees it.
use Prim.Native.Nat.{◌+◌, ◌*◌, ◌/◌}
use vortex_kv_cache.Base.{
  ℕ, zero, suc, ◌<◌, ◌==◌, ltb, ◌||◌, Bool, true, false, ◌≡◌, ◌∙◌, refl, Option, none, some, List,
  [], ◌∷◌, Bytes, length, All, arith,
}
use vortex_kv_cache.Base.Int.{ℤ, ltb_ℤ, ◌+ℤ◌, ◌≤ℤ◌}
use vortex_kv_cache.Eviction.{EvictionPolicy, PolicyLaws}
use vortex_kv_cache.Shard.{Shard, active_sweep}
use vortex_kv_cache.Shard.Invariant
use vortex_kv_cache.Shard.Sections.{active_sweep-IsValid}
use vortex_kv_cache.Shard.Purge.{length-active_sweep, lookup-active_sweep, see-active_sweep}
use vortex_kv_cache.Store.{Store, shard_index}
use vortex_kv_cache.Store.Invariant.{IsValid}
use vortex_kv_cache.Store.Seen.{store_see}
use vortex_kv_cache.Store.Cycle.{sweep_shard, sweep_shards, run_active_sweep_cycle}
use vortex_kv_cache.Store.Pruned.{
  Pruned, AllPruned, no_shards, one_more, Pruned-trans, AllPruned-refl, length-AllPruned,
  All-AllPruned, see_at-AllPruned, before,
}

-- a round is followed by another only if it found an expired key
progress :
    (expired sampled : ℕ)
    → ((sampled == 0) || ltb (expired * 100 / sampled) 25) ≡ false
    → 0 < expired
progress zero sampled h = absurd (ground arith)
progress (suc n) sampled h = omega arith

module _ {P : EvictionPolicy} (L : PolicyLaws P) (later : ℤ) where
  -- what is left of one shard, with a result that is there
  data Leaves (s : Shard P) : Option (Shard P × ℕ) → Type 0 where
    leaves : (t : Shard P) (i : ℕ) → Pruned L later s t → Leaves s (some (t, i))

  data LeavesAll (ss : List (Shard P)) : Option (List (Shard P)) → Type 0 where
    leaves_all : (ts : List (Shard P)) → AllPruned L later ss ts → LeavesAll ss (some ts)

  Leaves-after :
      (s t : Shard P) {o : Option (Shard P × ℕ)} → Pruned L later s t → Leaves t o → Leaves s o
  Leaves-after s t p (leaves u i q) = leaves u i (Pruned-trans L later s t u p q)

  -- the two tests that end the inner loop
  tests :
      (s : Shard P) (enough over : Bool) {x y z : Option (Shard P × ℕ)}
      → Leaves s x
      → Leaves s y
      → (enough ≡ false → Leaves s z)
      → Leaves s (elim enough as (λ b. Option (Shard P × ℕ)) [
        | true ↦ x
        | false ↦ elim over as (λ b. Option (Shard P × ℕ)) [ true ↦ y | false ↦ z ]
      ])
  tests s true over l m n = l
  tests s false true l m n = m
  tests s false false l m n = n refl

  module _ (clock : ℕ → ℤ) (order : ℕ → List Bytes) (size deadline : ℤ)
      (past : (i : ℕ) → clock i ≤ℤ later) where
    sweep_shard-Leaves :
        (fuel i : ℕ) (s : Shard P)
        → Invariant.IsValid L s
        → length s.items < fuel
        → Leaves s (sweep_shard P clock order size deadline fuel i s)
    unfolding sweep_shard
    sweep_shard-Leaves zero i s v h = absurd (omega arith)
    sweep_shard-Leaves (suc fuel) i s v h =
        let r = active_sweep P size (clock i) (order i) s in
        let v' = active_sweep-IsValid L size (clock i) (order i) s v in
        let p : Pruned L later s r.0 = record {
          valid = v';
          only = lookup-active_sweep size (clock i) (order i) s;
          same = λ j. see-active_sweep size (clock i) (order i) s j later (past i);
        } in
        let removed = length-active_sweep size (clock i) (order i) s v.distinct in
        tests s ((r.2 == 0) || ltb (r.1 * 100 / r.2) 25) (ltb_ℤ deadline (clock (i + 1)))
          (leaves r.0 (i + 1) p) (leaves r.0 (i + 2) p)
          (λ more. Leaves-after s r.0 p (
            sweep_shard-Leaves fuel (i + 2) r.0 v' (omega (arith, removed, progress r.1 r.2 more))))

    sweep_shards-LeavesAll :
        (i : ℕ) (ss : List (Shard P))
        → All (Invariant.IsValid L) ss
        → LeavesAll ss (sweep_shards P clock order size deadline i ss)
    unfolding sweep_shards
    sweep_shards-LeavesAll i [] v = leaves_all [] no_shards
    sweep_shards-LeavesAll i (s ∷ ss) v =
        first (ltb_ℤ deadline (clock i))
          (sweep_shard-Leaves (suc (length s.items)) (i + 1) s v.0 (omega arith))
          (λ k. sweep_shards-LeavesAll k ss v.1)
      where
        second :
            (t : Shard P) {o : Option (List (Shard P))}
            → Pruned L later s t
            → LeavesAll ss o
            → LeavesAll
                (s ∷ ss)
                (elim o as (λ x. Option (List (Shard P))) [ none ↦ none | some ts ↦ some (t ∷ ts) ])
        second t p (leaves_all ts q) = leaves_all (t ∷ ts) (one_more s t ss ts p q)

        rest :
            {o : Option (Shard P × ℕ)} {f : ℕ → Option (List (Shard P))}
            → Leaves s o
            → ((k : ℕ) → LeavesAll ss (f k))
            → LeavesAll (s ∷ ss) (elim o as (λ x. Option (List (Shard P))) [
              | none ↦ none
              | some (t, k) ↦ elim (f k) as (λ x. Option (List (Shard P))) [
                | none ↦ none
                | some ts ↦ some (t ∷ ts)
              ]
            ])
        rest (leaves t k p) q = second t p (q k)

        first :
            (over : Bool) {o : Option (Shard P × ℕ)} {f : ℕ → Option (List (Shard P))}
            → Leaves s o
            → ((k : ℕ) → LeavesAll ss (f k))
            → LeavesAll (s ∷ ss) (elim over as (λ x. Option (List (Shard P))) [
              | true ↦ some (s ∷ ss)
              | false ↦ elim o as (λ x. Option (List (Shard P))) [
                | none ↦ none
                | some (t, k) ↦ elim (f k) as (λ x. Option (List (Shard P))) [
                  | none ↦ none
                  | some ts ↦ some (t ∷ ts)
                ]
              ]
            ])
        first true l q = leaves_all (s ∷ ss) (AllPruned-refl L later (s ∷ ss) v)
        first false l q = rest l q

  -- there is a result, and it has `Q`
  pub data Gives {A : Type 0} (Q : A → Type 0) : Option A → Type 0 where
    gives : (a : A) → Q a → Gives Q (some a)

  module _ {W : Type 0} (hash : Bytes → ℕ) (clock : ℕ → ℤ) (order : ℕ → List Bytes) (s : Store P W)
      (v : IsValid L hash s) where
    with_shards :
        {o : Option (List (Shard P))}
        → LeavesAll s.shards o
        → Gives
            (λ s'.
              IsValid L hash s'
              × ((j : Bytes) → store_see hash later s' j ≡ store_see hash later s j))
            (elim o as (λ x. Option (Store P W)) [
              | none ↦ none
              | some shards' ↦ some (record s { shards = shards' })
            ])
    with_shards (leaves_all ts q) = gives _ (
      record {
        bits = v.bits;
        count = length-AllPruned L later q ∙ v.count;
        mask = v.mask;
        shards = All-AllPruned L later q;
        placed = λ i t key e at there.
            let b = before L later i t key e q at there in v.placed i b.shd key e b.there b.stored;
      },
      λ j. see_at-AllPruned L later (shard_index P W hash s j) j q,
    )

    -- On a valid store with a lawful policy, a cycle of the background sweeper ends within the
    -- fuel, whatever the clock reads and in whatever order the keys are visited, and the store is
    -- valid afterwards and shows, at any time that is not before the readings of the clock, under
    -- every key what it showed before.
    pub run_active_sweep_cycle-Gives :
        ((i : ℕ) → clock i ≤ℤ later)
        → Gives
            (λ s'.
              IsValid L hash s'
              × ((j : Bytes) → store_see hash later s' j ≡ store_see hash later s j))
            (run_active_sweep_cycle P W clock order s)
    unfolding run_active_sweep_cycle
    run_active_sweep_cycle-Gives past = with_shards (
        sweep_shards-LeavesAll clock order s.cfg.active_sweep_sample_size
          (clock 0 +ℤ s.cfg.active_sweep_max_cpu) past 1 s.shards v.shards)
