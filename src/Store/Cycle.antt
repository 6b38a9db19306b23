-- ===== src/Store/Cycle.antt =====
-- `activeExpireLoop` and `runActiveSweepCycle` of internal/store/store.go: the background sweeper, and
-- what it does at each tick.
-- `clock i` is the reading of the clock number `i` of the cycle, `order i` the order in which the
-- sweep at that reading visits the keys.
use Prim.Native.Nat.{◌+◌, ◌*◌, ◌/◌}
use vortex_kv_cache.Base.{
  ℕ, zero, suc, ◌==◌, ltb, ◌||◌, true, false, Option, none, some, List, [], ◌∷◌, Bytes, length,
}
use vortex_kv_cache.Base.Int.{ℤ, ltb_ℤ, ◌+ℤ◌}
use vortex_kv_cache.Eviction.{EvictionPolicy}
use vortex_kv_cache.Shard.{Shard, active_sweep}
use vortex_kv_cache.Store.{Store}

module _ (P : EvictionPolicy) (clock : ℕ → ℤ) (order : ℕ → List Bytes) (size deadline : ℤ) where
  -- the inner loop, from the reading `i` on; the result has the number of the next reading, and
  -- `none` is a lack of fuel
  unfoldable pub sweep_shard : ℕ → ℕ → Shard P → Option (Shard P × ℕ)
  unfolding active_sweep
  sweep_shard zero i shd = none
  sweep_shard (suc fuel) i shd =
      let (shd', expired, sampled) = active_sweep P size (clock i) (order i) shd in
      elim ((sampled == 0) || ltb (expired * 100 / sampled) 25) [
        | true ↦ some (shd', i + 1)
        | false ↦ elim (ltb_ℤ deadline (clock (i + 1))) [
          | true ↦ some (shd', i + 2)
          | false ↦ sweep_shard fuel (i + 2) shd'
        ]
      ]

  -- the outer loop; a round of the inner loop that is followed by another removes a key
  unfoldable pub sweep_shards : ℕ → List (Shard P) → Option (List (Shard P))
  unfolding sweep_shard
  sweep_shards i [] = some []
  sweep_shards i (shd ∷ shds) = elim (ltb_ℤ deadline (clock i)) [
    | true ↦ some (shd ∷ shds)
    | false ↦ elim (sweep_shard (suc (length shd.items)) (i + 1) shd) [
      | none ↦ none
      | some (shd', i') ↦ elim (sweep_shards i' shds) [
        | none ↦ none
        | some shds' ↦ some (shd' ∷ shds')
      ]
    ]
  ]

unfoldable pub run_active_sweep_cycle :
    (P : EvictionPolicy) (W : Type 0) (clock : ℕ → ℤ) (order : ℕ → List Bytes)
    → Store P W
    → Option (Store P W)
unfolding sweep_shards ◌+ℤ◌
run_active_sweep_cycle P W clock order s =
    let deadline = clock 0 +ℤ s.cfg.active_sweep_max_cpu in
    elim (sweep_shards P clock order s.cfg.active_sweep_sample_size deadline 1 s.shards) [
      | none ↦ none
      | some shards' ↦ some (record s { shards = shards' })
    ]

-- a tick that the loop receives: what the other goroutines did to the store since the last one, and
-- the readings and orders of its cycle
pub record Tick (P : EvictionPolicy) (W : Type 0) : Type 0 where
  pub others : Store P W → Store P W
  pub clock : ℕ → ℤ
  pub order : ℕ → List Bytes

-- the loop over the ticks that it receives before the context is done
unfoldable pub active_expire_loop :
    (P : EvictionPolicy) (W : Type 0) → List (Tick P W) → Store P W → Option (Store P W)
unfolding run_active_sweep_cycle
active_expire_loop P W [] s = some s
active_expire_loop P W (t ∷ ts) s = elim (run_active_sweep_cycle P W t.clock t.order (t.others s)) [
  | none ↦ none
  | some s' ↦ active_expire_loop P W ts s'
]
