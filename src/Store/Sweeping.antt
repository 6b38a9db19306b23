-- ===== src/Store/Sweeping.antt =====
-- The loop of the background sweeper of internal/store/store.go, among the calls of clients.
use vortex_kv_cache.Base.{ℕ, Option, none, some, ◌≡◌, ◌∙◌, refl, List, [], ◌∷◌, Bytes, All}
use vortex_kv_cache.Base.Int.{ℤ, ◌≤ℤ◌}
use vortex_kv_cache.Eviction.{EvictionPolicy, PolicyLaws}
use vortex_kv_cache.Store.{Store}
use vortex_kv_cache.Store.Invariant.{IsValid}
use vortex_kv_cache.Store.Seen.{store_see}
use vortex_kv_cache.Store.Cycle.{Tick, active_expire_loop}
use vortex_kv_cache.Store.Sweeper.{Gives, run_active_sweep_cycle-Gives}
use vortex_kv_cache.Store.Sweeper

module _ {P : EvictionPolicy} {W : Type 0} (L : PolicyLaws P) (later : ℤ) (hash : Bytes → ℕ)
    (j : Bytes) where
  -- a valid store that shows the same under the key as another at the time `later`
  abbrev pub Shows : Store P W → Store P W → Type 0
  Shows s t = IsValid L hash t × (store_see hash later t j ≡ store_see hash later s j)

  -- a cycle that is not after `later`, before which the other goroutines leave the key alone
  pub record Calm (t : Tick P W) : Type 0 where
    pub past : (i : ℕ) → t.clock i ≤ℤ later
    pub keep : (s : Store P W) → IsValid L hash s → Shows s (t.others s)

  next :
      (s : Store P W) (f : Store P W → Option (Store P W)) {o : Option (Store P W)}
      → Gives L later
          (λ t.
            IsValid L hash t × ((k : Bytes) → store_see hash later t k ≡ store_see hash later s k))
          o
      → ((t : Store P W) → Shows s t → Gives L later (Shows s) (f t))
      → Gives L later (Shows s) (elim o as (λ x. Option (Store P W)) [ none ↦ none | some t ↦ f t ])
  next s f (Sweeper.Gives.gives t h) k = k t (h.0, h.1 j)

  widen :
      (s t : Store P W) {o : Option (Store P W)}
      → Shows s t
      → Gives L later (Shows t) o
      → Gives L later (Shows s) o
  widen s t h (Sweeper.Gives.gives u g) = Sweeper.Gives.gives u (g.0, g.1 ∙ h.1)

  -- On a valid store with a lawful policy, over any ticks of the background sweeper whose clock
  -- readings are not after some time, and if what the other goroutines do between its cycles keeps
  -- a store valid and leaves what it shows under a key at that time as it was: every cycle ends
  -- within the fuel, in whatever order the keys are visited, and the store is valid afterwards and
  -- shows under the key at that time what it showed at the start.
  pub active_expire_loop-Gives :
      (ticks : List (Tick P W)) (s : Store P W)
      → All Calm ticks
      → IsValid L hash s
      → Gives L later (Shows s) (active_expire_loop P W ticks s)
  unfolding active_expire_loop
  active_expire_loop-Gives [] s c v = Sweeper.Gives.gives s (v, refl)
  active_expire_loop-Gives (t ∷ ticks) s c v =
      let (v', e) = c.0.keep s v in
      widen s (t.others s) (v', e)
        (next (t.others s) (active_expire_loop P W ticks)
          (run_active_sweep_cycle-Gives L later hash t.clock t.order (t.others s) v' c.0.past)
          (λ u h. widen (t.others s) u h (active_expire_loop-Gives ticks u c.1 h.0)))
