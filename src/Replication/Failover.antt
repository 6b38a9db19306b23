-- ===== src/Replication/Failover.antt =====
-- internal/replication/failover.go: the heartbeat monitor of a replica. A round of its loop gets
-- the end of its context, or a tick with the outcome of `checkHeartbeat` and the time. A `time.Time`
-- that is zero is `none`; the float with the milliseconds of the last failover is left out.
use Prim.Native.Nat.{◌+◌}
use vortex_kv_cache.Base.{
  ℕ, zero, suc, ◌≤◌, ◌==◌, if◌then◌else◌, Option, none, some, Bool, true, false, ◌&&◌, ◌||◌, not,
  ◌≡◌, refl, List, [], ◌∷◌, Bytes, arith,
}
use vortex_kv_cache.Base.Int.{ℤ, pos, leb_ℤ}

pub record FailoverConfig : Type 0 where
  pub heartbeat_interval : ℤ
  pub max_missed_beats : ℤ
  pub master_addr : Bytes

unfoldable pub default_failover_config : Bytes → FailoverConfig
default_failover_config master_addr = record {
  heartbeat_interval = pos 100_000_000;
  max_missed_beats = pos 3;
  master_addr = master_addr;
}

pub record FailoverMonitor : Type 0 where
  pub cfg : FailoverConfig
  pub missed_beats : ℕ
  pub is_monitoring : Bool
  pub cancelled : Bool
  pub failover_start : Option ℤ
  pub failover_end : Option ℤ

unfoldable pub new_failover_monitor : FailoverConfig → FailoverMonitor
new_failover_monitor cfg = record {
  cfg = cfg;
  missed_beats = 0;
  is_monitoring = false;
  cancelled = false;
  failover_start = none;
  failover_end = none;
}

unfoldable pub start : FailoverMonitor → FailoverMonitor
start m = if m.is_monitoring then m else record m { is_monitoring = true; missed_beats = 0 }

unfoldable pub stop : FailoverMonitor → FailoverMonitor
stop m = record m { cancelled = true; is_monitoring = false }

-- what a round of the loop waits for
pub data Round : Type 0 where
  ended : Round
  tick : Bool → ℤ → Round

-- a heartbeat that fails
unfoldable pub miss : ℤ → FailoverMonitor → FailoverMonitor
miss now m = record m {
  failover_start = if m.missed_beats == 0 then some now else m.failover_start;
  missed_beats = m.missed_beats + 1;
}

-- `triggerFailover`, up to the promotion of the replica
unfoldable pub trigger_failover : ℤ → FailoverMonitor → FailoverMonitor
trigger_failover now m = record m { is_monitoring = false; failover_end = some now }

-- The loop; the result says whether the failover was triggered, which promotes the replica.
unfoldable pub monitor_loop : List Round → FailoverMonitor → FailoverMonitor × Bool
unfolding miss trigger_failover
monitor_loop [] m = (m, false)
monitor_loop (ended ∷ rounds) m = (m, false)
monitor_loop (tick true now ∷ rounds) m = monitor_loop rounds (record m { missed_beats = 0 })
monitor_loop (tick false now ∷ rounds) m =
    elim (leb_ℤ m.cfg.max_missed_beats (pos (m.missed_beats + 1))) [
      | true ↦ (trigger_failover now (miss now m), true)
      | false ↦ monitor_loop rounds (miss now m)
    ]

abbrev pub ticks : List (Bool × ℤ) → List Round
ticks [] = []
ticks ((beat, now) ∷ bs) = tick beat now ∷ ticks bs

-- the first `n` beats all fail
abbrev pub starts_with : ℕ → List (Bool × ℤ) → Bool
starts_with zero bs = true
starts_with (suc n) [] = false
starts_with (suc n) ((beat, now) ∷ bs) = not beat && starts_with n bs

-- some `n` beats in a row fail
abbrev pub has_run : ℕ → List (Bool × ℤ) → Bool
has_run n [] = starts_with n []
has_run n ((beat, now) ∷ bs) = starts_with n ((beat, now) ∷ bs) || has_run n bs

starts_with-has_run : (n : ℕ) (bs : List (Bool × ℤ)) → starts_with n bs ≡ true → has_run n bs ≡ true
starts_with-has_run n [] h = h
starts_with-has_run n ((beat, now) ∷ bs) h = ground arith

starts_with_mono :
    (n m : ℕ) (bs : List (Bool × ℤ)) → n ≤ m → starts_with m bs ≡ true → starts_with n bs ≡ true
starts_with_mono zero m bs le h = refl
starts_with_mono (suc n) zero bs le h = absurd (omega arith)
starts_with_mono (suc n) (suc m) [] le h = h
starts_with_mono (suc n) (suc m) ((beat, now) ∷ bs) le h = ground (arith, starts_with_mono n m bs)

triggers_from :
    (d : ℕ) (limit : ℕ) (bs : List (Bool × ℤ)) (m : FailoverMonitor)
    → m.cfg.max_missed_beats ≡ pos (suc limit)
    → d + m.missed_beats ≡ limit
    → (monitor_loop (ticks bs) m).1 ≡ (starts_with (suc d) bs || has_run (suc limit) bs)
unfolding monitor_loop miss
triggers_from d limit [] m c e = refl
triggers_from d limit ((true, now) ∷ bs) m c e =
    let ih = triggers_from limit limit bs (record m { missed_beats = 0 }) c (omega arith) in
    ground (arith, ih, starts_with-has_run (suc limit) bs)
triggers_from zero limit ((false, now) ∷ bs) m c e =
    let over : leb_ℤ m.cfg.max_missed_beats (pos (m.missed_beats + 1)) ≡ true =
      rw c (ground arith) in
    rw (over, monitor_loop)
triggers_from (suc d) limit ((false, now) ∷ bs) m c e =
    let under : leb_ℤ m.cfg.max_missed_beats (pos (m.missed_beats + 1)) ≡ false =
      rw c (ground arith) in
    let ih = triggers_from d limit bs (miss now m) c (omega arith) in
    rw (under, monitor_loop) (ground (arith, ih, starts_with_mono (suc d) limit bs))

-- If the configuration of a new monitor allows a positive number of missed beats, then over any
-- ticks after its start the loop triggers the failover exactly if that many beats in a row fail.
pub monitor_loop_triggers :
    (limit : ℕ) (cfg : FailoverConfig) (bs : List (Bool × ℤ))
    → cfg.max_missed_beats ≡ pos (suc limit)
    → (monitor_loop (ticks bs) (start (new_failover_monitor cfg))).1 ≡ has_run (suc limit) bs
unfolding start new_failover_monitor
monitor_loop_triggers limit cfg bs c =
    let t = triggers_from limit limit bs (start (new_failover_monitor cfg)) c (omega arith) in
    ground (arith, t, starts_with-has_run (suc limit) bs)
