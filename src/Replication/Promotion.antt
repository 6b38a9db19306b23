-- ===== src/Replication/Promotion.antt =====
-- internal/replication: a replica whose master is gone becomes a master.
use vortex_kv_cache.Base.{
  ℕ, ◌≡◌, ◌∙◌, ap, refl, not, true, false, if◌then◌else◌, some, Bool, List, ◌++◌, Bytes, bytes,
  length, get_elem?, set, get_elem?-snoc,
}
use vortex_kv_cache.Base.Int.{ℤ}
use vortex_kv_cache.Replication.Failover
use vortex_kv_cache.Replication.Failover.{
  FailoverMonitor, Round, ticks, has_run, monitor_loop, monitor_loop_triggers, new_failover_monitor,
  default_failover_config,
}
use vortex_kv_cache.Replication.Manager.{
  Node, slave_of, is_no_one, is_read_only, become_master, become_replica, stop_monitor,
}
use vortex_kv_cache.Replication.Heartbeat.{run_monitor}

read_only_after :
    (b : Bool) (n : Node)
    → is_read_only n ≡ true
    → is_read_only (if b then slave_of (bytes "NO") (bytes "ONE") n else n) ≡ not b
unfolding slave_of is_no_one become_master is_read_only
read_only_after true n h = refl
read_only_after false n h = h

-- what a monitor that is there does
pub run_monitor-some :
    (i : ℕ) (rounds : List Round) (n : Node) (m : FailoverMonitor)
    → get_elem? n.monitors i ≡ some m
    → run_monitor i rounds n ≡ (
        if (monitor_loop rounds m).1
        then slave_of
            (bytes "NO")
            (bytes "ONE")
            (record n { monitors = set n.monitors i (monitor_loop rounds m).0 })
        else record n { monitors = set n.monitors i (monitor_loop rounds m).0 })
unfolding run_monitor
run_monitor-some i rounds n m e = rw (e, run_monitor)

-- the index of the monitor that `SLAVEOF` starts
abbrev pub next_monitor : Node → ℕ
next_monitor n = length (stop_monitor n.manager.monitor n.monitors)

-- If a node is told to follow a master, then over any ticks of the monitor that it starts for that
-- master, with nothing else happening, it stays read-only as long as no three beats in a row fail,
-- and after three that do it takes writes again.
pub failover_promotes :
    (host port : Bytes) (n : Node) (bs : List (Bool × ℤ))
    → is_no_one host port ≡ false
    → is_read_only (run_monitor (next_monitor n) (ticks bs) (slave_of host port n))
      ≡ not (has_run 3 bs)
unfolding slave_of become_replica is_read_only
failover_promotes host port n bs h =
    let m : FailoverMonitor =
      Failover.start (new_failover_monitor (default_failover_config (host ++ bytes ":" ++ port))) in
    let t : (monitor_loop (ticks bs) m).1 ≡ has_run 3 bs =
      monitor_loop_triggers 2 _ bs (unfold default_failover_config in refl) in
    let n' = become_replica (host ++ bytes ":" ++ port) n in
    let r =
      run_monitor-some (next_monitor n) (ticks bs) n' m
        (get_elem?-snoc (stop_monitor n.manager.monitor n.monitors) m) in
    let n'' : Node = record n' {
      monitors = set n'.monitors (next_monitor n) (monitor_loop (ticks bs) m).0;
    } in
    rw (h, r) (read_only_after (monitor_loop (ticks bs) m).1 n'' refl ∙ ap not t)
