-- ===== src/Replication/Stale.antt =====
-- internal/replication: goroutines that a node started before it was told to follow another master,
-- or none.
use Prim.Native.Nat.{◌+◌}
use vortex_kv_cache.Base.{
  ℕ, ◌≡◌, true, false, some, [], ◌∷◌, ◌++◌, Bytes, bytes, get_elem?, get_elem?-append, arith,
}
use vortex_kv_cache.Base.Int.{ℤ, pos, leb_ℤ}
use vortex_kv_cache.Replication.Failover
use vortex_kv_cache.Replication.Failover.{
  FailoverMonitor, tick, monitor_loop, miss, trigger_failover,
}
use vortex_kv_cache.Replication.Manager.{
  get-modify, Node, role_master, slave_of, is_no_one, become_master, become_replica, stop_monitor,
}
use vortex_kv_cache.Replication.Heartbeat.{run_monitor}
use vortex_kv_cache.Replication.Promotion.{run_monitor-some}

-- the beat that is too much
monitor_loop-last :
    (m : FailoverMonitor) (now : ℤ)
    → m.cfg.max_missed_beats ≡ pos (m.missed_beats + 1)
    → (monitor_loop (tick false now ∷ []) m).1 ≡ true
unfolding monitor_loop
monitor_loop-last m now h =
    let over : leb_ℤ m.cfg.max_missed_beats (pos (m.missed_beats + 1)) ≡ true =
      rw h (ground arith) in
    rw (over, monitor_loop)

-- If the monitor of a node has missed all the beats but one that its configuration allows, and the
-- node is told to follow another master while the next heartbeat is under way, then the failure of
-- that heartbeat still makes the node a master, although the monitor is stopped.
pub old_monitor_promotes :
    (host port : Bytes) (n : Node) (i : ℕ) (m : FailoverMonitor) (now : ℤ)
    → is_no_one host port ≡ false
    → n.manager.monitor ≡ some i
    → get_elem? n.monitors i ≡ some m
    → m.cfg.max_missed_beats ≡ pos (m.missed_beats + 1)
    → (run_monitor i (tick false now ∷ []) (slave_of host port n)).manager.role ≡ role_master
unfolding slave_of become_replica is_no_one become_master
old_monitor_promotes host port n i m now h c e l =
    let n' = become_replica (host ++ bytes ":" ++ port) n in
    let stopped : get_elem? (stop_monitor n.manager.monitor n.monitors) i ≡ some (Failover.stop m) =
      rw c (get-modify Failover.stop i n.monitors m e) in
    let found : get_elem? n'.monitors i ≡ some (Failover.stop m) =
      get_elem?-append _ _ i _ stopped in
    let last = monitor_loop-last (Failover.stop m) now (unfold Failover.stop in l) in
    rw (h, run_monitor-some i (tick false now ∷ []) n' (Failover.stop m) found, last)
