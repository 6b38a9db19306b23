-- ===== src/Tests/NodeTests.antt =====
-- internal/replication at concrete inputs: a node that follows a master.
use vortex_kv_cache.Base.{
  All, ◌≤◌, ◌≟◌, some, ◌≡◌, refl, List, [], ◌∷◌, ◌++◌, Bytes, bytes, Bool, true, false, not, length,
  arith,
}
use vortex_kv_cache.Base.Int.{ℤ, pos}
use vortex_kv_cache.Lru.Contract.{lru_policy}
use vortex_kv_cache.Store.{SnapshotEntry, returns}
use vortex_kv_cache.Resp.Value.{
  slice, new_bulk_string, new_bulk_string_bytes, new_bulk_string_from_string, new_simple_string,
  new_array,
}
use vortex_kv_cache.Resp.Writer.{write_value}
use vortex_kv_cache.Resp.Frames.{IsFrame, done, more}
use vortex_kv_cache.Resp.Frames
use vortex_kv_cache.Replication.Failover.{
  FailoverMonitor, tick, ticks, has_run, new_failover_monitor, default_failover_config,
}
use vortex_kv_cache.Replication.Master.{values, register_replica, set_words, px_words}
use vortex_kv_cache.Replication.Manager.{
  Node, role_master, new_node, new_replica_manager, slave_of, is_no_one, is_read_only,
  become_replica,
}
use vortex_kv_cache.Replication.Sync.{acknowledge, dialed, greeted, sync_conn}
use vortex_kv_cache.Replication.Heartbeat.{run_monitor, check_heartbeat}
use vortex_kv_cache.Resp.Reader.{read_value}
use vortex_kv_cache.Server.Args.{handle_ping}
use vortex_kv_cache.Replication.Steps.{here, next, told, dials}
use vortex_kv_cache.Replication.Monitors.{IsWatched}
use vortex_kv_cache.Replication.Conns.{IsHeld, Reach-IsWatched}
use vortex_kv_cache.Replication.Promotion.{next_monitor, failover_promotes}
use vortex_kv_cache.Replication.Stale.{old_monitor_promotes}
use vortex_kv_cache.Replication.EndToEnd.{
  Change, deleted, restored, commands, stream, first_sent, header, replay, alone, replica_replays,
}
use vortex_kv_cache.Tests.StoreTests.{W, hash, start}

-- a beat, then three failures
abbrev beats : List (Bool × ℤ)
beats = (true, pos 100) ∷ (false, pos 200) ∷ (false, pos 300) ∷ (false, pos 400) ∷ []

failover_promotes_example :
    is_read_only (
      run_monitor (next_monitor new_node) (ticks beats) (slave_of (bytes "h") (bytes "1") new_node))
    ≡ not (has_run 3 beats)
failover_promotes_example =
    failover_promotes (bytes "h") (bytes "1") new_node beats (unfold is_no_one in refl)

-- a node that follows a master, and one that is connected to it
abbrev replica : Node
replica = slave_of (bytes "h") (bytes "1") new_node

abbrev connected : Node
connected = dialed 0 replica

Reach-IsWatched_example : IsWatched connected × IsHeld connected
Reach-IsWatched_example = Reach-IsWatched (
    next (next here (told (bytes "h") (bytes "1") new_node)) (
      dials replica 0 (bytes "h:1")
        (unfold slave_of is_no_one become_replica new_replica_manager in refl)))

-- a monitor that missed two beats
abbrev late_monitor : FailoverMonitor
late_monitor = record (new_failover_monitor (default_failover_config (bytes "h:1"))) {
  missed_beats = 2;
}

abbrev late : Node
late = record replica {
  manager = record replica.manager { monitor = some 0 };
  monitors = late_monitor ∷ [];
}

old_monitor_promotes_example :
    (run_monitor 0 (tick false (pos 9) ∷ []) (slave_of (bytes "b") (bytes "2") late)).manager.role
    ≡ role_master
old_monitor_promotes_example =
    old_monitor_promotes (bytes "b") (bytes "2") late 0 late_monitor (pos 9)
      (unfold is_no_one in refl) refl refl
      (unfold new_failover_monitor default_failover_config in refl)

abbrev snapshot : List SnapshotEntry
snapshot = record { key = bytes "a"; value = bytes "1"; ttl = pos 0 } ∷ []

abbrev changes : List Change
changes = deleted (bytes "a") ∷ []

bulk : (b : Bytes) → length b ≤ 100 → IsFrame 100 100 (new_bulk_string_bytes (some b))
bulk b h = Frames.IsFrame.bulk b h (omega arith)

set-IsFrame :
    IsFrame 100 100 (new_array (slice (values (set_words (bytes "a") (some (bytes "1")) (pos 0)))))
unfolding set_words px_words new_bulk_string_from_string new_bulk_string new_bulk_string_bytes
set-IsFrame = Frames.IsFrame.array _ (omega arith) (omega arith) (
    more _ _ (bulk (bytes "SET") (omega arith))
      (more _ _ (bulk (bytes "a") (omega arith)) (more _ _ (bulk (bytes "1") (omega arith)) done)))

commands-IsFrame : All (IsFrame 100 100) (commands (restored snapshot ++ changes))
unfolding new_bulk_string_from_string new_bulk_string_bytes
commands-IsFrame = (
  set-IsFrame,
  (
    Frames.IsFrame.array _ (omega arith) (omega arith) (
        more _ _ (bulk (bytes "DEL") (omega arith))
          (more _ _ (bulk (bytes "a") (omega arith)) done)),
    tt,
  ),
)

replica_replays_example :
    sync_conn lru_policy W hash 100 100
      (alone lru_policy W hash 100 100 (λ i. pos 5) 0 0)
      0
      0
      true
      (pos 5)
      (write_value header
        ++ first_sent (stream (λ c. true) changes (register_replica (λ c. true) 7 snapshot [])))
      (connected, start, [])
    ≡ replay lru_policy W hash 100 100
        (λ i. pos 5)
        0
        0
        1
        (restored snapshot ++ changes)
        (acknowledge (pos 5) (greeted 0 0 (pos 5) connected), start, [])
replica_replays_example =
    replica_replays lru_policy W hash 100 100 (λ i. pos 5) 0 0 (λ c. true) 7 snapshot changes
      (pos 5) connected start [] refl
      (unfold dialed slave_of is_no_one become_replica new_replica_manager in refl)
      ((omega arith, omega arith), (tt, tt)) commands-IsFrame

-- a node answers its heartbeat
heartbeat_answered : check_heartbeat 100 100 true true (write_value (handle_ping [])) ≡ returns true
unfolding check_heartbeat read_value write_value handle_ping new_simple_string ◌≟◌
heartbeat_answered = refl
