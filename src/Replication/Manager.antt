-- ===== src/Replication/Manager.antt =====
-- internal/replication/replica.go: the replica manager, with what its pointers lead to: the failover
-- monitors and the connections that it made so far, and the goroutines of `connectAndSync` that it
-- started. A pointer is an index.
use vortex_kv_cache.Base.{
  ℕ, if◌then◌else◌, Option, none, some, Bool, true, false, ◌&&◌, List, [], ◌∷◌, ◌++◌, Bytes, bytes,
  ◌≟◌, to_upper, length, get_elem?, set, get_elem?-set_self, ◌≡◌,
}
use vortex_kv_cache.Base.Int.{ℤ, pos, ltb_ℤ, ◌-ℤ◌}
use vortex_kv_cache.Resp.Decimal.{format_int}
use vortex_kv_cache.Resp.Writer.{crlf}
use vortex_kv_cache.Server.Args.{seconds}
use vortex_kv_cache.Server.Dispatch.{Replication}
use vortex_kv_cache.Replication.Failover
use vortex_kv_cache.Replication.Failover.{
  FailoverMonitor, default_failover_config, new_failover_monitor,
}

pub data Role : Type 0 where
  role_master role_replica : Role

unfoldable pub role_text : Role → Bytes
role_text role_master = bytes "master"
role_text role_replica = bytes "slave"

-- `done` says that `ctx` is cancelled.
pub record ReplicaManager : Type 0 where
  pub role : Role
  pub master_addr : Bytes
  pub master_link_up : Bool
  pub master_offset : ℤ
  pub last_master_ack : ℤ
  pub done : Bool
  pub sync_conn : Option ℕ
  pub monitor : Option ℕ
  pub last_lag_duration : ℤ

unfoldable pub new_replica_manager : ReplicaManager
new_replica_manager = record {
  role = role_master;
  master_addr = [];
  master_link_up = false;
  master_offset = pos 0;
  last_master_ack = pos 0;
  done = false;
  sync_conn = none;
  monitor = none;
  last_lag_duration = pos 0;
}

-- A goroutine of `connectAndSync`: it dials an address, waits for the header of its connection,
-- reads commands from it, or has ended.
pub data Sync : Type 0 where
  dialing : Bytes → Sync
  greeting reading : ℕ → Sync
  over : Sync

-- `conns` says of each connection whether it is open.
pub record Node : Type 0 where
  pub manager : ReplicaManager
  pub monitors : List FailoverMonitor
  pub conns : List Bool
  pub syncs : List Sync

abbrev pub new_node : Node
unfolding new_replica_manager
new_node = record { manager = new_replica_manager; monitors = []; conns = []; syncs = [] }

abbrev pub modify {ℓ} : {A : Type ℓ} → (A → A) → ℕ → List A → List A
modify f i xs = elim (get_elem? xs i) [ none ↦ xs | some x ↦ set xs i (f x) ]

pub get-modify {ℓ} :
    {A : Type ℓ} (f : A → A) (i : ℕ) (xs : List A) (x : A)
    → get_elem? xs i ≡ some x
    → get_elem? (modify f i xs) i ≡ some (f x)
get-modify f i xs x e = rw (e, modify) (get_elem?-set_self xs i (f x) x e)

-- a call on a pointer that is not nil
abbrev pub at_pointer {ℓ} : {A : Type ℓ} → (A → A) → Option ℕ → List A → List A
at_pointer f none xs = xs
at_pointer f (some i) xs = modify f i xs

abbrev pub stop_monitor : Option ℕ → List FailoverMonitor → List FailoverMonitor
stop_monitor = at_pointer Failover.stop

abbrev pub close_conn : Option ℕ → List Bool → List Bool
close_conn = at_pointer (λ is_open. false)

unfoldable pub is_read_only : Node → Bool
is_read_only n = elim n.manager.role [ role_master ↦ false | role_replica ↦ true ]

unfoldable pub is_no_one : Bytes → Bytes → Bool
unfolding to_upper ◌≟◌
is_no_one host port = (to_upper host ≟ bytes "NO") && (to_upper port ≟ bytes "ONE")

-- `SLAVEOF NO ONE`
unfoldable pub become_master : Node → Node
unfolding Failover.stop
become_master n = record n {
  manager = record n.manager {
    role = role_master;
    master_addr = [];
    master_link_up = false;
    sync_conn = none;
    monitor = none;
  };
  monitors = stop_monitor n.manager.monitor n.monitors;
  conns = close_conn n.manager.sync_conn n.conns;
}

unfoldable pub become_replica : Bytes → Node → Node
unfolding Failover.stop Failover.start new_failover_monitor default_failover_config
become_replica master_addr n =
    let monitors = stop_monitor n.manager.monitor n.monitors in
    let monitor = Failover.start (new_failover_monitor (default_failover_config master_addr)) in
    record {
      manager = record n.manager {
        role = role_replica;
        master_addr = master_addr;
        master_link_up = false;
        monitor = some (length monitors);
      };
      monitors = monitors ++ (monitor ∷ []);
      conns = close_conn n.manager.sync_conn n.conns;
      syncs = n.syncs ++ (dialing master_addr ∷ []);
    }

unfoldable pub slave_of : Bytes → Bytes → Node → Node
unfolding is_no_one become_master become_replica
slave_of host port n =
    if is_no_one host port then become_master n else become_replica (host ++ bytes ":" ++ port) n

unfoldable pub info : ℤ → Node → Bytes
unfolding role_text format_int seconds ◌-ℤ◌
info now n =
    let m = n.manager in
    let lag =
      if ltb_ℤ (pos 0) m.last_master_ack then seconds (now -ℤ m.last_master_ack) else pos 0 in
    elim m.role [
      | role_master ↦
          bytes "role:"
          ++ role_text m.role
          ++ crlf
          ++ bytes "connected_slaves:0"
          ++ crlf
          ++ bytes "master_repl_offset:"
          ++ format_int m.master_offset
      | role_replica ↦
          bytes "role:"
          ++ role_text m.role
          ++ crlf
          ++ bytes "master_host:"
          ++ m.master_addr
          ++ crlf
          ++ bytes "master_link_status:"
          ++ (if m.master_link_up then bytes "up" else bytes "down")
          ++ crlf
          ++ bytes "master_last_io_seconds_ago:"
          ++ format_int lag
          ++ crlf
          ++ bytes "slave_repl_offset:"
          ++ format_int m.master_offset
    ]

unfoldable pub close : Node → Node
unfolding Failover.stop
close n = record n {
  manager = record n.manager { done = true };
  monitors = stop_monitor n.manager.monitor n.monitors;
  conns = close_conn n.manager.sync_conn n.conns;
}

-- what the command handler calls; `SlaveOf` never fails
abbrev pub replication : Replication Node
replication = record {
  is_read_only = is_read_only;
  slave_of = λ host port n. (slave_of host port n, none);
  info = info;
}
