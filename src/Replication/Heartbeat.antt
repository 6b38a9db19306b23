-- ===== src/Replication/Heartbeat.antt =====
-- internal/replication/failover.go: the check of a heartbeat on the wire, and the goroutine of a
-- monitor with the promotion that it triggers.
use vortex_kv_cache.Base.{
  ℕ, if◌then◌else◌, none, some, Bool, false, ◌||◌, not, List, Bytes, bytes, ◌≟◌, get_elem?, set,
}
use vortex_kv_cache.Store.{Outcome, panic, returns}
use vortex_kv_cache.Resp.Value.{Value, value, slice, end, cons, new_bulk_string_from_string}
use vortex_kv_cache.Resp.Writer.{write_array}
use vortex_kv_cache.Resp.Reader.{ok, fail, panics, no_fuel, read_value}
use vortex_kv_cache.Replication.Failover.{Round, monitor_loop}
use vortex_kv_cache.Replication.Manager.{Node, slave_of}

-- what is sent to the master
unfoldable pub ping_command : Bytes
unfolding write_array new_bulk_string_from_string
ping_command = write_array (slice (cons (new_bulk_string_from_string (bytes "PING")) end))

abbrev pub is_pong : Value → Bool
unfolding ◌≟◌
is_pong (value typ str num bulk array nil) =
    (str ≟ bytes "PONG") || (elim bulk [ none ↦ false | some b ↦ b ≟ bytes "PONG" ])

-- Whether the heartbeat is there: `connected` and `sent` say whether the connection is made and the
-- command sent, and `input` is what comes back in time.
unfoldable pub check_heartbeat : ℕ → ℕ → Bool → Bool → Bytes → Outcome Bool
unfolding read_value ◌≟◌
check_heartbeat bulk_limit array_limit connected sent input =
    if not connected
    then returns false
    else if not sent
    then returns false
    else elim (read_value bulk_limit array_limit input) [
      | ok val rest ↦ returns (is_pong val)
      | fail e ↦ returns false
      | panics ↦ panic
      | no_fuel ↦ returns false
    ]

-- Rounds of the loop of monitor `i`; where it triggers the failover, it promotes the node.
unfoldable pub run_monitor : ℕ → List Round → Node → Node
unfolding monitor_loop slave_of
run_monitor i rounds n = elim (get_elem? n.monitors i) [
  | none ↦ n
  | some m ↦
      let (m', triggered) = monitor_loop rounds m in
      let n' : Node = record n { monitors = set n.monitors i m' } in
      if triggered then slave_of (bytes "NO") (bytes "ONE") n' else n'
]
