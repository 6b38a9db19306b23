-- ===== src/Replication/Sync.antt =====
-- internal/replication/replica.go: `connectAndSync`, its parts between which other goroutines may
-- run, and its loop on all the bytes that the master sends before the connection ends.
use Prim.Native.Nat.{◌+◌}
use vortex_kv_cache.Base.{
  ℕ, zero, suc, if◌then◌else◌, some, Bool, true, false, [], ◌∷◌, ◌++◌, Bytes, bytes, length, set,
}
use vortex_kv_cache.Base.Int.{ℤ, pos, ◌+ℤ◌, wrap}
use vortex_kv_cache.Eviction.{EvictionPolicy}
use vortex_kv_cache.Store.{Store, panic, returns}
use vortex_kv_cache.Resp.Value.{slice, end, cons, new_bulk_string_from_string}
use vortex_kv_cache.Resp.Writer.{write_array}
use vortex_kv_cache.Resp.Reader.{ok, fail, panics, no_fuel, read_value}
use vortex_kv_cache.Replication.Replica.{apply_master_command}
use vortex_kv_cache.Replication.Manager.{Node, greeting, reading, over, close_conn}

-- Goroutine `g` ends before it has a connection.
unfoldable pub dial_failed : ℕ → Node → Node
dial_failed g n = record n { syncs = set n.syncs g over }

-- Goroutine `g` has a connection, whoever the node follows by now.
unfoldable pub dialed : ℕ → Node → Node
dialed g n =
    let c = length n.conns in
    record n {
      manager = record n.manager { sync_conn = some c; master_link_up = true };
      conns = n.conns ++ (true ∷ []);
      syncs = set n.syncs g (greeting c);
    }

-- the deferred function, at connection `c`
unfoldable pub disconnect : ℕ → ℕ → Node → Node
disconnect g c n = record n {
  manager = record n.manager { master_link_up = false };
  conns = close_conn (some c) n.conns;
  syncs = set n.syncs g over;
}

-- what is sent to the master
unfoldable pub psync_command : Bytes
unfolding write_array new_bulk_string_from_string
psync_command = write_array (
    slice (
      cons (new_bulk_string_from_string (bytes "PSYNC")) (
        cons (new_bulk_string_from_string (bytes "?"))
          (cons (new_bulk_string_from_string (bytes "-1")) end))))

-- the header has come
unfoldable pub greeted : ℕ → ℕ → ℤ → Node → Node
greeted g c now n = record n {
  manager = record n.manager { last_master_ack = now };
  syncs = set n.syncs g (reading c);
}

-- what the loop keeps of a command
unfoldable pub acknowledge : ℤ → Node → Node
unfolding ◌+ℤ◌ wrap
acknowledge now n = record n {
  manager = record n.manager {
    last_master_ack = now;
    master_offset = wrap (n.manager.master_offset +ℤ pos 1);
  };
}

-- what the loop ends with, when it ends without a panic
pub data Synced (P : EvictionPolicy) (W : Type 0) : Type 0 where
  disconnected : Node → Store P W → W → Synced P W
  crashed out_of_fuel : Synced P W

-- What goroutine `g` meets: the time at its round `i`, and what the other goroutines did before it.
pub record Rounds (P : EvictionPolicy) (W : Type 0) : Type 0 where
  pub now : ℕ → ℤ
  pub others : ℕ → Node × Store P W × W → Node × Store P W × W

module _ (P : EvictionPolicy) (W : Type 0) (hash : Bytes → ℕ) (bulk_limit array_limit : ℕ)
    (rounds : Rounds P W) (g c : ℕ) where
  unfoldable pub sync_rounds : ℕ → ℕ → Bytes → Node × Store P W × W → Synced P W
  unfolding read_value acknowledge apply_master_command disconnect
  sync_rounds zero i input state = out_of_fuel
  sync_rounds (suc fuel) i input state =
      let (n, s, w) = rounds.others i state in
      let next = sync_rounds fuel (i + 1) in
      let now = rounds.now i in
      if n.manager.done
      then disconnected (disconnect g c n) s w
      else elim (read_value bulk_limit array_limit input) [
        | ok cmd rest ↦ elim (apply_master_command P W hash now cmd s w) [
          | panic ↦ crashed
          | returns (s', w') ↦ next rest (acknowledge now n, s', w')
        ]
        | fail e ↦ disconnected (disconnect g c n) s w
        | panics ↦ crashed
        | no_fuel ↦ out_of_fuel
      ]

  -- `connectAndSync` behind the dialing, at connection `c`: the value of the header is not looked
  -- at, and `sent` says whether the first command is sent.
  unfoldable pub sync_conn : Bool → ℤ → Bytes → Node × Store P W × W → Synced P W
  unfolding read_value greeted disconnect sync_rounds
  sync_conn sent now input (n, s, w) =
      if sent
      then elim (read_value bulk_limit array_limit input) [
        | ok header rest ↦ sync_rounds (suc (length rest)) 0 rest (greeted g c now n, s, w)
        | fail e ↦ disconnected (disconnect g c n) s w
        | panics ↦ crashed
        | no_fuel ↦ out_of_fuel
      ]
      else disconnected (disconnect g c n) s w
