-- ===== src/Replication/Master.antt =====
-- internal/replication/master.go. A connection is a number, `sent` the bytes that went to it;
-- `works c` says whether the writes to the connection `c` succeed.
use vortex_kv_cache.Base.{
  ℕ, ◌==◌, if◌then◌else◌, Option, none, some, Bool, ◌&&◌, List, [], ◌∷◌, ◌++◌, Bytes, bytes, ◌≟◌,
  length,
}
use vortex_kv_cache.Base.Int.{ℤ, pos, ltb_ℤ, div_ℤ}
use vortex_kv_cache.Store.{SnapshotEntry, WriteEvent}
use vortex_kv_cache.Resp.Value.{
  Value, Values, slice, end, cons, new_array, new_bulk_string, new_bulk_string_from_string,
}
use vortex_kv_cache.Resp.Decimal.{format_int}
use vortex_kv_cache.Resp.Writer.{write_value, write_simple_string, write_array}
use vortex_kv_cache.Server.Args.{seconds}

pub record Replica : Type 0 where
  pub conn : ℕ
  pub sent : Bytes

-- the map `replicas`
abbrev pub Replicas : Type 0
Replicas = List Replica

abbrev pub values : List Value → Values
values [] = end
values (v ∷ vs) = cons v (values vs)

-- the words `PX` and the milliseconds of a lifetime of at least one
unfoldable pub px_words : ℤ → List Value
unfolding new_bulk_string_from_string format_int div_ℤ
px_words ttl =
    if ltb_ℤ (pos 0) ttl && ltb_ℤ (pos 0) (div_ℤ ttl 1_000_000)
    then new_bulk_string_from_string (bytes "PX")
      ∷ new_bulk_string_from_string (format_int (div_ℤ ttl 1_000_000))
      ∷ []
    else []

unfoldable pub set_words : Bytes → Option Bytes → ℤ → List Value
unfolding new_bulk_string_from_string new_bulk_string px_words
set_words key val ttl =
    new_bulk_string_from_string (bytes "SET")
    ∷ new_bulk_string_from_string key
    ∷ new_bulk_string val
    ∷ px_words ttl

-- the command for an event; `none` is the default case
unfoldable pub event_words : WriteEvent → Option (List Value)
unfolding ◌≟◌ set_words new_bulk_string_from_string format_int seconds
event_words e =
    if e.cmd_name ≟ bytes "SET"
    then some (set_words e.key e.val e.ttl)
    else if e.cmd_name ≟ bytes "DEL"
    then some (new_bulk_string_from_string (bytes "DEL") ∷ new_bulk_string_from_string e.key ∷ [])
    else if e.cmd_name ≟ bytes "EXPIRE"
    then some (
        new_bulk_string_from_string (bytes "EXPIRE")
        ∷ new_bulk_string_from_string e.key
        ∷ new_bulk_string_from_string (format_int (seconds e.ttl))
        ∷ [])
    else none

unfoldable pub unregister_replica : ℕ → Replicas → Replicas
unregister_replica conn [] = []
unregister_replica conn (r ∷ rs) =
    let rest = unregister_replica conn rs in if r.conn == conn then rest else r ∷ rest

-- The loop over the connections. In Go a connection that fails is dropped soon afterwards.
unfoldable pub broadcast : (ℕ → Bool) → Bytes → Replicas → Replicas
broadcast works text [] = []
broadcast works text (r ∷ rs) =
    let rest = broadcast works text rs in
    if works r.conn then record r { sent = r.sent ++ text } ∷ rest else rest

unfoldable pub handle_store_write : (ℕ → Bool) → WriteEvent → Replicas → Replicas
unfolding event_words broadcast write_value new_array
handle_store_write works e rs = elim (event_words e) [
  | none ↦ rs
  | some words ↦ broadcast works (write_value (new_array (slice (values words)))) rs
]

-- the loop over the snapshot
unfoldable pub snapshot_text : List SnapshotEntry → Bytes
unfolding write_array set_words
snapshot_text [] = []
snapshot_text (e ∷ es) =
    write_array (slice (values (set_words e.key (some e.value) e.ttl))) ++ snapshot_text es

-- a connection that is there already is replaced
unfoldable pub register_replica : (ℕ → Bool) → ℕ → List SnapshotEntry → Replicas → Replicas
unfolding write_simple_string snapshot_text unregister_replica
register_replica works conn snapshot rs =
    if works conn
    then record {
      conn = conn;
      sent =
          write_simple_string (bytes "FULLRESYNC 0000000000000000000000000000000000000000 0")
          ++ snapshot_text snapshot;
    }
      ∷ unregister_replica conn rs
    else rs

abbrev pub connected_replicas : Replicas → ℕ
connected_replicas = length
