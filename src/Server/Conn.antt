-- ===== src/Server/Conn.antt =====
-- internal/server/server.go: the loop of `handleConn`, on all the bytes that the client sends
-- before it ends the connection.
use Prim.Native.Nat.{◌+◌, ◌*◌, ◌/◌}
use vortex_kv_cache.Base.{
  ℕ, zero, suc, ◌-◌, ltb, if◌then◌else◌, Option, Bool, [], ◌∷◌, ◌++◌, Bytes, bytes, length,
}
use vortex_kv_cache.Base.Int.{ℤ}
use vortex_kv_cache.Eviction.{EvictionPolicy}
use vortex_kv_cache.Store.{Store, panic, returns}
use vortex_kv_cache.Resp.Writer.{write_value, write_error}
use vortex_kv_cache.Resp.Reader.{
  ReadError, eof, unexpected_eof, unterminated, invalid_syntax, unknown_prefix, ok, fail, panics,
  no_fuel, read_value,
}
use vortex_kv_cache.Server.Dispatch.{Replication, Process, dispatch}

-- `%c` of a byte: the encoding of the character with that number
abbrev pub character : ℕ → Bytes
character c = if ltb c 128 then c ∷ [] else (192 + c / 64) ∷ (128 + (c - c / 64 * 64)) ∷ []

-- `%v` of an error of the reader
unfoldable pub error_text : ReadError → Bytes
error_text eof = bytes "EOF"
error_text unexpected_eof = bytes "unexpected EOF"
error_text unterminated = bytes "ERR unterminated RESP line"
error_text (invalid_syntax what) = bytes "ERR invalid RESP syntax: " ++ what
error_text (unknown_prefix c) =
    bytes "ERR invalid RESP syntax: unknown prefix '" ++ character c ++ bytes "'"

-- What a connection leaves: the store and the state of the listeners when it is closed, and the
-- bytes that its loop sent; or a panic, which ends the process. After `PSYNC` the goroutine of
-- `RegisterReplica` and the listener of the store send on the connection too: these bytes are in the
-- state of the listeners.
pub data Session (P : EvictionPolicy) (W : Type 0) : Type 0 where
  closed : Store P W → W → Bytes → Session P W
  crashed : Bytes → Session P W
  out_of_fuel : Session P W

abbrev pub send : {P : EvictionPolicy} {W : Type 0} → Bytes → Session P W → Session P W
send out (closed s w more) = closed s w (out ++ more)
send out (crashed more) = crashed (out ++ more)
send out out_of_fuel = out_of_fuel

-- an error of the reader: at the end of the bytes nothing is sent
unfoldable pub refuse : {P : EvictionPolicy} {W : Type 0} → ReadError → Store P W → W → Session P W
unfolding write_error error_text
refuse eof s w = closed s w []
refuse e s w = closed s w (write_error (bytes "ERR " ++ error_text e))

-- What the loop meets at its round `i`: whether the server is being closed, what the other
-- goroutines did to the store since the last round, whether the reply is sent without an error,
-- and the readings of the clock.
pub record Rounds (P : EvictionPolicy) (W : Type 0) : Type 0 where
  pub done : ℕ → Bool
  pub others : ℕ → Store P W × W → Store P W × W
  pub sent : ℕ → Bool
  pub clock : ℕ → ℕ → ℤ

module _ (P : EvictionPolicy) (W : Type 0) (hash : Bytes → ℕ) (bulk_limit array_limit : ℕ)
    (repl : Option (Replication W)) (register : Option (ℤ → Store P W → W → W)) (process : Process)
    (rounds : Rounds P W) where
  unfoldable pub handle_rounds : ℕ → ℕ → Bytes → Store P W × W → Session P W
  unfolding read_value dispatch write_value refuse
  handle_rounds zero i input state = out_of_fuel
  handle_rounds (suc fuel) i input state =
      let (s, w) = rounds.others i state in
      let next = handle_rounds fuel (i + 1) in
      if rounds.done i then closed s w [] else elim (read_value bulk_limit array_limit input) [
        | ok cmd rest ↦ elim (dispatch P W hash (rounds.clock i) repl register process cmd s w) [
          | panic ↦ crashed []
          | returns (s', w', reply) ↦
              send (write_value reply)
                (if rounds.sent i then next rest (s', w') else closed s' w' [])
        ]
        | fail e ↦ refuse e s w
        | panics ↦ crashed []
        | no_fuel ↦ out_of_fuel
      ]

  -- A command takes a byte at least, so the loop makes at most a round more than there are bytes.
  unfoldable pub handle_conn : Bytes → Store P W × W → Session P W
  unfolding handle_rounds
  handle_conn input state = handle_rounds (suc (length input)) 0 input state
