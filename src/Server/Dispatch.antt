-- ===== src/Server/Dispatch.antt =====
-- internal/server/handler.go: the handlers that ask the replication, and `Dispatch`.
use vortex_kv_cache.Base.{
  ℕ, ◌==◌, if◌then◌else◌, Option, none, some, Bool, false, ◌||◌, List, [], ◌∷◌, ◌++◌, Bytes, bytes,
  ◌≟◌, to_upper,
}
use vortex_kv_cache.Base.Int.{ℤ}
use vortex_kv_cache.Eviction.{EvictionPolicy}
use vortex_kv_cache.Store
use vortex_kv_cache.Store.{Store, Outcome, panic, returns, ◌>>=◌, millisecond}
use vortex_kv_cache.Resp.Value.{
  Value, value, type_array, new_simple_string, new_error, new_bulk_string_from_string,
}
use vortex_kv_cache.Resp.Decimal.{format_int, format_nat}
use vortex_kv_cache.Resp.Writer.{crlf}
use vortex_kv_cache.Server.Args.{
  elements, extract_string, wrong_number, handle_ping, read_only_error,
}
use vortex_kv_cache.Server.Handler.{
  Reply, handle_get, set_args, del_args, handle_exists, expire_args, handle_ttl,
}

-- What a handler calls of internal/replication: `IsReadOnly`, `SlaveOf` with the text of its error,
-- and `Info` of the replica manager at a reading of the clock.
pub record Replication (W : Type 0) : Type 0 where
  pub is_read_only : W → Bool
  pub slave_of : Bytes → Bytes → W → W × Option Bytes
  pub info : ℤ → W → Bytes

-- what `INFO` reports of the process
pub record Process : Type 0 where
  pub go_version : Bytes
  pub process_id : ℕ
  pub uptime : ℤ

module _ (P : EvictionPolicy) (W : Type 0) (hash : Bytes → ℕ) (clock : ℕ → ℤ)
    (repl : Option (Replication W)) (register : Option (ℤ → Store P W → W → W))
    (process : Process) where
  -- `h.repl != nil && h.repl.IsReadOnly()`
  abbrev pub read_only : W → Bool
  read_only w = elim repl [ none ↦ false | some r ↦ r.is_read_only w ]

  unfoldable pub handle_set : List Value → Store P W → W → Reply P W hash clock
  unfolding set_args
  handle_set args s w =
      if read_only w then returns (s, w, read_only_error) else set_args P W hash clock args s w

  unfoldable pub handle_del : List Value → Store P W → W → Reply P W hash clock
  unfolding del_args
  handle_del args s w =
      if read_only w then returns (s, w, read_only_error) else del_args P W hash clock args s w

  unfoldable pub handle_expire : List Value → Store P W → W → Reply P W hash clock
  unfolding expire_args
  handle_expire args s w =
      if read_only w then returns (s, w, read_only_error) else expire_args P W hash clock args s w

  -- without a replica manager the call panics
  unfoldable pub handle_slave_of : List Value → Store P W → W → Reply P W hash clock
  unfolding extract_string new_error new_simple_string
  handle_slave_of (host ∷ port ∷ []) s w = elim repl [
    | none ↦ panic
    | some r ↦
        let (w', failed) = r.slave_of (extract_string host) (extract_string port) w in
        returns (
          s,
          w',
          elim failed [
            | none ↦ new_simple_string (bytes "OK")
            | some text ↦ new_error (bytes "ERR " ++ text)
          ],
        )
  ]
  handle_slave_of _ s w = returns (s, w, wrong_number (bytes "slaveof"))

  -- `register` is `RegisterReplica` of the master on the connection, if there are both: with the
  -- reading of the clock and the store it takes its snapshot, and what it sends on the connection
  -- is part of the state that it leaves. In Go it runs beside the reply.
  unfoldable pub handle_psync : List Value → Store P W → W → Reply P W hash clock
  unfolding new_simple_string
  handle_psync args s w =
      let w' : W = elim register [ none ↦ w | some f ↦ f (clock 0) s w ] in
      returns
        (s, w', new_simple_string (bytes "FULLRESYNC 0000000000000000000000000000000000000000 0"))

  abbrev line : Bytes → Bytes
  line text = text ++ crlf

  -- `Store.Stats`
  unfoldable pub stats : ℤ → Store P W → Bytes
  unfolding Store.len format_int format_nat
  stats now s =
      bytes "Shards: "
      ++ format_int s.cfg.shard_count
      ++ bytes ", MaxKeysPerShard: "
      ++ format_int s.cfg.max_keys_per_shard
      ++ bytes ", Keys: "
      ++ format_nat (Store.len P W now s)

  -- the text of `INFO`
  unfoldable pub info_text : Store P W → W → Bytes
  unfolding stats Store.len format_int format_nat
  info_text s w =
      let keys_count = Store.len P W (clock 0) s in
      let repl_info : Bytes = elim repl [ none ↦ [] | some r ↦ r.info (clock 1) w ] in
      line (bytes "# Server")
      ++ line (bytes "vortex_version:0.1.0")
      ++ line (bytes "go_version:" ++ process.go_version)
      ++ line (bytes "process_id:" ++ format_nat process.process_id)
      ++ line (bytes "uptime_in_seconds:" ++ format_int process.uptime)
      ++ line []
      ++ line (bytes "# Replication")
      ++ line repl_info
      ++ line []
      ++ line (bytes "# Keyspace")
      ++ line (stats (clock 2) s)
      ++ line (bytes "db0:keys=" ++ format_nat keys_count ++ bytes ",expires=0")

  unfoldable pub handle_info : List Value → Store P W → W → Reply P W hash clock
  unfolding info_text new_bulk_string_from_string
  handle_info args s w = returns (s, w, new_bulk_string_from_string (info_text s w))

  -- the cases of `Dispatch`
  unfoldable pub run_command : Bytes → List Value → Store P W → W → Reply P W hash clock
  unfolding ◌≟◌ handle_ping handle_get handle_set handle_del handle_exists handle_expire handle_ttl
      handle_info handle_slave_of handle_psync new_error
  run_command name args s w =
      if name ≟ bytes "PING"
      then returns (s, w, handle_ping args)
      else if name ≟ bytes "GET"
      then handle_get P W hash clock args s w
      else if name ≟ bytes "SET"
      then handle_set args s w
      else if name ≟ bytes "DEL"
      then handle_del args s w
      else if name ≟ bytes "EXISTS"
      then handle_exists P W hash clock args s w
      else if name ≟ bytes "EXPIRE"
      then handle_expire args s w
      else if name ≟ bytes "TTL"
      then handle_ttl P W hash clock args s w
      else if name ≟ bytes "INFO"
      then handle_info args s w
      else if (name ≟ bytes "SLAVEOF") || (name ≟ bytes "REPLICATEOF")
      then handle_slave_of args s w
      else if (name ≟ bytes "PSYNC") || (name ≟ bytes "SYNC")
      then handle_psync args s w
      else returns (s, w, new_error (bytes "ERR unknown command '" ++ name ++ bytes "'"))

  unfoldable pub run_words : List Value → Store P W → W → Reply P W hash clock
  unfolding to_upper extract_string run_command new_error
  run_words [] s w = returns (s, w, new_error (bytes "ERR invalid command format"))
  run_words (name ∷ args) s w = run_command (to_upper (extract_string name)) args s w

  unfoldable pub dispatch : Value → Store P W → W → Reply P W hash clock
  unfolding run_words new_error
  dispatch (value typ str num bulk array nil) s w =
      if typ == type_array
      then run_words (elements array) s w
      else returns (s, w, new_error (bytes "ERR invalid command format"))
