-- ===== src/Server/Handler.antt =====
-- internal/server/handler.go. A handler is a function of the store and of the state `W` that the
-- write listeners and the replication change; `clock i` is the reading of the clock that the store
-- or the replica manager makes at the call `i` within one command.
use Prim.Native.Nat.{◌+◌}
use vortex_kv_cache.Base.{ℕ, if◌then◌else◌, none, some, List, [], ◌∷◌, Bytes, bytes}
use vortex_kv_cache.Base.Int.{ℤ, pos, mul64}
use vortex_kv_cache.Eviction.{EvictionPolicy}
use vortex_kv_cache.Store
use vortex_kv_cache.Store.{Store, Outcome, panic, returns, ◌>>=◌, millisecond}
use vortex_kv_cache.Resp.Value.{
  Value, new_simple_string, new_error, new_integer, new_null_bulk_string, new_bulk_string,
}
use vortex_kv_cache.Resp.Decimal.{parse_int}
use vortex_kv_cache.Server.Args.{
  second, extract_string, wrong_number, refused, lifetime, set_flags, payload, range_error,
  ttl_reply,
}

module _ (P : EvictionPolicy) (W : Type 0) (hash : Bytes → ℕ) (clock : ℕ → ℤ) where
  abbrev pub Reply : Type 0
  Reply = Outcome (Store P W × W × Value)

  unfoldable pub handle_get : List Value → Store P W → W → Reply
  unfolding extract_string Store.get new_null_bulk_string new_bulk_string
  handle_get (arg ∷ []) s w = do
    (s', val) ← Store.get P W hash (extract_string arg) (clock 0) s
    returns (s', w, elim val [ none ↦ new_null_bulk_string | some b ↦ new_bulk_string (some b) ])
  handle_get _ s w = returns (s, w, wrong_number (bytes "get"))

  -- `SET` behind its test of the replica
  unfoldable pub set_args : List Value → Store P W → W → Reply
  unfolding extract_string payload set_flags Store.set new_error new_simple_string
  set_args (k ∷ v ∷ flags) s w = elim (set_flags flags (pos 0)) [
    | refused text ↦ returns (s, w, new_error text)
    | lifetime ttl ↦ do
      (s', w', stored) ← Store.set P W hash (extract_string k) (payload v) ttl (clock 0) s w
      returns (
        s',
        w',
        if stored then new_simple_string (bytes "OK") else new_error (bytes "ERR store is closed"),
      )
  ]
  set_args _ s w = returns (s, w, wrong_number (bytes "set"))

  -- the loop of `DEL`
  unfoldable pub delete_all : List Value → ℕ → Store P W → W → Outcome (Store P W × W × ℕ)
  unfolding extract_string Store.delete
  delete_all [] count s w = returns (s, w, count)
  delete_all (arg ∷ args) count s w = do
    (s', w', deleted) ← Store.delete P W hash (extract_string arg) s w
    delete_all args (if deleted then count + 1 else count) s' w'

  -- `DEL` behind its test of the replica
  unfoldable pub del_args : List Value → Store P W → W → Reply
  unfolding delete_all new_integer
  del_args [] s w = returns (s, w, wrong_number (bytes "del"))
  del_args (arg ∷ args) s w = do
    (s', w', count) ← delete_all (arg ∷ args) 0 s w
    returns (s', w', new_integer (pos count))

  -- the loop of `EXISTS`, at its argument `i`
  unfoldable pub exists_all : List Value → ℕ → ℕ → Store P W → Outcome (Store P W × ℕ)
  unfolding extract_string Store.exists
  exists_all [] i count s = returns (s, count)
  exists_all (arg ∷ args) i count s = do
    (s', found) ← Store.exists P W hash (extract_string arg) (clock i) s
    exists_all args (i + 1) (if found then count + 1 else count) s'

  unfoldable pub handle_exists : List Value → Store P W → W → Reply
  unfolding exists_all new_integer
  handle_exists [] s w = returns (s, w, wrong_number (bytes "exists"))
  handle_exists (arg ∷ args) s w = do
    (s', count) ← exists_all (arg ∷ args) 0 0 s
    returns (s', w, new_integer (pos count))

  -- `EXPIRE` behind its test of the replica
  unfoldable pub expire_args : List Value → Store P W → W → Reply
  unfolding extract_string parse_int mul64 Store.expire new_integer
  expire_args (k ∷ num ∷ []) s w = elim (parse_int (extract_string num)) [
    | none ↦ returns (s, w, range_error)
    | some n ↦ do
      (s', w', updated) ← Store.expire P W hash (extract_string k) (mul64 n second) (clock 0) s w
      returns (s', w', new_integer (if updated then pos 1 else pos 0))
  ]
  expire_args _ s w = returns (s, w, wrong_number (bytes "expire"))

  unfoldable pub handle_ttl : List Value → Store P W → W → Reply
  unfolding extract_string Store.ttl ttl_reply
  handle_ttl (k ∷ []) s w = do
    (s', remaining, found) ← Store.ttl P W hash (extract_string k) (clock 0) s
    returns (s', w, ttl_reply remaining found)
  handle_ttl _ s w = returns (s, w, wrong_number (bytes "ttl"))
