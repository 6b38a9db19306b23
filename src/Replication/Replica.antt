-- ===== src/Replication/Replica.antt =====
-- internal/replication/replica.go: `applyMasterCommand`. Its calls of `strconv` and of the units of
-- time are those of the flags of `SET` in internal/server/handler.go.
use vortex_kv_cache.Base.{
  ℕ, if◌then◌else◌, none, some, ◌||◌, List, [], ◌∷◌, Bytes, bytes, ◌≟◌, to_upper, ◌==◌,
}
use vortex_kv_cache.Base.Int.{ℤ, pos, mul64}
use vortex_kv_cache.Eviction.{EvictionPolicy}
use vortex_kv_cache.Store
use vortex_kv_cache.Store.{Store, Outcome, returns, ◌>>=◌}
use vortex_kv_cache.Resp.Value.{Value, value, type_array}
use vortex_kv_cache.Resp.Decimal.{parse_int}
use vortex_kv_cache.Server.Args.{second, elements, extract_string, payload, flag_lifetime}

-- the loop over the flags, which reads a number again as a flag
unfoldable pub replica_flags : List Value → ℤ → ℤ
unfolding extract_string to_upper ◌≟◌ flag_lifetime
replica_flags [] ttl = ttl
replica_flags (arg ∷ []) ttl = ttl
replica_flags (arg ∷ num ∷ args) ttl =
    let flag = to_upper (extract_string arg) in
    let given : ℤ = elim (flag_lifetime (flag ≟ bytes "EX") (extract_string num)) [
      | none ↦ ttl
      | some d ↦ d
    ] in
    replica_flags (num ∷ args) (if (flag ≟ bytes "EX") || (flag ≟ bytes "PX") then given else ttl)

module _ (P : EvictionPolicy) (W : Type 0) (hash : Bytes → ℕ) (now : ℤ) where
  abbrev pub Applied : Type 0
  Applied = Outcome (Store P W × W)

  unfoldable pub apply_set : List Value → Store P W → W → Applied
  unfolding extract_string payload replica_flags Store.set
  apply_set (k ∷ v ∷ flags) s w = do
    r ← Store.set P W hash (extract_string k) (payload v) (replica_flags flags (pos 0)) now s w
    returns (r.0, r.1)
  apply_set _ s w = returns (s, w)

  unfoldable pub apply_del : List Value → Store P W → W → Applied
  unfolding extract_string Store.delete
  apply_del [] s w = returns (s, w)
  apply_del (k ∷ args) s w = do
    r ← Store.delete P W hash (extract_string k) s w
    apply_del args r.0 r.1

  unfoldable pub apply_expire : List Value → Store P W → W → Applied
  unfolding extract_string parse_int mul64 Store.expire
  apply_expire (k ∷ num ∷ []) s w = elim (parse_int (extract_string num)) [
    | none ↦ returns (s, w)
    | some sec ↦ do
      r ← Store.expire P W hash (extract_string k) (mul64 sec second) now s w
      returns (r.0, r.1)
  ]
  apply_expire _ s w = returns (s, w)

  unfoldable pub apply_words : List Value → Store P W → W → Applied
  unfolding extract_string to_upper ◌≟◌ apply_set apply_del apply_expire
  apply_words [] s w = returns (s, w)
  apply_words (name ∷ args) s w =
      let cmd_name = to_upper (extract_string name) in
      if cmd_name ≟ bytes "SET"
      then apply_set args s w
      else if cmd_name ≟ bytes "DEL"
      then apply_del args s w
      else if cmd_name ≟ bytes "EXPIRE"
      then apply_expire args s w
      else returns (s, w)

  unfoldable pub apply_master_command : Value → Store P W → W → Applied
  unfolding apply_words
  apply_master_command (value typ str num bulk array nil) s w =
      if typ == type_array then apply_words (elements array) s w else returns (s, w)
