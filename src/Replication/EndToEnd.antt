-- ===== src/Replication/EndToEnd.antt =====
-- What happens to the store of a master (internal/replication/master.go) happens to the store of a
-- replica (internal/replication/replica.go): the snapshot, and then the changes.
use Prim.Native.Nat.{◌+◌}
use vortex_kv_cache.Base.{
  ℕ, Bool, true, false, ◌≡◌, ◌∙◌, refl, ap, some, none, List, [], ◌∷◌, ◌++◌, Bytes, bytes, ◌≟◌, All,
  arith, append_assoc, append_nil, sym,
}
use vortex_kv_cache.Base.Int.{ℤ, pos, mul64, IsInt64}
use vortex_kv_cache.Eviction.{EvictionPolicy}
use vortex_kv_cache.Store
use vortex_kv_cache.Store.{Store, SnapshotEntry, WriteEvent, Outcome, panic, returns}
use vortex_kv_cache.Store.Operations.{outcome_cong}
use vortex_kv_cache.Resp.Value.{
  Value, slice, new_array, new_simple_string, new_bulk_string_from_string,
}
use vortex_kv_cache.Resp.Decimal.{format_int}
use vortex_kv_cache.Resp.Writer.{write_value, write_array, write_simple_string}
use vortex_kv_cache.Resp.Frames.{IsFrame}
use vortex_kv_cache.Resp.Frames
use vortex_kv_cache.Server.Args.{second, seconds}
use vortex_kv_cache.Server.Pipeline.{write_all}
use vortex_kv_cache.Replication.Master.{
  Replicas, values, set_words, event_words, broadcast, handle_store_write, snapshot_text,
  register_replica, unregister_replica,
}
use vortex_kv_cache.Replication.Replica.{apply_master_command}
use vortex_kv_cache.Replication.Stream.{whole_milliseconds, done, replica_follows}
use vortex_kv_cache.Replication.Manager.{Node}
use vortex_kv_cache.Replication.Sync.{
  Synced, disconnected, crashed, Rounds, acknowledge, disconnect, greeted, sync_conn,
}
use vortex_kv_cache.Replication.Following.{follow, sync_conn_follows}

-- a change of the store that its listeners are told of
pub data Change : Type 0 where
  written : Bytes → Bytes → ℤ → Change
  deleted : Bytes → Change
  expiring : Bytes → ℤ → Change

abbrev pub event : Change → WriteEvent
event (written key val ttl) = record {
  cmd_name = bytes "SET";
  key = key;
  val = some val;
  ttl = ttl;
}
event (deleted key) = record { cmd_name = bytes "DEL"; key = key; val = none; ttl = pos 0 }
event (expiring key ttl) = record { cmd_name = bytes "EXPIRE"; key = key; val = none; ttl = ttl }

-- the entries of a snapshot, as if they were written
abbrev pub restored : List SnapshotEntry → List Change
restored [] = []
restored (e ∷ es) = written e.key e.value e.ttl ∷ restored es

abbrev pub words : Change → List Value
words (written key val ttl) = set_words key (some val) ttl
words (deleted key) =
    new_bulk_string_from_string (bytes "DEL") ∷ new_bulk_string_from_string key ∷ []
words (expiring key ttl) =
    new_bulk_string_from_string (bytes "EXPIRE")
    ∷ new_bulk_string_from_string key
    ∷ new_bulk_string_from_string (format_int (seconds ttl))
    ∷ []

-- the commands that the master sends
abbrev pub commands : List Change → List Value
commands [] = []
commands (ch ∷ chs) = new_array (slice (values (words ch))) ∷ commands chs

-- the master after its store changed
abbrev pub stream : (ℕ → Bool) → List Change → Replicas → Replicas
stream works [] rs = rs
stream works (ch ∷ chs) rs = stream works chs (handle_store_write works (event ch) rs)

abbrev pub first_sent : Replicas → Bytes
first_sent [] = []
first_sent (r ∷ rs) = r.sent

abbrev pub header : Value
header = new_simple_string (bytes "FULLRESYNC 0000000000000000000000000000000000000000 0")

header-IsFrame : (bulk_limit array_limit : ℕ) → IsFrame bulk_limit array_limit header
unfolding new_simple_string
header-IsFrame bulk_limit array_limit = Frames.IsFrame.simple_string _ (ground arith)

words_lem : (ch : Change) → event_words (event ch) ≡ some (words ch)
unfolding event_words ◌≟◌
words_lem (written key val ttl) = refl
words_lem (deleted key) = refl
words_lem (expiring key ttl) = refl

stream_lem :
    (works : ℕ → Bool) (conn : ℕ) (chs : List Change) (sent : Bytes)
    → works conn ≡ true
    → first_sent (stream works chs (record { conn = conn; sent = sent } ∷ []))
      ≡ sent ++ write_all (commands chs)
unfolding handle_store_write broadcast
stream_lem works conn [] sent h = sym (append_nil sent)
stream_lem works conn (ch ∷ chs) sent h =
    rw (words_lem ch, handle_store_write, h)
      (stream_lem works conn chs (sent ++ write_value (new_array (slice (values (words ch))))) h
        ∙ append_assoc sent _ (write_all (commands chs)))

snapshot_lem : (es : List SnapshotEntry) → snapshot_text es ≡ write_all (commands (restored es))
unfolding snapshot_text write_value new_array
snapshot_lem [] = refl
snapshot_lem (e ∷ es) =
    ap (λ t. write_array (slice (values (set_words e.key (some e.value) e.ttl))) ++ t)
      (snapshot_lem es)

write_all-append :
    (es chs : List Change)
    → write_all (commands es) ++ write_all (commands chs) ≡ write_all (commands (es ++ chs))
write_all-append [] chs = refl
write_all-append (e ∷ es) chs =
    append_assoc _ (write_all (commands es)) (write_all (commands chs))
    ∙ ap (λ t. write_value (new_array (slice (values (words e)))) ++ t) (write_all-append es chs)

-- all that a replica is sent
sent_lem :
    (works : ℕ → Bool) (conn : ℕ) (es : List SnapshotEntry) (chs : List Change)
    → works conn ≡ true
    → first_sent (stream works chs (register_replica works conn es []))
      ≡ write_value header ++ write_all (commands (restored es ++ chs))
unfolding register_replica unregister_replica write_simple_string write_value new_simple_string
sent_lem works conn es chs h =
    let first = write_value header in
    rw (h, register_replica)
      (stream_lem works conn chs (first ++ snapshot_text es) h
        ∙ append_assoc first (snapshot_text es) (write_all (commands chs))
        ∙ ap (λ t. first ++ t)
            (ap (λ t. t ++ write_all (commands chs)) (snapshot_lem es)
              ∙ write_all-append (restored es) chs))

module _ (P : EvictionPolicy) (W : Type 0) (hash : Bytes → ℕ) (bulk_limit array_limit : ℕ)
    (now : ℕ → ℤ) (g c : ℕ) where
  -- what a replica makes of a change, at its round `i`
  abbrev pub carry_out : ℕ → Change → Store P W → W → Outcome (Store P W × W)
  carry_out i (written key val ttl) s w =
      done P W hash (now i) s w (Store.set P W hash key val (whole_milliseconds ttl) (now i) s w)
  carry_out i (deleted key) s w = done P W hash (now i) s w (Store.delete P W hash key s w)
  carry_out i (expiring key ttl) s w =
      done P W hash (now i) s w (Store.expire P W hash key (mul64 (seconds ttl) second) (now i) s w)

  -- the changes one after the other
  unfoldable pub replay : ℕ → List Change → Node × Store P W × W → Synced P W
  unfolding acknowledge disconnect Store.set Store.delete Store.expire
  replay i [] (n, s, w) = disconnected (disconnect g c n) s w
  replay i (ch ∷ chs) (n, s, w) =
      let next = replay (i + 1) chs in
      elim (carry_out i ch s w) [
        | panic ↦ crashed
        | returns (s', w') ↦ next (acknowledge (now i) n, s', w')
      ]

  abbrev pub HasInt64 : Change → Type 0
  HasInt64 (written key val ttl) = IsInt64 ttl
  HasInt64 (deleted key) = Unit
  HasInt64 (expiring key ttl) = IsInt64 ttl

  pub carry_out_lem :
      (i : ℕ) (ch : Change) (s : Store P W) (w : W)
      → HasInt64 ch
      → apply_master_command P W hash (now i) (new_array (slice (values (words ch)))) s w
        ≡ carry_out i ch s w
  unfolding event_words ◌≟◌
  carry_out_lem i (written key val ttl) s w h =
      (replica_follows P W hash (now i) s w key val ttl h).0
  carry_out_lem i (deleted key) s w h =
      (replica_follows P W hash (now i) s w key [] (pos 0) (omega arith, omega arith)).1
  carry_out_lem i (expiring key ttl) s w h = (replica_follows P W hash (now i) s w key [] ttl h).2

  -- nobody else uses the replica
  abbrev pub alone : Rounds P W
  alone = record { now = now; others = λ i state. state }

  follow-replay :
      (i : ℕ) (chs : List Change) (state : Node × Store P W × W)
      → All HasInt64 chs
      → follow P W hash bulk_limit array_limit alone g c i (commands chs) state ≡ replay i chs state
  unfolding follow replay
  follow-replay i [] state hs = refl
  follow-replay i (ch ∷ chs) (n, s, w) hs =
      rw (carry_out_lem i ch s w hs.0, follow)
        (outcome_cong (carry_out i ch s w) _ _ _ (λ a. follow-replay (i + 1) chs _ hs.1))

  -- the second header, which is no command
  follow-header :
      (cmds : List Value) (n : Node) (s : Store P W) (w : W)
      → follow P W hash bulk_limit array_limit alone g c 0 (header ∷ cmds) (n, s, w)
        ≡ follow P W hash bulk_limit array_limit alone g c 1 cmds (acknowledge (now 0) n, s, w)
  unfolding follow apply_master_command new_simple_string
  follow-header cmds n s w = refl

  -- Of a replica that nobody else uses and whose manager is not closed: what it reads on a
  -- connection on which the server answers `PSYNC`, and the master then sends a snapshot and the
  -- changes of its store, has the effect of writing the entries of the snapshot and of carrying
  -- out the changes, with the lifetimes of `SET` cut to milliseconds and those of `EXPIRE` to
  -- seconds, and of counting each of them and the second header as a command, provided that the
  -- lifetimes are int64 values, the commands are frames that the reader gets back, and the
  -- connection works.
  pub replica_replays :
      (works : ℕ → Bool) (conn : ℕ) (es : List SnapshotEntry) (chs : List Change) (first : ℤ)
      (n : Node) (s : Store P W) (w : W)
      → works conn ≡ true
      → n.manager.done ≡ false
      → All HasInt64 (restored es ++ chs)
      → All (IsFrame bulk_limit array_limit) (commands (restored es ++ chs))
      → sync_conn P W hash bulk_limit array_limit alone g c true first
          (write_value header ++ first_sent (stream works chs (register_replica works conn es [])))
          (n, s, w)
        ≡ replay 1 (restored es ++ chs) (acknowledge (now 0) (greeted g c first n), s, w)
  replica_replays works conn es chs first n s w h d hs fs =
      let f = header-IsFrame bulk_limit array_limit in
      let cmds = commands (restored es ++ chs) in
      rw (sent_lem works conn es chs h) (
        sync_conn_follows P W hash bulk_limit array_limit alone g c (λ i state k. k) header
          (header ∷ cmds) first n s w d f (f, fs)
        ∙ follow-header cmds (greeted g c first n) s w
        ∙ follow-replay 1 (restored es ++ chs) _ hs)
