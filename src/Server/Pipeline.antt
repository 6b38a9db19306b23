-- ===== src/Server/Pipeline.antt =====
-- internal/server/server.go: `handleConn` and the commands that a client sends without waiting for
-- the replies.
use Prim.Native.Nat.{◌+◌}
use vortex_kv_cache.Base.{
  ℕ, zero, suc, ◌<◌, leb, Option, none, true, false, ◌≡◌, List, [], ◌∷◌, ◌++◌, Bytes, length, take,
  All, arith, length-append,
}
use vortex_kv_cache.Base.Int.{ℤ}
use vortex_kv_cache.Eviction.{EvictionPolicy}
use vortex_kv_cache.Store.{Store, panic, returns}
use vortex_kv_cache.Store.Operations.{outcome_cong}
use vortex_kv_cache.Resp.Value.{Value}
use vortex_kv_cache.Resp.Writer.{write_value}
use vortex_kv_cache.Resp.Frames.{IsFrame}
use vortex_kv_cache.Resp.RoundTrip.{read-write, write_value-pos}
use vortex_kv_cache.Server.Dispatch.{Replication, Process, dispatch}
use vortex_kv_cache.Server.Registration.{asks_sync, dispatch-other}
use vortex_kv_cache.Server.Conn.{
  Session, closed, crashed, send, Rounds, refuse, handle_rounds, handle_conn,
}

-- the bytes of a sequence of commands
abbrev pub write_all : List Value → Bytes
write_all [] = []
write_all (c ∷ cs) = write_value c ++ write_all cs

module _ (P : EvictionPolicy) (W : Type 0) (hash : Bytes → ℕ) (bulk_limit array_limit : ℕ)
    (repl : Option (Replication W)) (process : Process) (rounds : Rounds P W) where
  -- The commands one after the other, without their bytes and without a master that takes replicas:
  -- each is answered on the store that the one before it and the other goroutines left.
  unfoldable pub answer : ℕ → List Value → Store P W × W → Session P W
  unfolding dispatch write_value
  answer i [] state = let (s, w) = rounds.others i state in closed s w []
  answer i (cmd ∷ cmds) state =
      let (s, w) = rounds.others i state in
      let next = answer (i + 1) cmds in
      elim (dispatch P W hash (rounds.clock i) repl none process cmd s w) [
        | panic ↦ crashed []
        | returns (s', w', reply) ↦ send (write_value reply) (next (s', w'))
      ]

  module _ (n : ℕ) (ends : (i : ℕ) → rounds.done i ≡ leb n i)
      (sends : (i : ℕ) → rounds.sent i ≡ true) (register : Option (ℤ → Store P W → W → W)) where
    rounds_lem :
        (fuel i m : ℕ) (cmds : List Value) (state : Store P W × W)
        → i + m ≡ n
        → All (IsFrame bulk_limit array_limit) cmds
        → All (λ cmd. asks_sync cmd ≡ false) cmds
        → length (write_all cmds) < fuel
        → handle_rounds P W hash bulk_limit array_limit repl register process rounds fuel i
            (write_all cmds)
            state
          ≡ answer i (take m cmds) state
    unfolding handle_rounds refuse answer
    rounds_lem zero i m cmds state e fs qs h = absurd (omega arith)
    rounds_lem (suc fuel) i zero cmds state e fs qs h =
        let stop : leb n i ≡ true = ground arith in rw (ends i, stop)
    rounds_lem (suc fuel) i (suc m) [] state e fs qs h =
        let go : leb n i ≡ false = ground arith in rw (ends i, go)
    rounds_lem (suc fuel) i (suc m) (cmd ∷ cmds) state e fs qs h =
        let go : leb n i ≡ false = ground arith in
        let read = read-write bulk_limit array_limit cmd (write_all cmds) fs.0 in
        let size = length-append (write_value cmd) (write_all cmds) in
        let short : length (write_all cmds) < fuel = omega (arith, size, write_value-pos cmd) in
        let (s, w) = rounds.others i state in
        let plain = dispatch-other P W hash (rounds.clock i) repl register process cmd s w qs.0 in
        rw (ends i, go, read)
          (rw plain (
            outcome_cong (dispatch P W hash (rounds.clock i) repl none process cmd s w) _ _ _ (λ a.
              rw (sends i)
                (rw (rounds_lem fuel (i + 1) m cmds (a.0, a.1) (omega arith) fs.1 qs.1 short)))))

    -- If a client sends commands, each a frame that the reader gets back and none of them `PSYNC`
    -- or `SYNC`, and the server is closed before some round `n` of the connection, then the
    -- connection leaves the store, and is sent the bytes, of the first `n` of the commands
    -- answered one after the other without a master that takes replicas, as long as its replies
    -- are sent without an error.
    pub handle_conn_pipeline :
        (cmds : List Value) (state : Store P W × W)
        → All (IsFrame bulk_limit array_limit) cmds
        → All (λ cmd. asks_sync cmd ≡ false) cmds
        → handle_conn P W hash bulk_limit array_limit repl register process rounds
            (write_all cmds)
            state
          ≡ answer 0 (take n cmds) state
    unfolding handle_conn
    handle_conn_pipeline cmds state fs qs =
        rounds_lem (suc (length (write_all cmds))) 0 n cmds state (omega arith) fs qs (omega arith)
