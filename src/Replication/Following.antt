-- ===== src/Replication/Following.antt =====
-- internal/replication/replica.go: `connectAndSync` on the commands that a master sends.
use Prim.Native.Nat.{◌+◌}
use vortex_kv_cache.Base.{
  ℕ, zero, suc, ◌<◌, false, ◌≡◌, true, List, [], ◌∷◌, ◌++◌, Bytes, length, All, arith,
  length-append,
}
use vortex_kv_cache.Base.Int.{ℤ}
use vortex_kv_cache.Eviction.{EvictionPolicy}
use vortex_kv_cache.Store.{Store, panic, returns}
use vortex_kv_cache.Store.Operations.{outcome_cong}
use vortex_kv_cache.Resp.Value.{Value}
use vortex_kv_cache.Resp.Writer.{write_value}
use vortex_kv_cache.Resp.Frames.{IsFrame}
use vortex_kv_cache.Resp.RoundTrip.{read-write, write_value-pos}
use vortex_kv_cache.Server.Pipeline.{write_all}
use vortex_kv_cache.Replication.Replica.{apply_master_command}
use vortex_kv_cache.Replication.Manager.{Node}
use vortex_kv_cache.Replication.Sync.{
  Synced, disconnected, crashed, Rounds, acknowledge, disconnect, greeted, sync_rounds, sync_conn,
}

module _ (P : EvictionPolicy) (W : Type 0) (hash : Bytes → ℕ) (bulk_limit array_limit : ℕ)
    (rounds : Rounds P W) (g c : ℕ) where
  -- The commands one after the other, without their bytes.
  unfoldable pub follow : ℕ → List Value → Node × Store P W × W → Synced P W
  unfolding apply_master_command acknowledge disconnect
  follow i [] state = let (n, s, w) = rounds.others i state in disconnected (disconnect g c n) s w
  follow i (cmd ∷ cmds) state =
      let (n, s, w) = rounds.others i state in
      let next = follow (i + 1) cmds in
      elim (apply_master_command P W hash (rounds.now i) cmd s w) [
        | panic ↦ crashed
        | returns (s', w') ↦ next (acknowledge (rounds.now i) n, s', w')
      ]

  module _
      (goes_on : (i : ℕ) (state : Node × Store P W × W)
        → state.0.manager.done ≡ false
        → (rounds.others i state).0.manager.done ≡ false) where
    rounds_lem :
        (fuel i : ℕ) (cmds : List Value) (state : Node × Store P W × W)
        → state.0.manager.done ≡ false
        → All (IsFrame bulk_limit array_limit) cmds
        → length (write_all cmds) < fuel
        → sync_rounds P W hash bulk_limit array_limit rounds g c fuel i (write_all cmds) state
          ≡ follow i cmds state
    unfolding sync_rounds follow acknowledge
    rounds_lem zero i cmds state d fs h = absurd (omega arith)
    rounds_lem (suc fuel) i [] state d fs h = rw (goes_on i state d)
    rounds_lem (suc fuel) i (cmd ∷ cmds) state d fs h =
        let read = read-write bulk_limit array_limit cmd (write_all cmds) fs.0 in
        let size = length-append (write_value cmd) (write_all cmds) in
        let short : length (write_all cmds) < fuel = omega (arith, size, write_value-pos cmd) in
        let (n, s, w) = rounds.others i state in
        rw (goes_on i state d, read)
          (outcome_cong (apply_master_command P W hash (rounds.now i) cmd s w) _ _ _
            (λ a. rounds_lem fuel (i + 1) cmds _ (goes_on i state d) fs.1 short))

    -- If a master answers with a header and sends commands, all of them frames that the reader gets
    -- back, and the manager of the replica is not closed meanwhile, then the replica leaves what it
    -- leaves when it carries out the commands one after the other, each on the store that the one
    -- before it and the other goroutines left, and counts each of them.
    pub sync_conn_follows :
        (header : Value) (cmds : List Value) (now : ℤ) (n : Node) (s : Store P W) (w : W)
        → n.manager.done ≡ false
        → IsFrame bulk_limit array_limit header
        → All (IsFrame bulk_limit array_limit) cmds
        → sync_conn P W hash bulk_limit array_limit rounds g c true now
            (write_value header ++ write_all cmds)
            (n, s, w)
          ≡ follow 0 cmds (greeted g c now n, s, w)
    unfolding sync_conn greeted
    sync_conn_follows header cmds now n s w d f fs =
        rw (read-write bulk_limit array_limit header (write_all cmds) f) (
          rounds_lem (suc (length (write_all cmds))) 0 cmds (greeted g c now n, s, w) d fs
            (omega arith))
