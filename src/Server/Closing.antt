-- ===== src/Server/Closing.antt =====
-- internal/server/server.go: `handleConn` ends, whatever the client sends.
use Prim.Native.Nat.{◌+◌}
use vortex_kv_cache.Base.{
  ℕ, zero, suc, ◌≤◌, ◌<◌, if◌then◌else◌, Bool, true, false, Option, some, ◌≡◌, refl, [], ◌∷◌, Bytes,
  length, arith,
}
use vortex_kv_cache.Base.Int.{ℤ}
use vortex_kv_cache.Eviction.{EvictionPolicy, PolicyLaws}
use vortex_kv_cache.Store.{Store, Outcome, panic, returns}
use vortex_kv_cache.Store.Invariant.{IsValid}
use vortex_kv_cache.Store.Operations.{Returns, keeps}
use vortex_kv_cache.Resp.Value.{Value}
use vortex_kv_cache.Resp.Reader.{
  ReadError, eof, unexpected_eof, unterminated, invalid_syntax, unknown_prefix, Result, ok, fail,
  panics, no_fuel, read_value,
}
use vortex_kv_cache.Resp.Progress.{Within, ok_within, fail_within, panic_within, read_value_ends}
use vortex_kv_cache.Server.Dispatch.{Replication, Process}
use vortex_kv_cache.Server.Safety.{dispatch-Returns}
use vortex_kv_cache.Server.Conn.{
  Session, closed, crashed, out_of_fuel, send, Rounds, handle_rounds, handle_conn, refuse,
}

module _ {P : EvictionPolicy} {W : Type 0} (L : PolicyLaws P) (hash : Bytes → ℕ)
    (bulk_limit array_limit : ℕ) where
  -- A connection that is closed, with a valid store, or a process that crashed because the reader
  -- panicked on some bytes.
  pub data Closes : Session P W → Type 0 where
    closes : (s : Store P W) (w : W) (out : Bytes) → IsValid L hash s → Closes (closed s w out)
    crashes :
        (out rest : Bytes) → read_value bulk_limit array_limit rest ≡ panics → Closes (crashed out)

  send-Closes : {c : Session P W} (out : Bytes) → Closes c → Closes (send out c)
  send-Closes out (closes s w more v) = closes s w _ v
  send-Closes out (crashes more rest e) = crashes _ rest e

  if-Closes : (b : Bool) (x y : Session P W) → Closes x → Closes y → Closes (if b then x else y)
  if-Closes true x y c d = c
  if-Closes false x y c d = d

  reply-Closes :
      {o : Outcome (Store P W × W × Value)} (f : Store P W × W × Value → Session P W)
      → Returns L hash (λ r. r.0) o
      → ((a : Store P W × W × Value) → IsValid L hash a.0 → Closes (f a))
      → Closes (elim o [ panic ↦ crashed [] | returns a ↦ f a ])
  reply-Closes f (keeps a v) h = h a v

  read-Closes :
      (input : Bytes) (n : ℕ) (r : Result Value) (f : Value → Bytes → Session P W)
      (g : ReadError → Session P W)
      → read_value bulk_limit array_limit input ≡ r
      → Within n r
      → ((cmd : Value) (rest : Bytes) → length rest ≤ n → Closes (f cmd rest))
      → ((e : ReadError) → Closes (g e))
      → Closes (elim r [
        | ok cmd rest ↦ f cmd rest
        | fail e ↦ g e
        | panics ↦ crashed []
        | no_fuel ↦ out_of_fuel
      ])
  read-Closes input n (ok cmd rest) f g e (ok_within cmd' rest' le) h k = h cmd rest le
  read-Closes input n (fail e') f g e (fail_within e'') h k = k e'
  read-Closes input n panics f g e panic_within h k = crashes [] input e
  read-Closes input n no_fuel f g e x h k = elim x [ ]

  refuse-Closes :
      (s : Store P W) (w : W) → IsValid L hash s → (e : ReadError) → Closes (refuse e s w)
  unfolding refuse
  refuse-Closes s w v eof = closes s w _ v
  refuse-Closes s w v unexpected_eof = closes s w _ v
  refuse-Closes s w v unterminated = closes s w _ v
  refuse-Closes s w v (invalid_syntax what) = closes s w _ v
  refuse-Closes s w v (unknown_prefix c) = closes s w _ v

  module _ (r : Replication W) (register : Option (ℤ → Store P W → W → W)) (process : Process)
      (rounds : Rounds P W)
      (keep : (i : ℕ) (s : Store P W) (w : W)
        → IsValid L hash s
        → IsValid L hash (rounds.others i (s, w)).0) where
    rounds-Closes :
        (fuel i : ℕ) (input : Bytes) (s : Store P W) (w : W)
        → IsValid L hash s
        → length input < fuel
        → Closes (
            handle_rounds P W hash bulk_limit array_limit
              (some r)
              register
              process
              rounds
              fuel
              i
              input
              (s, w))
    unfolding handle_rounds read_value
    rounds-Closes zero i input s w v h = absurd (omega arith)
    rounds-Closes (suc fuel) i [] s w v h =
        let u = keep i s w v in
        if-Closes (rounds.done i) _ _ (closes _ _ _ u) (refuse-Closes _ _ u eof)
    rounds-Closes (suc fuel) i (c ∷ input) s w v h =
        let u = keep i s w v in
        let ends = read_value_ends bulk_limit array_limit (c ∷ input) in
        if-Closes (rounds.done i) _ _ (closes _ _ _ u) (
          read-Closes (c ∷ input) _ _ _ _ refl ends
            (λ cmd rest le.
              reply-Closes _ (dispatch-Returns L hash (rounds.clock i) r register process _ _ u cmd)
                (λ a b. send-Closes _ (
                  if-Closes (rounds.sent i) _ _
                    (rounds-Closes fuel (i + 1) rest a.0 a.1 b (omega arith)) (closes _ _ _ b))))
            (refuse-Closes _ _ u))

    -- On a node with a replica manager and a valid store, for a lawful policy, and if the other
    -- goroutines keep the store valid, the loop of a connection ends whatever bytes the client
    -- sends and whenever the server is closed or a reply fails: the connection is closed and the
    -- store is valid, or the process crashed, and then the reader panicked on some bytes.
    pub handle_conn-Closes :
        (input : Bytes) (s : Store P W) (w : W)
        → IsValid L hash s
        → Closes (
            handle_conn P W hash bulk_limit array_limit
              (some r)
              register
              process
              rounds
              input
              (s, w))
    unfolding handle_conn
    handle_conn-Closes input s w v = rounds-Closes (suc (length input)) 0 input s w v (omega arith)
