-- ===== src/Server/Shutdown.antt =====
-- internal/server/server.go: what holds of the server at any time, and of `Close`.
use Prim.Native.Nat.{◌+◌}
use vortex_kv_cache.Base.{ℕ, true, false, ◌≡◌, ◌∙◌, refl, Bytes, arith}
use vortex_kv_cache.Base.Int.{pos, negsuc, ◌+ℤ◌, wrap}
use vortex_kv_cache.Server.Lifecycle.{
  State, Acceptor, Closer, counted, not_called, cancelled, waiting, returned, accepts, first_state,
  serve_start, new_server, bound, Step, Side, Reach, here, next, close_listener, listen, enter_loop,
  accept, accept_fails, count_wait, start_conn, conn_done, conn_reads, conn_runs, conn_fails,
  reply_sent, reply_fails, uncount, leave, cancel, stop_listening, wait_ends,
}

wrap_up : (n : ℕ) → wrap (wrap (pos n) +ℤ pos 1) ≡ wrap (pos (n + 1))
unfolding wrap ◌+ℤ◌
wrap_up n = ground arith

wrap_down : (n : ℕ) → wrap (wrap (pos (n + 1)) +ℤ negsuc 0) ≡ wrap (pos n)
unfolding wrap ◌+ℤ◌
wrap_down n = ground arith

-- a connection that is between `wg.Add` and the start of its goroutine
abbrev pub starting : Acceptor → ℕ
starting counted = 1
starting _ = 0

-- the connections that `activeConns` counts
abbrev pub live : State → ℕ
live x = x.testing + x.reading + x.running + x.ending

-- what the goroutine of `Close` has done so far
abbrev pub ClosedSoFar : Closer → State → Type 0
ClosedSoFar not_called x = Unit
ClosedSoFar cancelled x = x.server.done ≡ true
ClosedSoFar waiting x = (x.server.done ≡ true) × (accepts x.server.listener ≡ false)
ClosedSoFar returned x =
    (x.server.done ≡ true) × (accepts x.server.listener ≡ false) × (x.reading ≡ 0) × (x.running ≡ 0)

-- `wg` counts the connections that started and are not at their end, `activeConns` those of them
-- that have not counted down, and `Close` has done what it was to do.
abbrev pub IsCounted : State → Type 0
IsCounted x =
    (x.server.wait_count ≡ starting x.acceptor + live x + x.leaving)
    × (x.server.active_conns ≡ wrap (pos (live x)))
    × ClosedSoFar x.closer x

pub Step-IsCounted : {side : Side} {x y : State} → Step side x y → IsCounted x → IsCounted y
unfolding close_listener
Step-IsCounted (enter_loop x e) c = ground arith
Step-IsCounted (accept x e f) c = ground arith
Step-IsCounted (accept_fails x e) c = ground arith
Step-IsCounted (count_wait x e) c = ground arith
Step-IsCounted (start_conn x e) c =
    (ground arith, rw c.1 (wrap_up (live x) ∙ ground arith), ground arith)
Step-IsCounted (conn_done x n e f) c = ground arith
Step-IsCounted (conn_reads x n e f) c = ground arith
Step-IsCounted (conn_runs x n e) c = ground arith
Step-IsCounted (conn_fails x n e) c = ground arith
Step-IsCounted (reply_sent x n e) c = ground arith
Step-IsCounted (reply_fails x n e) c = ground arith
Step-IsCounted (uncount x n e) c =
    let down = wrap_down (x.testing + x.reading + x.running + n) in
    (ground arith, rw (c.1, e) (ground (arith, down)), ground arith)
Step-IsCounted (leave x n m e f) c = ground arith
Step-IsCounted (cancel x e) c = ground arith
Step-IsCounted (stop_listening x e) c = ground arith
Step-IsCounted (wait_ends x e f) c = ground arith

-- At any time after a server with a listener began to serve, the wait group counts the connections
-- that have started and are not at their end, `activeConns` counts those of them that have not
-- counted down, as an int64, `Close` has cancelled the context and closed the listener as far as
-- it has come, and once it has returned no connection waits for a command or runs one.
pub Reach-IsCounted :
    (addr address : Bytes) {x : State}
    → Reach (first_state (serve_start (bound address) (new_server addr)).0) x
    → IsCounted x
unfolding serve_start listen new_server wrap
Reach-IsCounted addr address here = (refl, refl, tt)
Reach-IsCounted addr address (next side r s) = Step-IsCounted s (Reach-IsCounted addr address r)
