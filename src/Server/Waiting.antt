-- ===== src/Server/Waiting.antt =====
-- internal/server/server.go: when `Close` returns.
use Prim.Native.Nat.{◌+◌, ◌*◌}
use vortex_kv_cache.Base.{ℕ, zero, suc, ◌≤◌, ◌<◌, true, ◌≡◌, refl, Bytes, ◌⊎◌, inl, inr, arith}
use vortex_kv_cache.Server.Lifecycle.{
  State, Acceptor, Closer, counted, waiting, returned, first_state, serve_start, new_server, bound,
  Step, Side, by_server, by_client, Reach, close_listener, idle, accepting, accepted, stopped,
  enter_loop, accept, accept_fails, count_wait, start_conn, conn_done, conn_reads, conn_runs,
  conn_fails, reply_sent, reply_fails, uncount, leave, cancel, stop_listening, wait_ends,
}
use vortex_kv_cache.Server.Shutdown.{IsCounted, Step-IsCounted, Reach-IsCounted, starting}

-- `n` steps, of any goroutines and clients
pub data Run (x : State) : ℕ → State → Type 0 where
  start : Run x 0 x
  more : {n : ℕ} {y z : State} (side : Side) → Run x n y → Step side y z → Run x (suc n) z

abbrev to_stop : Acceptor → ℕ
to_stop idle = 2
to_stop accepting = 1
to_stop accepted = 6
to_stop counted = 5
to_stop (stopped err) = 0

abbrev to_return : Closer → ℕ
to_return returned = 0
to_return _ = 1

-- a bound on the steps that are left once the listener is closed
abbrev pub left : State → ℕ
left x =
    5 * x.reading
    + 4 * x.running
    + 3 * x.testing
    + 2 * x.ending
    + x.leaving
    + to_stop x.acceptor
    + to_return x.closer

-- `Close` has closed the listener.
abbrev HasClosed : State → Type 0
HasClosed x = IsCounted x × ((x.closer ≡ waiting) ⊎ (x.closer ≡ returned))

Step-HasClosed : {side : Side} {x y : State} → Step side x y → HasClosed x → HasClosed y
Step-HasClosed s (c, e) = (Step-IsCounted s c, stays s e)
  where
    stays :
        {side : Side} {x y : State}
        → Step side x y
        → (x.closer ≡ waiting) ⊎ (x.closer ≡ returned)
        → (y.closer ≡ waiting) ⊎ (y.closer ≡ returned)
    stays (enter_loop x e) h = h
    stays (accept x e f) h = h
    stays (accept_fails x e) h = h
    stays (count_wait x e) h = h
    stays (start_conn x e) h = h
    stays (conn_done x n e f) h = h
    stays (conn_reads x n e f) h = h
    stays (conn_runs x n e) h = h
    stays (conn_fails x n e) h = h
    stays (reply_sent x n e) h = h
    stays (reply_fails x n e) h = h
    stays (uncount x n e) h = h
    stays (leave x n m e f) h = h
    stays (cancel x e) h = ground arith
    stays (stop_listening x e) h = inl refl
    stays (wait_ends x e f) h = inr refl

Step-left : {side : Side} {x y : State} → Step side x y → HasClosed x → left y < left x
unfolding close_listener
Step-left (enter_loop x e) c = ground arith
Step-left (accept x e f) c = ground arith
Step-left (accept_fails x e) c = ground arith
Step-left (count_wait x e) c = ground arith
Step-left (start_conn x e) c = ground arith
Step-left (conn_done x n e f) c = ground arith
Step-left (conn_reads x n e f) c = ground arith
Step-left (conn_runs x n e) c = ground arith
Step-left (conn_fails x n e) c = ground arith
Step-left (reply_sent x n e) c = ground arith
Step-left (reply_fails x n e) c = ground arith
Step-left (uncount x n e) c = ground arith
Step-left (leave x n m e f) c = ground arith
Step-left (cancel x e) c = ground arith
Step-left (stop_listening x e) c = ground arith
Step-left (wait_ends x e f) c = ground arith

Run-HasClosed :
    {x : State} {n : ℕ} {y : State} → Run x n y → HasClosed x → HasClosed y × (n + left y ≤ left x)
Run-HasClosed start h = (h, omega arith)
Run-HasClosed (more side r s) h =
    let (h', le) = Run-HasClosed r h in (Step-HasClosed s h', omega (arith, Step-left s h'))

-- no step is possible
abbrev pub IsStuck : State → Type 0
IsStuck x = (side : Side) (y : State) → ¬ Step side x y

zero_or : (n : ℕ) → ((m : ℕ) → ¬ n ≡ suc m) → n ≡ 0
zero_or zero h = refl
zero_or (suc n) h = absurd (h n refl)

stuck_returned : {x : State} → HasClosed x → IsStuck x → x.closer ≡ returned
stuck_returned {x} (c, inr e) h = e
stuck_returned {x} (c, inl e) h =
    let done : x.server.done ≡ true = ground arith in
    let t = zero_or x.testing (λ m k. h by_server _ (conn_done x m k done)) in
    let d = zero_or x.reading (λ m k. h by_client _ (conn_fails x m k)) in
    let u = zero_or x.running (λ m k. h by_server _ (reply_fails x m k)) in
    let v = zero_or x.ending (λ m k. h by_server _ (uncount x m k)) in
    let a : ¬ x.acceptor ≡ counted = λ k. h by_server _ (start_conn x k) in
    let s : starting x.acceptor ≡ 0 = ground (arith, a) in
    let l = zero_or x.leaving (λ m k. h by_server _ (leave x m m k (omega (arith, c, k)))) in
    absurd (h by_server _ (wait_ends x e (omega (arith, c))))

-- If `Close` has closed the listener of a server that serves, then every run of the goroutines and
-- the clients from there has at most as many steps as the function `left` of the state says, and
-- where no step is possible any more, `Close` has returned.
pub close_returns :
    (addr address : Bytes) {x y : State} (n : ℕ)
    → Reach (first_state (serve_start (bound address) (new_server addr)).0) x
    → x.closer ≡ waiting
    → Run x n y
    → (n ≤ left x) × (IsStuck y → y.closer ≡ returned)
close_returns addr address n r e run =
    let (h, le) = Run-HasClosed run (Reach-IsCounted addr address r, inl e) in
    (omega arith, stuck_returned h)

-- steps of the server's goroutines alone
pub data ServerRun (x : State) : State → Type 0 where
  rest : ServerRun x x
  after : {y z : State} → ServerRun x y → Step by_server y z → ServerRun x z

reading_stays : {x y : State} → Step by_server x y → x.reading ≤ y.reading
reading_stays (enter_loop x e) = omega arith
reading_stays (accept_fails x e) = omega arith
reading_stays (count_wait x e) = omega arith
reading_stays (start_conn x e) = omega arith
reading_stays (conn_done x n e f) = omega arith
reading_stays (conn_reads x n e f) = omega arith
reading_stays (reply_sent x n e) = omega arith
reading_stays (reply_fails x n e) = omega arith
reading_stays (uncount x n e) = omega arith
reading_stays (leave x n m e f) = omega arith
reading_stays (cancel x e) = omega arith
reading_stays (stop_listening x e) = omega arith
reading_stays (wait_ends x e f) = omega arith

server_run :
    {x y : State} → IsCounted x → 0 < x.reading → ServerRun x y → IsCounted y × (0 < y.reading)
server_run c h rest = (c, h)
server_run c h (after r s) =
    let (d, k) = server_run c h r in (Step-IsCounted s d, omega (arith, reading_stays s))

-- As long as a connection waits for a client that does nothing, `Close` does not return: from a
-- state that a server that serves comes to, and in which a connection reads, the steps of the
-- goroutines of the server alone never get to the return of `Close`.
pub close_waits :
    (addr address : Bytes) {x y : State}
    → Reach (first_state (serve_start (bound address) (new_server addr)).0) x
    → 0 < x.reading
    → ServerRun x y
    → (0 < y.reading) × (¬ y.closer ≡ returned)
close_waits addr address r h run =
    let (c, k) = server_run (Reach-IsCounted addr address r) h run in (k, ground arith)
