-- ===== src/Tests/LifecycleTests.antt =====
-- internal/server/server.go at concrete inputs: a server with one connection.
use vortex_kv_cache.Base.{◌≤◌, ◌<◌, ◌≡◌, refl, Bytes, bytes, arith}
use vortex_kv_cache.Server.Lifecycle.{
  State, returned, first_state, serve_start, new_server, bound, by_server, by_client, Reach, here,
  next, enter_loop, accept, count_wait, start_conn, conn_reads, cancel, stop_listening, listen,
}
use vortex_kv_cache.Server.Shutdown.{IsCounted, Reach-IsCounted}
use vortex_kv_cache.Server.Waiting.{start, left, IsStuck, rest, after, close_returns, close_waits}

abbrev addr : Bytes
addr = bytes ":6379"

abbrev begun : State
begun = first_state (serve_start (bound addr) (new_server addr)).0

-- a client connects, and sends nothing
abbrev connected : (x : State) × Reach begun x
unfolding serve_start listen new_server
connected = (
  _,
  next by_server
      (next by_server
        (next by_server
          (next by_client (next by_server here (enter_loop begun refl)) (accept _ refl refl))
          (count_wait _ refl))
        (start_conn _ refl))
      (conn_reads _ 0 refl refl),
)

-- and then the server is closed
abbrev closing : (x : State) × Reach begun x
unfolding connected
closing = (_, next by_server (next by_server connected.1 (cancel _ refl)) (stop_listening _ refl))

Reach-IsCounted_example : IsCounted connected.0
unfolding connected closing
Reach-IsCounted_example = Reach-IsCounted addr addr connected.1

close_returns_example : (0 ≤ left closing.0) × (IsStuck closing.0 → closing.0.closer ≡ returned)
unfolding connected closing
close_returns_example = close_returns addr addr 0 closing.1 refl start

close_waits_example : (0 < closing.0.reading) × (¬ closing.0.closer ≡ returned)
unfolding closing connected
close_waits_example =
    close_waits addr addr connected.1 (omega arith)
      (after (after rest (cancel _ refl)) (stop_listening _ refl))
