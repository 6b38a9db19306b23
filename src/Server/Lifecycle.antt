-- ===== src/Server/Lifecycle.antt =====
-- internal/server/server.go: the state of a server, the accept loop, the goroutines of the
-- connections and `Close`, as steps that may come in any order.
use Prim.Native.Nat.{◌+◌}
use vortex_kv_cache.Base.{ℕ, suc, Option, none, some, Bool, true, false, ◌≡◌, ◌++◌, Bytes, bytes}
use vortex_kv_cache.Base.Int.{ℤ, pos, negsuc, ◌+ℤ◌, wrap}

pub record Listener : Type 0 where
  pub address : Bytes
  pub is_open : Bool

-- `wait_count` is the counter of `wg`, and `done` says that `ctx` is cancelled. The cache and the
-- managers are part of the connections.
pub record Server : Type 0 where
  pub addr : Bytes
  pub listener : Option Listener
  pub active_conns : ℤ
  pub done : Bool
  pub wait_count : ℕ

unfoldable pub new_server : Bytes → Server
new_server addr = record {
  addr = addr;
  listener = none;
  active_conns = pos 0;
  done = false;
  wait_count = 0;
}

-- what `net.Listen` returns: an address, or the text of an error
pub data Bound : Type 0 where
  bound refused : Bytes → Bound

-- the result is the text of an error
unfoldable pub listen : Bound → Server → Server × Option Bytes
listen b srv = elim srv.listener [
  | some l ↦ (srv, none)
  | none ↦ elim b [
    | bound address ↦
        (record srv { listener = some (record { address = address; is_open = true }) }, none)
    | refused text ↦
        (srv, some (bytes "failed to bind TCP socket on " ++ srv.addr ++ bytes ": " ++ text))
  ]
]

-- `Serve` before its loop
unfoldable pub serve_start : Bound → Server → Server × Option Bytes
unfolding listen
serve_start b srv = elim srv.listener [ some l ↦ (srv, none) | none ↦ listen b srv ]

-- `ListenAndServe` before the loop of `Serve`; the second binding is not made after the first
unfoldable pub listen_and_serve_start : Bound → Bound → Server → Server × Option Bytes
unfolding listen serve_start
listen_and_serve_start b c srv =
    let (srv', err) = listen b srv in
    elim err [ some text ↦ (srv', some text) | none ↦ serve_start c srv' ]

-- `ActiveConns`
unfoldable pub count_active : Server → ℤ
count_active srv = srv.active_conns

-- `Addr`
unfoldable pub bound_addr : Server → Option Bytes
bound_addr srv = elim srv.listener [ none ↦ none | some l ↦ some l.address ]

-- `s.listener.Close()`, if there is a listener
unfoldable pub close_listener : Server → Server
close_listener srv = elim srv.listener [
  | none ↦ srv
  | some l ↦ record srv { listener = some (record l { is_open = false }) }
]

-- whether `Accept` waits for a client
abbrev pub accepts : Option Listener → Bool
accepts none = false
accepts (some l) = l.is_open

-- Where the goroutine of `Serve` is: before its loop, in `Accept`, behind it, behind `wg.Add`, or
-- at its end, with an error or without.
pub data Acceptor : Type 0 where
  idle accepting accepted counted : Acceptor
  stopped : Bool → Acceptor

-- where the goroutine of `Close` is
pub data Closer : Type 0 where
  not_called cancelled waiting returned : Closer

-- The server with its goroutines. Of the connections, those that are about to test `ctx`, that
-- wait in `ReadValue`, that run a command, that end, and that end with `activeConns` counted down.
pub record State : Type 0 where
  pub server : Server
  pub acceptor : Acceptor
  pub testing : ℕ
  pub reading : ℕ
  pub running : ℕ
  pub ending : ℕ
  pub leaving : ℕ
  pub closer : Closer

abbrev pub first_state : Server → State
first_state srv = record {
  server = srv;
  acceptor = idle;
  testing = 0;
  reading = 0;
  running = 0;
  ending = 0;
  leaving = 0;
  closer = not_called;
}

-- A step of the server's goroutines, or one that waits for a client.
pub data Side : Type 0 where
  by_server by_client : Side

pub data Step : Side → State → State → Type 0 where
  enter_loop :
      (x : State) → x.acceptor ≡ idle → Step by_server x (record x { acceptor = accepting })
  accept :
      (x : State)
      → x.acceptor ≡ accepting
      → accepts x.server.listener ≡ true
      → Step by_client x (record x { acceptor = accepted })
  -- `Accept` fails, as it does on a closed listener; `Serve` returns an error if `ctx` is not
  -- cancelled
  accept_fails :
      (x : State)
      → x.acceptor ≡ accepting
      → Step by_server x
          (record x { acceptor = stopped (elim x.server.done [ true ↦ false | false ↦ true ]) })
  count_wait :
      (x : State)
      → x.acceptor ≡ accepted
      → Step by_server x (record x {
        server = record x.server { wait_count = x.server.wait_count + 1 };
        acceptor = counted;
      })
  start_conn :
      (x : State)
      → x.acceptor ≡ counted
      → Step by_server x (record x {
        server = record x.server { active_conns = wrap (x.server.active_conns +ℤ pos 1) };
        acceptor = accepting;
        testing = x.testing + 1;
      })
  conn_done :
      (x : State) (n : ℕ)
      → x.testing ≡ suc n
      → x.server.done ≡ true
      → Step by_server x (record x { testing = n; ending = x.ending + 1 })
  conn_reads :
      (x : State) (n : ℕ)
      → x.testing ≡ suc n
      → x.server.done ≡ false
      → Step by_server x (record x { testing = n; reading = x.reading + 1 })
  -- a command has come
  conn_runs :
      (x : State) (n : ℕ)
      → x.reading ≡ suc n
      → Step by_client x (record x { reading = n; running = x.running + 1 })
  -- the client has ended the connection, or sent no frame
  conn_fails :
      (x : State) (n : ℕ)
      → x.reading ≡ suc n
      → Step by_client x (record x { reading = n; ending = x.ending + 1 })
  reply_sent :
      (x : State) (n : ℕ)
      → x.running ≡ suc n
      → Step by_server x (record x { running = n; testing = x.testing + 1 })
  reply_fails :
      (x : State) (n : ℕ)
      → x.running ≡ suc n
      → Step by_server x (record x { running = n; ending = x.ending + 1 })
  uncount :
      (x : State) (n : ℕ)
      → x.ending ≡ suc n
      → Step by_server x (record x {
        server = record x.server { active_conns = wrap (x.server.active_conns +ℤ negsuc 0) };
        ending = n;
        leaving = x.leaving + 1;
      })
  -- `wg.Done`, which panics at zero
  leave :
      (x : State) (n m : ℕ)
      → x.leaving ≡ suc n
      → x.server.wait_count ≡ suc m
      → Step by_server x (record x { server = record x.server { wait_count = m }; leaving = n })
  cancel :
      (x : State)
      → x.closer ≡ not_called
      → Step by_server x (record x { server = record x.server { done = true }; closer = cancelled })
  stop_listening :
      (x : State)
      → x.closer ≡ cancelled
      → Step by_server x (record x { server = close_listener x.server; closer = waiting })
  -- `wg.Wait` returns at zero
  wait_ends :
      (x : State)
      → x.closer ≡ waiting
      → x.server.wait_count ≡ 0
      → Step by_server x (record x { closer = returned })

pub data Reach (x : State) : State → Type 0 where
  here : Reach x x
  next : {y z : State} (side : Side) → Reach x y → Step side y z → Reach x z
