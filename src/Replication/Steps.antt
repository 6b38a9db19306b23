-- ===== src/Replication/Steps.antt =====
-- internal/replication: what may happen to a node, as steps in any order.
use vortex_kv_cache.Base.{ℕ, some, List, ◌≡◌, ◌⊎◌, Bytes, get_elem?}
use vortex_kv_cache.Base.Int.{ℤ}
use vortex_kv_cache.Replication.Failover.{FailoverMonitor, Round}
use vortex_kv_cache.Replication.Manager.{Node, Sync, dialing, greeting, reading, slave_of, close}
use vortex_kv_cache.Replication.Sync.{dial_failed, dialed, greeted, acknowledge, disconnect}
use vortex_kv_cache.Replication.Heartbeat.{run_monitor}

-- goroutine `g` has the connection `c`
abbrev pub Holds : List Sync → ℕ → ℕ → Type 0
Holds syncs g c = (get_elem? syncs g ≡ some (greeting c)) ⊎ (get_elem? syncs g ≡ some (reading c))

-- A step is what one goroutine does while it holds the lock of the manager, or between. The rounds
-- of a monitor change nothing that the others see up to the promotion. A monitor goes on after it
-- is stopped, since its loop may choose the tick.
pub data Step : Node → Node → Type 0 where
  told : (host port : Bytes) (n : Node) → Step n (slave_of host port n)
  dial_fails :
      (n : Node) (g : ℕ) (addr : Bytes)
      → get_elem? n.syncs g ≡ some (dialing addr)
      → Step n (dial_failed g n)
  dials :
      (n : Node) (g : ℕ) (addr : Bytes)
      → get_elem? n.syncs g ≡ some (dialing addr)
      → Step n (dialed g n)
  greets :
      (n : Node) (g c : ℕ) (now : ℤ)
      → get_elem? n.syncs g ≡ some (greeting c)
      → Step n (greeted g c now n)
  acknowledges :
      (n : Node) (g c : ℕ) (now : ℤ)
      → get_elem? n.syncs g ≡ some (reading c)
      → Step n (acknowledge now n)
  disconnects : (n : Node) (g c : ℕ) → Holds n.syncs g c → Step n (disconnect g c n)
  beats :
      (n : Node) (i : ℕ) (m : FailoverMonitor) (rounds : List Round)
      → get_elem? n.monitors i ≡ some m
      → Step n (run_monitor i rounds n)
  closes : (n : Node) → Step n (close n)

pub data Reach (n : Node) : Node → Type 0 where
  here : Reach n n
  next : {p q : Node} → Reach n p → Step p q → Reach n q
