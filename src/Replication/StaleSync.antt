-- ===== src/Replication/StaleSync.antt =====
-- internal/replication/replica.go: a goroutine that was dialing the master when its node became a
-- master itself.
use Prim.Native.Nat.{◌+◌}
use vortex_kv_cache.Base.{ℕ, ◌≡◌, List, [], ◌∷◌, Bytes, bytes, length}
use vortex_kv_cache.Base.Int.{ℤ}
use vortex_kv_cache.Eviction.{EvictionPolicy, PolicyLaws}
use vortex_kv_cache.Store.{Store, Outcome, returns, ◌>>=◌}
use vortex_kv_cache.Store.Invariant.{IsValid}
use vortex_kv_cache.Replication.Manager.{Node, role_master, slave_of}
use vortex_kv_cache.Replication.Sync.{Synced, disconnected}
use vortex_kv_cache.Replication.EndToEnd.{Change, carry_out}

module _ {P : EvictionPolicy} {W : Type 0} (L : PolicyLaws P) (hash : Bytes → ℕ)
    (bulk_limit array_limit : ℕ) (now : ℕ → ℤ) (g c : ℕ) where
  -- the changes one after the other on the store alone
  pub carry_all : ℕ → List Change → Store P W × W → Outcome (Store P W × W)
  carry_all i [] state = returns state
  carry_all i (ch ∷ chs) (s, w) =
      carry_out P W hash bulk_limit array_limit now g c i ch s w >>= carry_all (i + 1) chs

  -- The loop ends without a panic, on a node that is a master, with a valid store, and with what the
  -- run `o` on the store leaves.
  pub data Applied (o : Outcome (Store P W × W)) : Synced P W → Type 0 where
    applied :
        (n : Node) (s : Store P W) (w : W)
        → n.manager.role ≡ role_master
        → IsValid L hash s
        → o ≡ returns (s, w)
        → Applied o (disconnected n s w)

-- the node after `SLAVEOF NO ONE`
abbrev pub freed : Node → Node
freed n = slave_of (bytes "NO") (bytes "ONE") n

-- the connection that the goroutine then opens
abbrev pub late_conn : Node → ℕ
late_conn n = length (freed n).conns
