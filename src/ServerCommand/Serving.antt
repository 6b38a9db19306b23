-- ===== src/ServerCommand/Serving.antt =====
-- What a server that cmd/vortex-server/main.go has started does with a connection
-- (internal/server/server.go).
use vortex_kv_cache.Base.{ℕ, ◌^◌, ◌≤◌, Option, some, Bool, ◌≡◌, Bytes, arith, inl, inr}
use vortex_kv_cache.Base.Int.{ℤ, pos}
use vortex_kv_cache.Lru.Contract.{lru_policy, lru_laws}
use vortex_kv_cache.Store.{Store, returns, open_store, on_write}
use vortex_kv_cache.Store.Invariant.{IsValid}
use vortex_kv_cache.Store.Routing.{new_store-cases, new_store_iff}
use vortex_kv_cache.Store.Runs.{new_store-IsValid}
use vortex_kv_cache.Server.Dispatch.{Process}
use vortex_kv_cache.Server.Conn.{Rounds, handle_conn}
use vortex_kv_cache.Server.Closing.{Closes, handle_conn-Closes}
use vortex_kv_cache.Server.Lifecycle.{Server}
use vortex_kv_cache.ServerCommand.{
  Shared, shared_replication, server_config, master_listener, start_up,
}

module _ (limit : ℕ) (works : ℕ → Bool) (port shards max_keys_per_shard : ℤ)
    (hash : Bytes → ℕ) where
  start_up-IsValid :
      (state : Store lru_policy Shared × Shared × Server)
      → start_up limit works port shards max_keys_per_shard ≡ returns (some state)
      → IsValid lru_laws hash state.0 × ((k : ℕ) × (shards ≡ pos (2 ^ k)) × (2 ^ k ≤ limit))
  unfolding start_up on_write server_config
  start_up-IsValid (cache, w, srv) e =
      let cfg = server_config shards max_keys_per_shard in
      elim (new_store-cases lru_policy Shared limit cfg) [
        | inl (bad, made) ↦ absurd (ground arith)
        | inr (inl (good, over, made)) ↦ absurd (ground arith)
        | inr (inr (good, fits, made)) ↦
            let s = open_store lru_policy Shared cfg in
            let v = new_store-IsValid lru_laws hash limit cfg s made in
            let h = (new_store_iff lru_policy Shared limit cfg).0.0 (s, made) in
            let same : on_write lru_policy Shared (master_listener works) s ≡ cache =
              ground arith in
            (
              rw (← same) (record {
                bits = v.bits;
                count = v.count;
                mask = v.mask;
                shards = v.shards;
                placed = v.placed;
              }),
              h,
            )
      ]

  -- If `main` starts a server, with any flags, then the number of shards is a power of two within
  -- the limit of `make`; and on its store and its replica manager, and if the other goroutines
  -- keep the store valid, the loop of a connection ends whatever bytes the client sends and
  -- whenever the server is closed or a reply fails: the connection is closed and the store is
  -- valid, or the process crashed, and then the reader panicked on some bytes.
  pub start_up-Closes :
      (cache : Store lru_policy Shared) (w : Shared) (srv : Server)
      → start_up limit works port shards max_keys_per_shard ≡ returns (some (cache, w, srv))
      → (bulk_limit array_limit : ℕ)
        (register : Option (ℤ → Store lru_policy Shared → Shared → Shared)) (process : Process)
        (rounds : Rounds lru_policy Shared)
      → ((i : ℕ) (s : Store lru_policy Shared) (x : Shared)
          → IsValid lru_laws hash s
          → IsValid lru_laws hash (rounds.others i (s, x)).0)
      → (input : Bytes)
      → ((k : ℕ) × (shards ≡ pos (2 ^ k)) × (2 ^ k ≤ limit))
        × Closes lru_laws hash bulk_limit array_limit (
            handle_conn lru_policy Shared hash bulk_limit array_limit
              (some shared_replication)
              register
              process
              rounds
              input
              (cache, w))
  start_up-Closes cache w srv e bulk_limit array_limit register process rounds keep input =
      let (v, k) = start_up-IsValid (cache, w, srv) e in
      (
        k,
        handle_conn-Closes lru_laws hash bulk_limit array_limit shared_replication register process
            rounds keep input cache w v,
      )
