-- ===== src/ServerCommand.antt =====
-- cmd/vortex-server/main.go: the start of a server from its flags, and its end. The text that is
-- printed is left out.
pub mod Serving
use vortex_kv_cache.Base.{ℕ, Option, none, some, Bool, true, [], ◌++◌, bytes}
use vortex_kv_cache.Base.Int.{ℤ, pos, ltb_ℤ}
use vortex_kv_cache.Lru.Contract.{lru_policy}
use vortex_kv_cache.Store
use vortex_kv_cache.Store.{
  Store, Outcome, panic, returns, Config, WriteEvent, default_config, new_store, on_write,
}
use vortex_kv_cache.Resp.Decimal.{format_int}
use vortex_kv_cache.Server.Lifecycle.{Server, new_server, close_listener}
use vortex_kv_cache.Server.Dispatch.{Replication}
use vortex_kv_cache.Replication.Master.{Replicas, handle_store_write, register_replica}
use vortex_kv_cache.Replication.Manager
use vortex_kv_cache.Replication.Manager.{Node, new_node}

-- what the flags `-shards` and `-max-keys-per-shard` make of the default
unfoldable pub server_config : ℤ → ℤ → Config
unfolding default_config
server_config shards max_keys_per_shard = record default_config {
  shard_count = shards;
  max_keys_per_shard = max_keys_per_shard;
  eviction_factory = ltb_ℤ (pos 0) max_keys_per_shard;
}

-- what the listeners of the store and the replication keep
abbrev pub Shared : Type 0
Shared = Replicas × Node

-- the listener of `NewMasterManager`, which `NewServer` calls
abbrev pub master_listener : (ℕ → Bool) → WriteEvent → Shared → Shared
master_listener works e (replicas, n) = (handle_store_write works e replicas, n)

-- what the command handler calls, by the node of the replica manager
abbrev pub shared_replication : Replication Shared
shared_replication = record {
  is_read_only = λ w. Manager.is_read_only w.1;
  slave_of = λ host port w. ((w.0, Manager.slave_of host port w.1), none);
  info = λ now w. Manager.info now w.1;
}

-- `RegisterReplica` for the connection `conn`, with the snapshot that it takes
abbrev pub shared_register : (ℕ → Bool) → ℕ → ℤ → Store lru_policy Shared → Shared → Shared
shared_register works conn now cache (replicas, n) =
    (register_replica works conn (Store.snapshot lru_policy Shared now cache) replicas, n)

-- `none` is the exit with code 1; `NewStore` panics above `shard_limit` shards.
unfoldable pub start_up :
    ℕ → (ℕ → Bool) → ℤ → ℤ → ℤ → Outcome (Option (Store lru_policy Shared × Shared × Server))
unfolding server_config new_store on_write new_server format_int handle_store_write
start_up shard_limit works port shards max_keys_per_shard =
    elim (new_store lru_policy Shared shard_limit (server_config shards max_keys_per_shard)) [
      | panic ↦ panic
      | returns none ↦ returns none
      | returns (some cache) ↦ returns (
          some (
            on_write lru_policy Shared (master_listener works) cache,
            ([], new_node),
            new_server (bytes ":" ++ format_int port),
          ))
    ]

-- the calls of `Close` at the end, of the server, which closes its replica manager, and then, when
-- the connections have ended, of the store
unfoldable pub shut_down :
    Store lru_policy Shared × Shared × Server → Store lru_policy Shared × Shared × Server
unfolding close_listener Store.close Manager.close
shut_down (cache, (replicas, n), srv) = (
  Store.close lru_policy Shared cache,
  (replicas, Manager.close n),
  close_listener (record srv { done = true }),
)
