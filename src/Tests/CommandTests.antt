-- ===== src/Tests/CommandTests.antt =====
-- cmd/vortex-server/main.go and bench/loadtest.go at concrete inputs.
use vortex_kv_cache.Base.{
  ℕ, ◌^◌, ◌≤◌, ◌≡◌, refl, true, false, none, some, [], ◌∷◌, ◌++◌, arith, bytes, length, replicate,
}
use vortex_kv_cache.Base.Int.{pos, ◌+ℤ◌, wrap, div_ℤ}
use vortex_kv_cache.Store.{Store, snapshot, returns, default_config, new_store, bad_shard_count}
use vortex_kv_cache.Lru.Contract.{lru_policy, lru_laws}
use vortex_kv_cache.Shard.{new_shard}
use vortex_kv_cache.Replication.Manager.{new_node}
use vortex_kv_cache.Replication.Master.{register_replica}
use vortex_kv_cache.Server.Dispatch.{run_words, run_command}
use vortex_kv_cache.Resp.Value.{new_simple_string, new_bulk_string_bytes}
use vortex_kv_cache.Resp.Writer.{crlf}
use vortex_kv_cache.Server.Conn.{Rounds, handle_conn}
use vortex_kv_cache.Server.Closing.{Closes}
use vortex_kv_cache.Server.Lifecycle.{new_server}
use vortex_kv_cache.Tests.ServerTests.{process}
use vortex_kv_cache.ServerCommand.{
  Shared, shared_replication, shared_register, master_listener, server_config, start_up,
}
use vortex_kv_cache.ServerCommand.Serving.{start_up-Closes}
use vortex_kv_cache.LoadTest.{
  insert_sorted, sort_durations, sum_from, float_index, round_float, metrics_at, sorted_metrics,
  calculate_metrics,
}
use vortex_kv_cache.LoadTest.Percentiles.{Measured, calculate_metrics-Measured}

-- three shards are refused
no_start : start_up 16 (λ c. true) (pos 6379) (pos 3) (pos 0) ≡ returns none
unfolding start_up server_config new_store bad_shard_count default_config
no_start = refl

-- two shards without a bound
abbrev started : Store lru_policy Shared
started = record {
  cfg = server_config (pos 2) (pos 0);
  shards = replicate 2 (new_shard lru_policy (pos 0) false);
  shard_mask = 1;
  closed = false;
  on_write_hooks = master_listener (λ c. true) ∷ [];
}

start :
    start_up 16 (λ c. true) (pos 6379) (pos 2) (pos 0)
    ≡ returns (some (started, ([], new_node), new_server (bytes ":6379")))
unfolding start_up server_config new_store bad_shard_count default_config
start = refl

-- nobody else uses the store, and the server is not closed
abbrev rounds : Rounds lru_policy Shared
rounds = record {
  done = λ i. false;
  others = λ i state. state;
  sent = λ i. true;
  clock = λ i j. pos 1_000_000_000;
}

start_up-Closes_example :
    ((k : ℕ) × (pos 2 ≡ pos (2 ^ k)) × (2 ^ k ≤ 16))
    × Closes lru_laws length 100 100 (
        handle_conn lru_policy Shared length 100 100
          (some shared_replication)
          (some (shared_register (λ c. true) 7))
          process
          rounds
          (bytes "*1")
          (started, ([], new_node)))
start_up-Closes_example =
    start_up-Closes 16 (λ c. true) (pos 6379) (pos 2) (pos 0) length started ([], new_node)
      (new_server (bytes ":6379")) start 100 100 (some (shared_register (λ c. true) 7)) process
      rounds (λ i s w v. v) (bytes "*1")

-- `SYNC`, with a long s, registers connection 7, which is sent the header and an empty snapshot
psync :
    run_words lru_policy Shared length
      (λ i. pos 5)
      (some shared_replication)
      (some (shared_register (λ c. true) 7))
      process
      (new_bulk_string_bytes (some (197 ∷ 191 ∷ bytes "ync")) ∷ [])
      started
      ([], new_node)
    ≡ returns (
      started,
      (
        record {
          conn = 7;
          sent = bytes "+FULLRESYNC 0000000000000000000000000000000000000000 0" ++ crlf;
        }
            ∷ [],
        new_node,
      ),
      new_simple_string (bytes "FULLRESYNC 0000000000000000000000000000000000000000 0"),
    )
unfolding run_words run_command new_bulk_string_bytes register_replica snapshot new_shard
psync = refl

metrics :
    calculate_metrics (pos 30 ∷ pos 10 ∷ pos 20 ∷ [])
    ≡ returns (record {
      min = pos 10;
      p50 = pos 20;
      p95 = pos 30;
      p99 = pos 30;
      p999 = pos 30;
      max = pos 30;
      avg = pos 20;
    })
unfolding calculate_metrics sorted_metrics metrics_at sort_durations insert_sorted sum_from
    float_index round_float ◌+ℤ◌ wrap div_ℤ
metrics = refl

calculate_metrics-Measured_example :
    Measured (pos 30 ∷ pos 10 ∷ []) (calculate_metrics (pos 30 ∷ pos 10 ∷ []))
calculate_metrics-Measured_example = calculate_metrics-Measured (pos 30) (pos 10 ∷ []) (omega arith)
