-- ===== src/Tests/DashboardTests.antt =====
-- cmd/vortex-dashboard/main.go at concrete inputs.
use vortex_kv_cache.Base.{false, none, ◌≡◌, refl, [], ◌∷◌, bytes, ◌≟◌, arith}
use vortex_kv_cache.Base.Int.{pos}
use vortex_kv_cache.Lru.Contract.{lru_policy}
use vortex_kv_cache.Store
use vortex_kv_cache.Store.{Store, returns, new_store, default_config}
use vortex_kv_cache.Resp.Value.{new_bulk_string_from_string}
use vortex_kv_cache.Resp.Decimal.{format_nat, format_int}
use vortex_kv_cache.Resp.Writer.{write_value}
use vortex_kv_cache.Server.Dispatch.{info_text, stats}
use vortex_kv_cache.Replication.Manager.{Node, new_node, new_replica_manager, info, role_text}
use vortex_kv_cache.Dashboard.Strings.{
  split, trim_space, trim_front, trim_end, cut_at, parse_number, scan_uint,
}
use vortex_kv_cache.Dashboard.Metric.{parse_node_targets, targets_from, target_of, poll_node}
use vortex_kv_cache.Dashboard.Polled.{text, shown, poll_node-info}
use vortex_kv_cache.Tests.ServerTests.{process}
use vortex_kv_cache.Tests.StoreTests.{hash}

targets :
    parse_node_targets (bytes "h:1, b=h:2,, h:3 ")
    ≡ record { name = bytes "vortex-master"; addr = bytes "h:1" }
      ∷ record { name = bytes "b"; addr = bytes "h:2" }
      ∷ record { name = bytes "vortex-replica-3"; addr = bytes "h:3" }
      ∷ []
unfolding parse_node_targets targets_from target_of split trim_space trim_front trim_end cut_at ◌≟◌
    format_nat
targets = refl

-- a number that is too large, and one that is none
numbers :
    (parse_number (bytes "99999999999999999999") ≡ pos 9_223_372_036_854_775_807)
    × (parse_number (bytes "12x") ≡ pos 0)
unfolding parse_number scan_uint
numbers = (refl, refl)

-- a store without shards
abbrev nothing : Store lru_policy Node
unfolding default_config
nothing = record {
  cfg = default_config;
  shards = [];
  shard_mask = 0;
  closed = false;
  on_write_hooks = [];
}

poll_node-info_example :
    poll_node 1000 1000 (bytes "a") (bytes "h:1") none (
      write_value (
        new_bulk_string_from_string
          (text lru_policy hash (λ i. pos 9) none process nothing new_node)))
    ≡ returns (
        shown new_node.manager.role
          (Store.len lru_policy Node (pos 9) nothing)
          process.uptime
          new_node
          (bytes "a")
          (bytes "h:1"))
unfolding nothing default_config new_replica_manager Store.len info_text stats format_nat format_int
    info role_text
poll_node-info_example =
    poll_node-info lru_policy hash (λ i. pos 9) none process nothing new_node 1000 1000 (bytes "a")
      (bytes "h:1") (ground arith, refl, refl) (λ e. absurd (ground arith))
      (omega arith, omega arith) (omega arith, omega arith) (omega arith) (omega arith)
      (omega arith)
