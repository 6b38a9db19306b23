-- ===== src/Tests/ReplicationTests.antt =====
-- internal/replication at concrete inputs.
use vortex_kv_cache.Base.{none, some, ◌≡◌, refl, [], ◌∷◌, bytes, arith}
use vortex_kv_cache.Base.{List, Bool, true, false}
use vortex_kv_cache.Base.Int.{ℤ, pos, mul64}
use vortex_kv_cache.Lru.Contract.{lru_policy, lru_laws}
use vortex_kv_cache.Store
use vortex_kv_cache.Resp.Value.{new_bulk_string_from_string, new_bulk_string}
use vortex_kv_cache.Server.Args.{seconds, second}
use vortex_kv_cache.Replication.Master.{set_words}
use vortex_kv_cache.Replication.Stream.{whole_milliseconds, done, apply_event, replica_follows}
use vortex_kv_cache.Replication.Failover.{
  start as start_monitor, ticks, has_run, monitor_loop, new_failover_monitor,
  default_failover_config, monitor_loop_triggers,
}
use vortex_kv_cache.Replication.Replica.{apply_master_command}
use vortex_kv_cache.Replication.Safety.{apply_master_command-Returns}
use vortex_kv_cache.Store.Operations.{Returns}
use vortex_kv_cache.Resp.Value.{end}
use vortex_kv_cache.Server.SetGet.{set_command}
use vortex_kv_cache.Tests.StoreTests.{W, hash, start, start-IsValid}

-- a lifetime below a millisecond is not sent
short_lifetime :
    set_words (bytes "k") (some (bytes "v")) (pos 999_999)
    ≡ new_bulk_string_from_string (bytes "SET")
      ∷ new_bulk_string_from_string (bytes "k")
      ∷ new_bulk_string (some (bytes "v"))
      ∷ []
unfolding set_words
short_lifetime = refl

replica_follows_example :
    (apply_event lru_policy W hash (pos 7) start [] (record {
      cmd_name = bytes "SET";
      key = bytes "k";
      val = some (bytes "v");
      ttl = pos 1_500_000;
    })
      ≡ done lru_policy W hash (pos 7) start [] (
          Store.set lru_policy W hash
            (bytes "k")
            (bytes "v")
            (whole_milliseconds (pos 1_500_000))
            (pos 7)
            start
            []))
    × (apply_event lru_policy W hash
          (pos 7)
          start
          []
          (record { cmd_name = bytes "DEL"; key = bytes "k"; val = none; ttl = pos 1_500_000 })
        ≡ done lru_policy W hash
            (pos 7)
            start
            []
            (Store.delete lru_policy W hash (bytes "k") start []))
    × (apply_event lru_policy W hash
          (pos 7)
          start
          []
          (record { cmd_name = bytes "EXPIRE"; key = bytes "k"; val = none; ttl = pos 1_500_000 })
        ≡ done lru_policy W hash (pos 7) start [] (
            Store.expire lru_policy W hash
              (bytes "k")
              (mul64 (seconds (pos 1_500_000)) second)
              (pos 7)
              start
              []))
replica_follows_example =
    replica_follows lru_policy W hash (pos 7) start [] (bytes "k") (bytes "v") (pos 1_500_000)
      (omega arith, omega arith)

-- a beat, then three failures
abbrev beats : List (Bool × ℤ)
beats = (true, pos 100) ∷ (false, pos 200) ∷ (false, pos 300) ∷ (false, pos 400) ∷ []

triggered : has_run 3 beats ≡ true
triggered = refl

monitor_loop_triggers_example :
    (monitor_loop
      (ticks beats)
      (start_monitor (new_failover_monitor (default_failover_config (bytes "m:1"))))).1
    ≡ has_run 3 beats
monitor_loop_triggers_example =
    monitor_loop_triggers 2 (default_failover_config (bytes "m:1")) beats
      (unfold default_failover_config in refl)

apply_master_command-Returns_example :
    Returns lru_laws hash
      (λ r. r.0)
      (apply_master_command lru_policy W hash
        (pos 7)
        (set_command (bytes "k") (bytes "v") end)
        start
        [])
apply_master_command-Returns_example =
    apply_master_command-Returns lru_laws hash (pos 7) (set_command (bytes "k") (bytes "v") end)
      start [] start-IsValid
