-- ===== src/Tests/StoreTests.antt =====
-- internal/store/store.go at concrete inputs: a listener that records the writes.
use vortex_kv_cache.Base.{
  ℕ, ◌≤◌, ◌<◌, ◌^◌, ◌≡◌, ◌≟◌, ◌&&◌, ◌↔◌, refl, none, some, Bool, true, false, List, [], ◌∷◌, Bytes,
  bytes, arith, if◌then◌else◌, is_some, length, replicate,
}
use vortex_kv_cache.Base.Int.{pos}
use vortex_kv_cache.Entry.{new_entry}
use vortex_kv_cache.Lru.Contract.{lru_policy, lru_laws}
use vortex_kv_cache.Shard
use vortex_kv_cache.Shard.{new_shard}
use vortex_kv_cache.Shard.View.{seen, lifetime_of, value_of, is_key}
use vortex_kv_cache.Store.{
  Config, Store, WriteEvent, new_store, notify_write, set, get, delete, exists, expire, ttl,
  snapshot, len, on_write, panic, returns,
}
use vortex_kv_cache.Base.Dict.{lookup, Distinct}
use vortex_kv_cache.Store.Listed.{listing, listed, listing-snapshot}
use vortex_kv_cache.Store.Invariant.{IsValid}
use vortex_kv_cache.Store.Cycle.{Tick, active_expire_loop}
use vortex_kv_cache.Store.Sweeping.{Shows, active_expire_loop-Gives}
use vortex_kv_cache.Store.Sweeper.{Gives}
use vortex_kv_cache.Store.Operations.{Returns, keeps, set-Returns}
use vortex_kv_cache.Store.Routing.{new_store_iff}
use vortex_kv_cache.Store.Runs.{Call, run, new_store-IsValid, new_store-run}
use vortex_kv_cache.Store.Seen.{Ends, store_see, store_has, store_evicted, together}
use vortex_kv_cache.Store.View.{set-Ends, reads-Ends, delete-Ends, expire-Ends}

abbrev pub W : Type 0
W = List WriteEvent

abbrev pub hash : Bytes → ℕ
hash k = length k

abbrev cfg : Config
cfg = record {
  shard_count = pos 2;
  max_keys_per_shard = pos 1;
  eviction_factory = true;
  active_sweep_interval = pos 100_000_000;
  active_sweep_sample_size = pos 20;
  active_sweep_max_cpu = pos 1_000_000;
}

record_write : WriteEvent → W → W
record_write e w = e ∷ w

abbrev pub start : Store lru_policy W
start = record {
  cfg = cfg;
  shards = replicate 2 (new_shard lru_policy (pos 1) true);
  shard_mask = 1;
  closed = false;
  on_write_hooks = [];
}

made : new_store lru_policy W 16 cfg ≡ returns (some start)
unfolding new_store
made = refl

pub start-IsValid : IsValid lru_laws hash start
start-IsValid = new_store-IsValid lru_laws hash 16 cfg start made

abbrev calls : List (Call W)
calls =
    Call.listen record_write
    ∷ Call.set (bytes "a") (bytes "1") (pos 5) (pos 100)
    ∷ Call.set (bytes "bb") (bytes "2") (pos 0) (pos 101)
    ∷ Call.get (bytes "a") (pos 106)
    ∷ Call.delete (bytes "bb")
    ∷ Call.close
    ∷ []

new_store-run_example : Returns lru_laws hash (λ r. r.0) (run lru_policy W hash calls (start, []))
new_store-run_example = new_store-run lru_laws hash 16 cfg start calls [] made

new_store_iff_example :
    (((s : Store lru_policy W) × (new_store lru_policy W 1 cfg ≡ returns (some s)))
      ↔ ((k : ℕ) × (cfg.shard_count ≡ pos (2 ^ k)) × (2 ^ k ≤ 1)))
    × ((new_store lru_policy W 1 cfg ≡ panic)
        ↔ ((k : ℕ) × (cfg.shard_count ≡ pos (2 ^ k)) × (1 < 2 ^ k)))
new_store_iff_example = new_store_iff lru_policy W 1 cfg

-- the store after one `SET a 1` with a lifetime of 5
abbrev one : Store lru_policy W
one = record start {
  shards =
      new_shard lru_policy (pos 1) true
      ∷ Shard.set lru_policy (bytes "a") (bytes "1") (pos 5) (pos 100)
          (new_shard lru_policy (pos 1) true)
      ∷ [];
}

one_made :
    set lru_policy W hash (bytes "a") (bytes "1") (pos 5) (pos 100) start []
    ≡ returns (one, [], true)
unfolding set
one_made = refl

IsValid-of :
    {A : Type 0} {f : A → Store lru_policy W} (a : A)
    → Returns lru_laws hash f (returns a)
    → IsValid lru_laws hash (f a)
IsValid-of a (keeps b v) = v

one-IsValid : IsValid lru_laws hash one
one-IsValid =
    let r =
      set-Returns lru_laws hash (bytes "a") start start-IsValid (bytes "1") (pos 5) (pos 100) [] in
    IsValid-of {f = λ (t : Store lru_policy W × W × Bool). t.0} (one, [], true) (rw one_made at r)

set-Ends_example :
    Ends
      (λ r.
        (r.2 ≡ true)
        × (r.1
            ≡ notify_write lru_policy W one
                (record {
                  cmd_name = bytes "SET";
                  key = bytes "ccc";
                  val = some (bytes "3");
                  ttl = pos 0;
                })
                [])
        × (store_see hash (pos 104) r.0 (bytes "a") ≡ (
            if bytes "ccc" ≟ bytes "a"
            then seen (pos 104) (some (new_entry (bytes "3") (pos 0) (pos 103)))
            else if together hash one (bytes "ccc") (bytes "a")
                && is_key (store_evicted hash (bytes "ccc") one) (bytes "a")
            then none
            else store_see hash (pos 104) one (bytes "a"))))
      (set lru_policy W hash (bytes "ccc") (bytes "3") (pos 0) (pos 103) one [])
set-Ends_example =
    set-Ends lru_laws hash (bytes "ccc") one one-IsValid refl (bytes "3") (pos 0) (pos 103)
      (pos 104) [] (bytes "a")

reads-Ends_example :
    Ends
      (λ r.
        (r.1 ≡ value_of (store_see hash (pos 103) one (bytes "a")))
        × (store_see hash (pos 104) r.0 (bytes "a") ≡ store_see hash (pos 104) one (bytes "a")))
      (get lru_policy W hash (bytes "a") (pos 103) one)
    × Ends
        (λ r.
          (r.1 ≡ is_some (store_see hash (pos 103) one (bytes "a")))
          × (store_see hash (pos 104) r.0 (bytes "a") ≡ store_see hash (pos 104) one (bytes "a")))
        (exists lru_policy W hash (bytes "a") (pos 103) one)
    × Ends
        (λ r.
          (r.1 ≡ lifetime_of (pos 103) (store_see hash (pos 103) one (bytes "a")))
          × (r.2 ≡ is_some (store_see hash (pos 103) one (bytes "a")))
          × (store_see hash (pos 104) r.0 (bytes "a") ≡ store_see hash (pos 104) one (bytes "a")))
        (ttl lru_policy W hash (bytes "a") (pos 103) one)
reads-Ends_example =
    reads-Ends lru_laws hash (bytes "a") one one-IsValid refl (pos 103) (pos 104) (bytes "a")
      (omega arith)

listing-snapshot_example :
    (lookup (bytes "a") (listing (snapshot lru_policy W (pos 103) one))
      ≡ listed (pos 103) (store_see hash (pos 103) one (bytes "a")))
    × Distinct (listing (snapshot lru_policy W (pos 103) one))
    × (len lru_policy W (pos 103) one ≡ length (snapshot lru_policy W (pos 103) one))
listing-snapshot_example = listing-snapshot lru_laws hash one (pos 103) (bytes "a") one-IsValid refl

one_listed :
    snapshot lru_policy W (pos 103) one
    ≡ record { key = bytes "a"; value = bytes "1"; ttl = pos 2 } ∷ []
unfolding snapshot new_shard Shard.set
one_listed = refl

delete-Ends_example :
    Ends
      (λ r.
        (r.2 ≡ store_has hash one (bytes "a"))
        × (r.1 ≡ (
            if r.2
            then notify_write lru_policy W one
                (record { cmd_name = bytes "DEL"; key = bytes "a"; val = none; ttl = pos 0 })
                []
            else []))
        × (store_see hash (pos 104) r.0 (bytes "a")
            ≡ (if bytes "a" ≟ bytes "a" then none else store_see hash (pos 104) one (bytes "a"))))
      (delete lru_policy W hash (bytes "a") one [])
delete-Ends_example =
    delete-Ends lru_laws hash (bytes "a") one one-IsValid refl (pos 104) [] (bytes "a")

expire-Ends_example :
    Ends
      (λ r.
        (r.2 ≡ is_some (store_see hash (pos 103) one (bytes "a")))
        × (r.1 ≡ (
            if r.2
            then notify_write lru_policy W one
                (record { cmd_name = bytes "EXPIRE"; key = bytes "a"; val = none; ttl = pos 9 })
                []
            else []))
        × (store_see hash (pos 104) r.0 (bytes "a") ≡ (
            if bytes "a" ≟ bytes "a"
            then elim (store_see hash (pos 103) one (bytes "a")) [
              | none ↦ none
              | some (x, _) ↦ seen (pos 104) (some (new_entry x (pos 9) (pos 103)))
            ]
            else store_see hash (pos 104) one (bytes "a"))))
      (expire lru_policy W hash (bytes "a") (pos 9) (pos 103) one [])
expire-Ends_example =
    expire-Ends lru_laws hash (bytes "a") one one-IsValid refl (pos 9) (pos 103) (pos 104) []
      (bytes "a") (omega arith)

-- a listener is added between two cycles
abbrev ticks : List (Tick lru_policy W)
ticks =
    record { others = λ s. s; clock = λ i. pos 101; order = λ i. [] }
    ∷ record {
      others = on_write lru_policy W record_write;
      clock = λ i. pos 150;
      order = λ i. bytes "a" ∷ [];
    }
    ∷ []

on_write_shows :
    (s : Store lru_policy W)
    → IsValid lru_laws hash s
    → Shows lru_laws (pos 200) hash (bytes "a") s (on_write lru_policy W record_write s)
unfolding on_write
on_write_shows s v = (
  record { bits = v.bits; count = v.count; mask = v.mask; shards = v.shards; placed = v.placed },
  refl,
)

active_expire_loop-Gives_example :
    Gives lru_laws
      (pos 200)
      (Shows lru_laws (pos 200) hash (bytes "a") one)
      (active_expire_loop lru_policy W ticks one)
active_expire_loop-Gives_example =
    active_expire_loop-Gives lru_laws (pos 200) hash (bytes "a") ticks one
      (
        record { past = λ i. omega arith; keep = λ s v. (v, refl) },
        (record { past = λ i. omega arith; keep = on_write_shows }, tt),
      )
      one-IsValid
