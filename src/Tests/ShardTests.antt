-- ===== src/Tests/ShardTests.antt =====
-- internal/store/shard.go at concrete inputs, with the LRU policy.
use vortex_kv_cache.Base.{
  ◌+◌, ◌≤◌, ◌≟◌, ◌≡◌, if◌then◌else◌, refl, none, some, true, false, List, [], ◌∷◌, Bytes, bytes,
  arith, length,
}
use vortex_kv_cache.Base.Int.{pos, ◌≤ℤ◌}
use vortex_kv_cache.Base.Dict.{lookup, Distinct}
use vortex_kv_cache.Entry.{new_entry, is_expired}
use vortex_kv_cache.Lru.{new_lru_policy, on_set}
use vortex_kv_cache.Lru.Contract.{lru_policy, lru_laws}
use vortex_kv_cache.Lru.History.{
  Call, mem, use_key, last?, step, new_lru_policy-Represents, step-Represents,
}
use vortex_kv_cache.Shard.{Shard, new_shard, is_full, set, active_sweep, len}
use vortex_kv_cache.Shard.Invariant.{IsValid, new_shard-IsValid}
use vortex_kv_cache.Shard.Interleaving.{Section, enact_all, enact_all-IsValid}
use vortex_kv_cache.Shard.Recency.{Recent, without_last, lru_eviction}
use vortex_kv_cache.Shard.Purge.{active_sweep_counts, active_sweep_purges, see-active_sweep}
use vortex_kv_cache.Shard.View.{see, is_key}

abbrev start : Shard lru_policy
start = new_shard lru_policy (pos 1) true

abbrev sections : List Section
sections =
    Section.set (bytes "a") (bytes "1") (pos 5) (pos 100)
    ∷ Section.get_read (bytes "a") (pos 101)
    ∷ Section.set (bytes "b") (bytes "2") (pos 0) (pos 102)
    ∷ Section.touch_present (bytes "a")
    ∷ []

enact_all-IsValid_example : IsValid lru_laws (enact_all lru_policy sections start)
enact_all-IsValid_example =
    enact_all-IsValid lru_laws sections start (new_shard-IsValid lru_laws (pos 1) true)

-- one key, which expires at 105
abbrev one : Shard lru_policy
one = record {
  items = (bytes "a", new_entry (bytes "1") (pos 5) (pos 100)) ∷ [];
  max_keys = pos 1;
  eviction = some (on_set (bytes "a") new_lru_policy);
}

one-Recent : Recent one (bytes "a" ∷ [])
unfolding step use_key
one-Recent = record {
  policy = on_set (bytes "a") new_lru_policy;
  there = refl;
  order = step-Represents new_lru_policy [] (Call.set (bytes "a")) new_lru_policy-Represents;
}

one_full : is_full lru_policy one ≡ true
unfolding is_full
one_full = refl

no_b : lookup (bytes "b") one.items ≡ none
unfolding lookup ◌≟◌
no_b = refl

lru_eviction_example :
    let s' = set lru_policy (bytes "b") (bytes "2") (pos 0) (pos 101) one in
    (lookup (bytes "a") s'.items ≡ (
      if bytes "b" ≟ bytes "a"
      then some (new_entry (bytes "2") (pos 0) (pos 101))
      else if is_key (last? (bytes "a" ∷ [])) (bytes "a")
      then none
      else lookup (bytes "a") one.items))
    × Recent s' (use_key (without_last (bytes "a" ∷ [])) (Call.set (bytes "b")))
lru_eviction_example =
    lru_eviction one (bytes "a" ∷ []) one-Recent one_full (bytes "b") (bytes "2") (pos 0) (pos 101)
      (bytes "a") no_b

one-Distinct : Distinct one.items
unfolding lookup
one-Distinct = (refl, tt)

abbrev order : List Bytes
order = bytes "a" ∷ []

active_sweep_counts_example :
    (length (active_sweep lru_policy (pos 20) (pos 105) order one).0.items
        + (active_sweep lru_policy (pos 20) (pos 105) order one).1
      ≡ length one.items)
    × ((active_sweep lru_policy (pos 20) (pos 105) order one).1
        ≤ (active_sweep lru_policy (pos 20) (pos 105) order one).2)
    × (pos (active_sweep lru_policy (pos 20) (pos 105) order one).2 ≤ℤ pos 20)
    × (len lru_policy (pos 105) (active_sweep lru_policy (pos 20) (pos 105) order one).0
        ≡ len lru_policy (pos 105) one)
active_sweep_counts_example =
    active_sweep_counts (pos 20) (pos 105) order one one-Distinct (omega arith)

see-active_sweep_example :
    see (pos 106) (active_sweep lru_policy (pos 20) (pos 105) order one).0 (bytes "a")
    ≡ see (pos 106) one (bytes "a")
see-active_sweep_example =
    see-active_sweep (pos 20) (pos 105) order one (bytes "a") (pos 106) (omega arith)

-- a sweep at 104 leaves the entry
kept :
    lookup (bytes "a") (active_sweep lru_policy (pos 20) (pos 104) order one).0.items
    ≡ some (new_entry (bytes "1") (pos 5) (pos 100))
unfolding active_sweep new_entry ◌≟◌
kept = refl

active_sweep_purges_example : is_expired (new_entry (bytes "1") (pos 5) (pos 100)) (pos 104) ≡ false
active_sweep_purges_example =
    active_sweep_purges (pos 20) (pos 104) order one (bytes "a")
      (new_entry (bytes "1") (pos 5) (pos 100)) (omega arith) (unfold mem ◌≟◌ in refl) kept
