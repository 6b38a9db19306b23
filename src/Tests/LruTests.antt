-- ===== src/Tests/LruTests.antt =====
-- internal/store/lru.go and internal/store/entry.go at concrete inputs.
use vortex_kv_cache.Base.{◌≡◌, ◌≟◌, ◌&&◌, if◌then◌else◌, refl, some, List, [], ◌∷◌, bytes, arith}
use vortex_kv_cache.Base.Int.{ℤ, pos, negsuc, ltb_ℤ, leb_ℤ, ◌+ℤ◌, ◌-ℤ◌}
use vortex_kv_cache.Entry.{new_entry, is_expired, remaining_ttl}
use vortex_kv_cache.Entry.Expiry.{InRange, lifetime-new_entry}
use vortex_kv_cache.Lru.{new_lru_policy, select_evict}
use vortex_kv_cache.Lru.History.{
  Call, use_all, run, Represents, new_lru_policy-Represents, run-Represents,
}

abbrev calls : List Call
calls =
    Call.set (bytes "a")
    ∷ Call.set (bytes "b")
    ∷ Call.get (bytes "a")
    ∷ Call.set (bytes "c")
    ∷ Call.del (bytes "c")
    ∷ []

run-Represents_example : Represents (run new_lru_policy calls) (use_all [] calls)
run-Represents_example = run-Represents new_lru_policy [] calls new_lru_policy-Represents

order_after : use_all [] calls ≡ bytes "a" ∷ bytes "b" ∷ []
unfolding use_all ◌≟◌
order_after = refl

evicts_b : select_evict (run new_lru_policy calls) ≡ some (bytes "b")
unfolding run new_lru_policy select_evict ◌≟◌
evicts_b = refl

abbrev second : ℤ
second = pos 1_000_000_000

abbrev noon : ℤ
noon = pos 1_700_000_000_000_000_000

noon-InRange : InRange second noon
unfolding ◌+ℤ◌
noon-InRange = record { after_epoch = omega arith; no_overflow = omega arith }

lifetime-new_entry_example :
    (is_expired (new_entry (bytes "v") second noon) noon
      ≡ (ltb_ℤ (pos 0) second && leb_ℤ (noon +ℤ second) noon))
    × (remaining_ttl (new_entry (bytes "v") second noon) noon ≡ (
        if ltb_ℤ (pos 0) second
        then (if leb_ℤ (noon +ℤ second) noon then pos 0 else (noon +ℤ second) -ℤ noon)
        else negsuc 0))
lifetime-new_entry_example =
    lifetime-new_entry (bytes "v") second noon noon noon-InRange (omega arith)
