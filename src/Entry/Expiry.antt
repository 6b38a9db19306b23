-- ===== src/Entry/Expiry.antt =====
-- When an entry expires.
use vortex_kv_cache.Base.{Bytes, true, ◌&&◌, ◌≡◌, arith, if◌then◌else◌}
use vortex_kv_cache.Base.Int.{
  ℤ, pos, negsuc, ltb_ℤ, leb_ℤ, ◌≤ℤ◌, ◌+ℤ◌, ◌-ℤ◌, IsInt64, add64_exact, sub64_exact, +ℤ_parts,
  -ℤ_parts,
}
use vortex_kv_cache.Entry.{Entry, new_entry, deadline, is_expired, remaining_ttl}

-- A clock reading after 1970 and a lifetime that do not overflow together.
pub record InRange (ttl now : ℤ) : Type 0 where
  pub after_epoch : pos 0 ≤ℤ now
  pub no_overflow : IsInt64 (now +ℤ ttl)

-- If the time of creation is not negative and its sum with the lifetime does not overflow, then an
-- entry is expired at some time exactly if its lifetime is positive and that time is not before
-- the sum.
pub is_expired-new_entry :
    (val : Bytes) (ttl now later : ℤ)
    → InRange ttl now
    → is_expired (new_entry val ttl now) later ≡ (ltb_ℤ (pos 0) ttl && leb_ℤ (now +ℤ ttl) later)
unfolding is_expired new_entry deadline
is_expired-new_entry val ttl now later r =
    ground (arith, add64_exact now ttl r.no_overflow, +ℤ_parts now ttl)

-- Once expired, always expired.
pub is_expired_mono :
    (e : Entry) (now later : ℤ) → now ≤ℤ later → is_expired e now ≡ true → is_expired e later ≡ true
unfolding is_expired
is_expired_mono e now later h x = ground arith

-- If the times of creation and of the question are not negative and the sum of the time of
-- creation and the lifetime does not overflow, then what remains of the lifetime is -1 for an
-- entry without a lifetime, 0 if the sum is not after the time of the question, and the difference
-- otherwise.
pub remaining_ttl-new_entry :
    (val : Bytes) (ttl now later : ℤ)
    → InRange ttl now
    → pos 0 ≤ℤ later
    → remaining_ttl (new_entry val ttl now) later ≡ (
        if ltb_ℤ (pos 0) ttl
        then (if leb_ℤ (now +ℤ ttl) later then pos 0 else (now +ℤ ttl) -ℤ later)
        else negsuc 0)
unfolding remaining_ttl new_entry deadline
remaining_ttl-new_entry val ttl now later r h =
    let d = now +ℤ ttl in
    ground (
      arith,
      add64_exact now ttl r.no_overflow,
      +ℤ_parts now ttl,
      sub64_exact d later,
      -ℤ_parts d later,
    )

-- If the times of creation and of the question are not negative and the sum of the time of
-- creation and the lifetime does not overflow, then an entry is expired at the time of the
-- question exactly if its lifetime is positive and that time is not before the sum, and what
-- remains of the lifetime is -1 for an entry without a lifetime, 0 if the sum is not after the
-- time of the question, and the difference otherwise.
pub lifetime-new_entry :
    (val : Bytes) (ttl now later : ℤ)
    → InRange ttl now
    → pos 0 ≤ℤ later
    → (is_expired (new_entry val ttl now) later ≡ (ltb_ℤ (pos 0) ttl && leb_ℤ (now +ℤ ttl) later))
      × (remaining_ttl (new_entry val ttl now) later ≡ (
          if ltb_ℤ (pos 0) ttl
          then (if leb_ℤ (now +ℤ ttl) later then pos 0 else (now +ℤ ttl) -ℤ later)
          else negsuc 0))
lifetime-new_entry val ttl now later r h =
    (is_expired-new_entry val ttl now later r, remaining_ttl-new_entry val ttl now later r h)
