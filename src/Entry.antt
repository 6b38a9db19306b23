-- ===== src/Entry.antt =====
-- internal/store/entry.go. A time is an `int64` of Unix nanoseconds, a duration an `int64` of
-- nanoseconds; sums wrap.
pub mod Expiry
use vortex_kv_cache.Base.{Bytes, Bool, false, if◌then◌else◌}
use vortex_kv_cache.Base.Int.{ℤ, pos, negsuc, ltb_ℤ, leb_ℤ, eqb_ℤ, add64, sub64}

pub record Entry : Type 0 where
  pub value : Bytes
  pub created_at : ℤ
  pub accessed_at : ℤ
  pub expires_at : ℤ

-- `now + ttl.Nanoseconds()`, or 0 for no expiration
unfoldable pub deadline : ℤ → ℤ → ℤ
unfolding add64
deadline ttl now = if ltb_ℤ (pos 0) ttl then add64 now ttl else pos 0

unfoldable pub new_entry : Bytes → ℤ → ℤ → Entry
unfolding deadline
new_entry val ttl now = record {
  value = val;
  created_at = now;
  accessed_at = now;
  expires_at = deadline ttl now;
}

unfoldable pub is_expired : Entry → ℤ → Bool
is_expired e now = if eqb_ℤ e.expires_at (pos 0) then false else leb_ℤ e.expires_at now

unfoldable pub remaining_ttl : Entry → ℤ → ℤ
unfolding sub64
remaining_ttl e now =
    if eqb_ℤ e.expires_at (pos 0)
    then negsuc 0
    else if leb_ℤ e.expires_at now
    then pos 0
    else sub64 e.expires_at now
