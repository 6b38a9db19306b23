-- ===== src/Server/Lifetimes.antt =====
-- internal/server/handler.go: the lifetimes that clients give and get.
use Prim.Native.Nat.{◌+◌, ◌-◌, ◌*◌, ◌/◌, ◌%◌}
use vortex_kv_cache.Base.{
  ℕ, zero, suc, ◌<◌, ◌≤◌, ◌^◌, ◌==◌, ltb, leb, if◌then◌else◌, some, Bool, true, false, ◌≡◌, arith,
  Bool-cases, inl, inr,
}
use vortex_kv_cache.Base.Int.{pos, mul64, wrap, ◌*ℤ◌}
use vortex_kv_cache.Resp.Value.{new_integer}
use vortex_kv_cache.Resp.Decimal.{format_nat, format_int, parse_int, parse-format}
use vortex_kv_cache.Server.Args.{flag_lifetime, high_bit, whole_seconds, seconds, ttl_reply}

high_bit-le : (fuel n : ℕ) → 0 < n → high_bit fuel n ≤ n
unfolding high_bit
high_bit-le zero n h = omega arith
high_bit-le (suc fuel) n h = elim (Bool-cases (ltb n 2)) [
  | inl small ↦ rw (small, high_bit) (omega arith)
  | inr large ↦
      let half : 0 < n / 2 = ground arith in
      rw (large, high_bit) (omega (arith, high_bit-le fuel (n / 2) half))
]

-- Below 2^23 seconds nothing is rounded up.
whole_seconds_exact : (n : ℕ) → n < 2 ^ 23 * 10 ^ 9 → whole_seconds n ≡ n / 10 ^ 9
unfolding whole_seconds
whole_seconds_exact n h = elim (Bool-cases (ltb 0 (n / 10 ^ 9))) [
  | inl some_seconds ↦
      let sec = n / 10 ^ 9 in
      let pos_sec : 0 < sec = ground arith in
      let small = high_bit-le 64 sec pos_sec in
      let bound : sec < 2 ^ 23 = omega arith in
      let far : leb ((10 ^ 9 - n % 10 ^ 9) * 2 ^ 54) (10 ^ 9 * (2 * high_bit 64 sec + 1)) ≡ false =
        ground arith in
      rw (some_seconds, far)
  | inr none_left ↦ rw none_left
]

-- If the store finds a key with fewer than 2^23 seconds left, then `TTL` replies with the whole
-- seconds that are left, with 1 if there is less than a second but some time left, and with 0 if
-- there is none.
pub ttl_reply_exact :
    (n : ℕ)
    → n < 2 ^ 23 * 10 ^ 9
    → ttl_reply (pos n) true
      ≡ new_integer (pos (if n == 0 then 0 else if ltb n (10 ^ 9) then 1 else n / 10 ^ 9))
unfolding ttl_reply seconds
ttl_reply_exact n h = rw (whole_seconds_exact n h) (ground arith)

abbrev pub unit_of : Bool → ℕ
unit_of is_ex = if is_ex then 1_000_000_000 else 1_000_000

-- If the number of an `EX` or `PX` flag is positive and its product with the nanoseconds of the
-- unit is below 2^63, then its decimal text is read as exactly that product.
pub flag_lifetime-format :
    (is_ex : Bool) (n : ℕ)
    → 0 < n
    → n * unit_of is_ex < 2 ^ 63
    → flag_lifetime is_ex (format_nat n) ≡ some (pos (n * unit_of is_ex))
unfolding flag_lifetime mul64 wrap ◌*ℤ◌
flag_lifetime-format true n p h =
    let read : parse_int (format_nat n) ≡ some (pos n) =
      unfold format_int in parse-format (pos n) (omega arith, omega arith) in
    rw (read, flag_lifetime) (ground arith)
flag_lifetime-format false n p h =
    let read : parse_int (format_nat n) ≡ some (pos n) =
      unfold format_int in parse-format (pos n) (omega arith, omega arith) in
    rw (read, flag_lifetime) (ground arith)
