-- ===== src/Server/Args.antt =====
-- internal/server/handler.go: what the handlers make of their arguments, and of the result of `TTL`.
use Prim.Native.Nat.{◌+◌, ◌-◌, ◌*◌, ◌/◌, ◌%◌}
use vortex_kv_cache.Base.{
  ℕ, zero, suc, ◌^◌, ◌==◌, ltb, leb, if◌then◌else◌, Option, none, some, Bool, true, false, ◌&&◌,
  ◌||◌, not, List, [], ◌∷◌, ◌++◌, Bytes, bytes, ◌≟◌, to_upper,
}
use vortex_kv_cache.Base.Int.{ℤ, pos, negsuc, sub_ℕ, leb_ℤ, ltb_ℤ, eqb_ℤ, mul64}
use vortex_kv_cache.Store.{millisecond}
use vortex_kv_cache.Resp.Value.{
  Value, Slice, Values, value, nil_slice, slice, end, cons, type_bulk_string, new_simple_string,
  new_error, new_integer, new_bulk_string_from_string,
}
use vortex_kv_cache.Resp.Decimal.{parse_int}

abbrev pub second : ℤ
second = pos 1_000_000_000

abbrev pub elements : Slice → List Value
elements nil_slice = []
elements (slice vs) = listed vs
  where
    listed : Values → List Value
    listed end = []
    listed (cons v vs) = v ∷ listed vs

unfoldable pub extract_string : Value → Bytes
extract_string (value typ str num bulk array nil) =
    if typ == type_bulk_string then elim bulk [ none ↦ [] | some b ↦ b ] else str

abbrev pub wrong_number : Bytes → Value
unfolding new_error
wrong_number command =
    new_error (bytes "ERR wrong number of arguments for '" ++ command ++ bytes "' command")

unfoldable pub handle_ping : List Value → Value
unfolding extract_string new_simple_string new_bulk_string_from_string
handle_ping [] = new_simple_string (bytes "PONG")
handle_ping (arg ∷ []) = new_bulk_string_from_string (extract_string arg)
handle_ping (arg ∷ more ∷ args) = wrong_number (bytes "ping")

-- what the loop over the flags of `SET` ends with
pub data Flags : Type 0 where
  refused : Bytes → Flags
  lifetime : ℤ → Flags

-- the number behind `EX` or `PX`, in the unit of the flag; the product wraps
unfoldable pub flag_lifetime : Bool → Bytes → Option ℤ
unfolding parse_int mul64
flag_lifetime is_ex num_str = elim (parse_int num_str) [
  | none ↦ none
  | some num ↦
      if leb_ℤ num (pos 0) then none else some (mul64 num (if is_ex then second else millisecond))
]

unfoldable pub set_flags : List Value → ℤ → Flags
unfolding extract_string to_upper ◌≟◌ flag_lifetime
set_flags [] ttl = lifetime ttl
set_flags (arg ∷ []) ttl =
    let flag = to_upper (extract_string arg) in
    if (flag ≟ bytes "EX") || (flag ≟ bytes "PX")
    then refused (bytes "ERR syntax error")
    else lifetime ttl
set_flags (arg ∷ num ∷ args) ttl =
    let flag = to_upper (extract_string arg) in
    elim ((flag ≟ bytes "EX") || (flag ≟ bytes "PX")) [
      | false ↦ set_flags (num ∷ args) ttl
      | true ↦ elim (flag_lifetime (flag ≟ bytes "EX") (extract_string num)) [
        | none ↦ refused (bytes "ERR value is not an integer or out of range")
        | some ttl' ↦ set_flags args ttl'
      ]
    ]

-- `args[1].Bulk`, or `args[1].Str` where that is nil
unfoldable pub payload : Value → Bytes
payload (value typ str num bulk array nil) = elim bulk [ none ↦ str | some b ↦ b ]

abbrev pub read_only_error : Value
unfolding new_error
read_only_error = new_error (bytes "READONLY You can't write against a read only replica.")

abbrev pub range_error : Value
unfolding new_error
range_error = new_error (bytes "ERR value is not an integer or out of range")

-- the greatest power of two up to `n`, or 1; 64 rounds are enough for an int64
unfoldable pub high_bit : ℕ → ℕ → ℕ
high_bit zero n = 1
high_bit (suc fuel) n = elim (ltb n 2) [ true ↦ 1 | false ↦ 2 * high_bit fuel (n / 2) ]

-- `int64(d.Seconds())` at a `d` of `n` nanoseconds: the sum of the seconds and of the fraction,
-- in float64, is cut. Near the end of a second the fraction, and then the sum, can be rounded up
-- to the next second; the condition compares the rest of the second with half the distance
-- between the float64 numbers there.
unfoldable pub whole_seconds : ℕ → ℕ
unfolding high_bit
whole_seconds n =
    let sec = n / 10 ^ 9 in
    let nsec = n % 10 ^ 9 in
    if ltb 0 sec && leb ((10 ^ 9 - nsec) * 2 ^ 54) (10 ^ 9 * (2 * high_bit 64 sec + 1))
    then sec + 1
    else sec

unfoldable pub seconds : ℤ → ℤ
unfolding whole_seconds
seconds (pos n) = pos (whole_seconds n)
seconds (negsuc n) = sub_ℕ 0 (whole_seconds (suc n))

-- the reply of `TTL` to what the store found
unfoldable pub ttl_reply : ℤ → Bool → Value
unfolding new_integer seconds
ttl_reply remaining found =
    if not found || eqb_ℤ remaining (negsuc 1)
    then new_integer (negsuc 1)
    else if eqb_ℤ remaining (negsuc 0)
    then new_integer (negsuc 0)
    else if eqb_ℤ (seconds remaining) (pos 0) && ltb_ℤ (pos 0) remaining
    then new_integer (pos 1)
    else new_integer (seconds remaining)
