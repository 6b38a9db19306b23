-- ===== src/Dashboard/Numbers.antt =====
-- `strconv.ParseInt` with its error dropped, on the decimal text of an int64.
use Prim.Native.Nat.{◌+◌, ◌-◌, ◌*◌}
use vortex_kv_cache.Base.{
  ℕ, suc, ◌≤◌, ◌<◌, ◌^◌, ◌==◌, ltb, leb, none, some, false, ◌||◌, ◌≡◌, ◌∙◌, sym, refl, [], ◌∷◌,
  Bytes, arith, Bool-cases, inl, inr,
}
use vortex_kv_cache.Base.Int.{ℤ, pos, negsuc, IsInt64}
use vortex_kv_cache.Resp.Decimal
use vortex_kv_cache.Resp.Decimal.{
  scan_digits, format_nat, format_int, StartsDigit, format_nat-StartsDigit, scan-format_nat,
}
use vortex_kv_cache.Dashboard.Strings.{scan_uint, clamp_pos, scan_digits_uint, parse_number}

-- what the digits spell is not below what stands before them
scan_digits-le : (s : Bytes) (n m : ℕ) → scan_digits s n ≡ some m → n ≤ m
unfolding scan_digits
scan_digits-le [] n m h = let q : n ≡ m = cc in omega arith
scan_digits-le (c ∷ s) n m h = elim (Bool-cases (ltb c b'0' || ltb b'9' c)) [
  | inl bad ↦ let q : scan_digits (c ∷ s) n ≡ none = rw (bad, scan_digits) in cc
  | inr good ↦
      let q : scan_digits (c ∷ s) n ≡ scan_digits s (n * 10 + (c - b'0')) =
        rw (good, scan_digits) in
      let r = scan_digits-le s (n * 10 + (c - b'0')) m (sym q ∙ h) in omega arith
]

scan_uint_lem :
    (s : Bytes) (n m : ℕ) → scan_digits s n ≡ some m → m < 2 ^ 64 → scan_uint s n ≡ some m
unfolding scan_digits scan_uint
scan_uint_lem [] n m h k = h
scan_uint_lem (c ∷ s) n m h k = elim (Bool-cases (ltb c b'0' || ltb b'9' c)) [
  | inl bad ↦ let q : scan_digits (c ∷ s) n ≡ none = rw (bad, scan_digits) in cc
  | inr good ↦
      let q : scan_digits (c ∷ s) n ≡ scan_digits s (n * 10 + (c - b'0')) =
        rw (good, scan_digits) in
      let r = scan_digits-le s (n * 10 + (c - b'0')) m (sym q ∙ h) in
      let small : leb (2 ^ 64) (n * 10 + (c - b'0')) ≡ false = ground arith in
      rw (good, small, scan_uint) (scan_uint_lem s (n * 10 + (c - b'0')) m (sym q ∙ h) k)
]

number_started : (s : Bytes) → StartsDigit s → parse_number s ≡ clamp_pos (scan_uint s 0)
unfolding parse_number
number_started s (Decimal.StartsDigit.starts c rest d) =
    let no_plus : (c == b'+') ≡ false = ground arith in
    let no_minus : (c == b'-') ≡ false = ground arith in rw (no_plus, no_minus)

digits_started : (s : Bytes) → StartsDigit s → scan_digits_uint s ≡ scan_uint s 0
unfolding scan_uint
digits_started s (Decimal.StartsDigit.starts c rest d) = refl

scan_uint-format_nat : (n : ℕ) → n < 2 ^ 64 → scan_uint (format_nat n) 0 ≡ some n
scan_uint-format_nat n h = scan_uint_lem (format_nat n) 0 n (scan-format_nat n) h

pub parse_number-format : (z : ℤ) → IsInt64 z → parse_number (format_int z) ≡ z
unfolding format_int
parse_number-format (pos n) h =
    rw (number_started _ (format_nat-StartsDigit n), scan_uint-format_nat n (omega arith))
      (ground arith)
parse_number-format (negsuc n) h =
    unfold parse_number in
    rw
      (
        digits_started _ (format_nat-StartsDigit (suc n)),
        scan_uint-format_nat (suc n) (omega arith),
      )
      (ground arith)
