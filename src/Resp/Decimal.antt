-- ===== src/Resp/Decimal.antt =====
-- Go's `strconv.ParseInt(s, 10, 64)`, with which `strconv.Atoi(s)` agrees, and `strconv.FormatInt`
-- with `strconv.Itoa`: what internal/resp reads and writes numbers with.
use Prim.Native.Nat.{◌+◌, ◌-◌, ◌*◌, ◌/◌, ◌%◌}
use vortex_kv_cache.Base.{
  ℕ, zero, suc, ◌≤◌, ◌^◌, ◌==◌, ltb, Option, none, some, true, false, ◌||◌, ◌≡◌, refl, ◌∙◌,
  Bool-cases, inl, inr, [], ◌∷◌, Bytes, if◌then◌else◌, arith,
}
use vortex_kv_cache.Base.Int.{ℤ, pos, negsuc, IsInt64}
use vortex_kv_cache.Base.{All}

-- the digits behind those that spell `n`
unfoldable pub scan_digits : Bytes → ℕ → Option ℕ
scan_digits [] n = some n
scan_digits (c ∷ s) n =
    if ltb c b'0' || ltb b'9' c then none else scan_digits s (n * 10 + (c - b'0'))

-- a digit or more
unfoldable pub parse_digits : Bytes → Option ℕ
unfolding scan_digits
parse_digits [] = none
parse_digits (c ∷ s) = scan_digits (c ∷ s) 0

abbrev pub in_range_pos : Option ℕ → Option ℤ
in_range_pos none = none
in_range_pos (some n) = if ltb n (2 ^ 63) then some (pos n) else none

abbrev pub in_range_neg : Option ℕ → Option ℤ
in_range_neg none = none
in_range_neg (some zero) = some (pos 0)
in_range_neg (some (suc n)) = if ltb n (2 ^ 63) then some (negsuc n) else none

-- `none` is an error of syntax or of range
unfoldable pub parse_int : Bytes → Option ℤ
unfolding parse_digits
parse_int [] = none
parse_int (c ∷ s) =
    if c == b'+'
    then in_range_pos (parse_digits s)
    else if c == b'-'
    then in_range_neg (parse_digits s)
    else in_range_pos (parse_digits (c ∷ s))

-- `fuel` is the number of digits that may stand before the last one; `n` itself is enough.
unfoldable pub emit_digits : ℕ → ℕ → Bytes → Bytes
emit_digits zero n out = (b'0' + n % 10) ∷ out
emit_digits (suc fuel) n out = elim (ltb n 10) [
  | true ↦ (b'0' + n) ∷ out
  | false ↦ emit_digits fuel (n / 10) ((b'0' + n % 10) ∷ out)
]

unfoldable pub format_nat : ℕ → Bytes
unfolding emit_digits
format_nat n = emit_digits n n []

unfoldable pub format_int : ℤ → Bytes
unfolding format_nat
format_int (pos n) = format_nat n
format_int (negsuc n) = b'-' ∷ format_nat (suc n)

abbrev pub IsDigit : ℕ → Type 0
IsDigit c = (b'0' ≤ c) × (c ≤ b'9')

-- a text that starts with a digit
pub data StartsDigit : Bytes → Type 0 where
  starts : (c : ℕ) (rest : Bytes) → IsDigit c → StartsDigit (c ∷ rest)

emit_digits-StartsDigit : (fuel n : ℕ) (out : Bytes) → StartsDigit (emit_digits fuel n out)
unfolding emit_digits
emit_digits-StartsDigit zero n out = starts _ out (omega arith, omega arith)
emit_digits-StartsDigit (suc fuel) n out = elim (Bool-cases (ltb n 10)) [
  | inl small ↦ rw (small, emit_digits) (starts _ out (omega arith, ground arith))
  | inr large ↦
      rw (large, emit_digits) (emit_digits-StartsDigit fuel (n / 10) ((b'0' + n % 10) ∷ out))
]

All-emit_digits :
    (fuel n : ℕ) (out : Bytes) → All IsDigit out → All IsDigit (emit_digits fuel n out)
unfolding emit_digits
All-emit_digits zero n out h = ((omega arith, omega arith), h)
All-emit_digits (suc fuel) n out h = elim (Bool-cases (ltb n 10)) [
  | inl small ↦ rw (small, emit_digits) ((omega arith, ground arith), h)
  | inr large ↦
      rw (large, emit_digits)
        (All-emit_digits fuel (n / 10) ((b'0' + n % 10) ∷ out) ((omega arith, omega arith), h))
]

-- reading the last digit of `n` behind the others gives `n`
scan_last : (n : ℕ) (out : Bytes) → scan_digits ((b'0' + n % 10) ∷ out) (n / 10) ≡ scan_digits out n
unfolding scan_digits
scan_last n out = ground arith

scan-emit_digits :
    (fuel n : ℕ) (out : Bytes)
    → n ≤ fuel
    → scan_digits (emit_digits fuel n out) 0 ≡ scan_digits out n
unfolding emit_digits
scan-emit_digits zero n out h = unfold scan_digits in ground arith
scan-emit_digits (suc fuel) n out h = elim (Bool-cases (ltb n 10)) [
  | inl small ↦ rw (small, emit_digits) (unfold scan_digits in ground arith)
  | inr large ↦
      rw (large, emit_digits)
        (scan-emit_digits fuel (n / 10) ((b'0' + n % 10) ∷ out) (ground arith) ∙ scan_last n out)
]

pub All-format_nat : (n : ℕ) → All IsDigit (format_nat n)
unfolding format_nat
All-format_nat n = All-emit_digits n n [] tt

pub format_nat-StartsDigit : (n : ℕ) → StartsDigit (format_nat n)
unfolding format_nat
format_nat-StartsDigit n = emit_digits-StartsDigit n n []

parse_started : (s : Bytes) → StartsDigit s → parse_int s ≡ in_range_pos (scan_digits s 0)
unfolding parse_int parse_digits
parse_started s (starts c rest d) =
    let no_plus : (c == b'+') ≡ false = ground arith in
    let no_minus : (c == b'-') ≡ false = ground arith in rw (no_plus, no_minus)

parse_digits_started : (s : Bytes) → StartsDigit s → parse_digits s ≡ scan_digits s 0
unfolding parse_digits
parse_digits_started s (starts c rest d) = refl

pub scan-format_nat : (n : ℕ) → scan_digits (format_nat n) 0 ≡ some n
unfolding format_nat scan_digits
scan-format_nat n = scan-emit_digits n n [] (omega arith)

-- Every int64 is read back from its decimal print.
pub parse-format : (z : ℤ) → IsInt64 z → parse_int (format_int z) ≡ some z
unfolding format_int
parse-format (pos n) h =
    rw (parse_started _ (format_nat-StartsDigit n), scan-format_nat n) (ground arith)
parse-format (negsuc n) h =
    unfold parse_int in
    rw (parse_digits_started _ (format_nat-StartsDigit (suc n)), scan-format_nat (suc n))
      (ground arith)
