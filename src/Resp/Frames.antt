-- ===== src/Resp/Frames.antt =====
-- The frames that internal/resp writes so that it can read them again, and its lines.
use vortex_kv_cache.Base.{
  ℕ, suc, ◌-◌, ◌≤◌, ◌<◌, ◌^◌, ◌==◌, leb, some, true, false, ◌≡◌, refl, [], ◌∷◌, ◌++◌, Bytes, length,
  get_elem?, All, arith, take-append, drop-append, length-append,
}
use vortex_kv_cache.Base.Int.{ℤ, pos, negsuc, IsInt64}
use vortex_kv_cache.Resp.Value.{
  Value, Values, nil_slice, slice, end, cons, new_simple_string, new_error, new_integer,
  new_null_bulk_string, new_bulk_string_bytes, new_array,
}
use vortex_kv_cache.Resp.Decimal.{IsDigit, format_nat, format_int, parse-format, All-format_nat}
use vortex_kv_cache.Resp.Writer.{crlf, count}
use vortex_kv_cache.Resp.Reader.{ok, ends_in_cr, read_bytes, read_line, read_full, parse_or}

-- a text without a newline
abbrev pub IsLine : Bytes → Type 0
IsLine = All (λ c. (c == 10) ≡ false)

-- What the reader gets back: texts without a newline, integers of 64 bits, and slices within the
-- limits of `make`.
module _ (bulk_limit array_limit : ℕ) where
  mutual
    pub data IsFrame : Value → Type 0 where
      simple_string : (s : Bytes) → IsLine s → IsFrame (new_simple_string s)
      error : (s : Bytes) → IsLine s → IsFrame (new_error s)
      integer : (n : ℤ) → IsInt64 n → IsFrame (new_integer n)
      bulk :
          (b : Bytes)
          → length b ≤ bulk_limit
          → length b < 2 ^ 63
          → IsFrame (new_bulk_string_bytes (some b))
      null_bulk : IsFrame new_null_bulk_string
      array :
          (vs : Values)
          → count vs ≤ array_limit
          → count vs < 2 ^ 63
          → AreFrames vs
          → IsFrame (new_array (slice vs))
      null_array : IsFrame (new_array nil_slice)

    pub data AreFrames : Values → Type 0 where
      done : AreFrames end
      more : (v : Value) (vs : Values) → IsFrame v → AreFrames vs → AreFrames (cons v vs)

read_bytes_lem : (s rest : Bytes) → IsLine s → read_bytes (s ++ crlf ++ rest) ≡ ok (s ++ crlf) rest
unfolding read_bytes
read_bytes_lem [] rest h = refl
read_bytes_lem (c ∷ s) rest h = ground (arith, read_bytes_lem s rest h.1)

get_last : (s : Bytes) → get_elem? (s ++ crlf) (length s) ≡ some 13
get_last [] = refl
get_last (c ∷ s) = get_last s

ends_lem : (s : Bytes) → ends_in_cr (s ++ crlf) ≡ true
ends_lem s =
    let n : length (s ++ crlf) - 2 ≡ length s = omega (arith, length-append s crlf) in
    rw (n, get_last s, ends_in_cr) (ground (arith, length-append s crlf))

pub read_line_lem : (s rest : Bytes) → IsLine s → read_line ((s ++ crlf) ++ rest) ≡ ok s rest
unfolding read_line
read_line_lem s rest h =
    let n : length (s ++ crlf) - 2 ≡ length s = omega (arith, length-append s crlf) in
    rw (read_bytes_lem s rest h, ends_lem s, n, take-append s crlf)

digits-IsLine : (s : Bytes) → All IsDigit s → IsLine s
digits-IsLine [] h = tt
digits-IsLine (c ∷ s) h = (ground arith, digits-IsLine s h.1)

pub format_nat-IsLine : (n : ℕ) → IsLine (format_nat n)
format_nat-IsLine n = digits-IsLine (format_nat n) (All-format_nat n)

pub format_int-IsLine : (z : ℤ) → IsLine (format_int z)
unfolding format_int
format_int-IsLine (pos n) = format_nat-IsLine n
format_int-IsLine (negsuc n) = (refl, format_nat-IsLine (suc n))

pub parse_or_lem : (what s : Bytes) (z : ℤ) → IsInt64 z → parse_or what (format_int z) s ≡ ok z s
unfolding parse_or
parse_or_lem what s z h = rw (parse-format z h, parse_or)

pub parse_nat_lem :
    (what s : Bytes) (n : ℕ) → n < 2 ^ 63 → parse_or what (format_nat n) s ≡ ok (pos n) s
unfolding format_int
parse_nat_lem what s n h = parse_or_lem what s (pos n) (h, omega arith)

pub read_full_lem : (b rest : Bytes) → read_full (length b) (b ++ rest) ≡ ok b rest
unfolding read_full
read_full_lem b rest =
    let fits : leb (length b) (length (b ++ rest)) ≡ true = ground (arith, length-append b rest) in
    rw (fits, take-append b rest, drop-append b rest)
