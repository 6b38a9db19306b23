-- ===== src/Resp/Reader.antt =====
-- internal/resp/reader.go, on all the bytes that the connection delivers before it ends, however
-- they are cut into packets.
use vortex_kv_cache.Base.{
  ℕ, zero, suc, ◌-◌, ◌==◌, leb, if◌then◌else◌, none, some, Bool, false, ◌&&◌, [], ◌∷◌, Bytes, bytes,
  length, take, drop, get_elem?,
}
use vortex_kv_cache.Base.Int.{ℤ, pos, negsuc}
use vortex_kv_cache.Resp.Value.{
  Value, Values, nil_slice, slice, end, cons, new_simple_string, new_error, new_integer,
  new_null_bulk_string, new_bulk_string_bytes, new_array, type_simple_string, type_error,
  type_integer, type_bulk_string, type_array,
}
use vortex_kv_cache.Resp.Decimal.{parse_int}

-- `io.EOF`, `io.ErrUnexpectedEOF`, `ErrUnterminated`, and `ErrInvalidSyntax` with its
-- detail
pub data ReadError : Type 0 where
  eof unexpected_eof unterminated : ReadError
  invalid_syntax : Bytes → ReadError
  unknown_prefix : ℕ → ReadError

-- A value with the bytes behind it, an error, or a panic; `no_fuel` is not a result of the code.
pub data Result (A : Type 0) : Type 0 where
  ok : A → Bytes → Result A
  fail : ReadError → Result A
  panics no_fuel : Result A

abbrev pub Reader : Type 0 → Type 0
Reader A = Bytes → Result A

abbrev pub and_then : {A B : Type 0} → Result A → (A → Reader B) → Result B
and_then (ok a s) f = f a s
and_then (fail e) f = fail e
and_then panics f = panics
and_then no_fuel f = no_fuel

infixl 5 ◌>>=◌
abbrev pub ◌>>=◌ : {A B : Type 0} → Reader A → (A → Reader B) → Reader B
(m >>= f) s = and_then (m s) f

abbrev pub pure : {A : Type 0} → A → Reader A
pure a s = ok a s

abbrev pub raise : {A : Type 0} → ReadError → Reader A
raise e s = fail e

-- `ReadByte`
unfoldable pub read_byte : Reader ℕ
read_byte [] = fail eof
read_byte (c ∷ s) = ok c s

-- `ReadBytes('\n')`: up to the newline, and with it
unfoldable pub read_bytes : Reader Bytes
read_bytes [] = fail eof
read_bytes (c ∷ s) =
    let rest = read_bytes s in
    if c == 10 then ok (c ∷ []) s else and_then rest (λ l r. ok (c ∷ l) r)

-- `len(line) < 2 || line[len(line)-2] != '\r'`
abbrev pub ends_in_cr : Bytes → Bool
ends_in_cr line = elim (get_elem? line (length line - 2)) [
  | none ↦ false
  | some c ↦ leb 2 (length line) && (c == 13)
]

unfoldable pub read_line : Reader Bytes
unfolding read_bytes
read_line = do
  line ← read_bytes
  if ends_in_cr line then pure (take (length line - 2) line) else raise unterminated

-- `io.ReadFull` into a buffer of `n` bytes
unfoldable pub read_full : ℕ → Reader Bytes
read_full n s =
    if leb n (length s)
    then ok (take n s) (drop n s)
    else if length s == 0
    then fail eof
    else fail unexpected_eof

-- `strconv.ParseInt` or `strconv.Atoi`, with the error that the reader makes of theirs
unfoldable pub parse_or : Bytes → Bytes → Reader ℤ
unfolding parse_int
parse_or what line = elim (parse_int line) [ none ↦ raise (invalid_syntax what) | some n ↦ pure n ]

-- `make` with a length: it panics above the limit
abbrev pub make : {A : Type 0} → ℕ → ℕ → Reader A → Reader A
make limit n next s = if leb n limit then next s else panics

abbrev pub is_crlf : Bytes → Bool
is_crlf (c ∷ d ∷ []) = (c == 13) && (d == 10)
is_crlf _ = false

-- The loop of `readArray`, which `read` reads each element for.
unfoldable pub read_elements : Reader Value → ℕ → Reader Values
read_elements read zero = pure end
read_elements read (suc n) = do val ← read; vals ← read_elements read n; pure (cons val vals)

-- the longest byte slice and the longest slice of values that `make` can make
module _ (bulk_limit array_limit : ℕ) where
  -- `readBulk` behind the length
  unfoldable pub read_data : ℕ → Reader Value
  unfolding read_full new_bulk_string_bytes
  read_data n = make bulk_limit n do
    buf ← read_full n
    ends ← read_full 2
    (if is_crlf ends
        then pure (new_bulk_string_bytes (some buf))
        else raise (invalid_syntax (bytes "expected CRLF after bulk data")))

  unfoldable pub read_bulk : Reader Value
  unfolding read_line parse_or read_data new_null_bulk_string
  read_bulk = do
    line ← read_line
    n ← parse_or (bytes "invalid bulk length") line
    elim n [ negsuc _ ↦ pure new_null_bulk_string | pos length ↦ read_data length ]

  unfoldable pub read_array : Reader Value → Reader Value
  unfolding read_line parse_or read_elements new_array
  read_array read = do
    line ← read_line
    n ← parse_or (bytes "invalid array count") line
    elim n [
      | negsuc _ ↦ pure (new_array nil_slice)
      | pos count ↦
          make array_limit count do vals ← read_elements read count; pure (new_array (slice vals))
    ]

  -- the cases of `ReadValue`
  unfoldable pub read_case : Reader Value → ℕ → Reader Value
  unfolding read_line parse_or read_bulk read_array new_simple_string new_error new_integer
  read_case read prefix =
      if prefix == type_simple_string
      then (do line ← read_line; pure (new_simple_string line))
      else if prefix == type_error
      then (do line ← read_line; pure (new_error line))
      else if prefix == type_integer
      then (do
        line ← read_line
        n ← parse_or (bytes "invalid integer format") line
        pure (new_integer n))
      else if prefix == type_bulk_string
      then read_bulk
      else if prefix == type_array
      then read_array read
      else raise (unknown_prefix prefix)

  -- `fuel` bounds how deep arrays lie in arrays
  unfoldable pub read_frame : ℕ → Reader Value
  unfolding read_byte read_case
  read_frame zero s = no_fuel
  read_frame (suc fuel) s = and_then (read_byte s) (read_case (read_frame fuel))

  -- An array takes a byte more than what it holds, so a fuel above the number of bytes is enough.
  unfoldable pub read_value : Reader Value
  unfolding read_frame
  read_value s = read_frame (suc (length s)) s
