-- ===== src/Resp/Writer.antt =====
-- internal/resp/writer.go. The result is what the call adds to the buffer; the errors of the
-- connection below, on which the writer gives up, are left out.
use vortex_kv_cache.Base.{
  ℕ, suc, ◌==◌, if◌then◌else◌, Option, none, some, [], ◌∷◌, ◌++◌, Bytes, bytes, length,
}
use vortex_kv_cache.Base.Int.{ℤ}
use vortex_kv_cache.Resp.Value.{
  Value, Slice, Values, value, nil_slice, slice, end, cons, type_simple_string, type_error,
  type_integer, type_bulk_string, type_array,
}
use vortex_kv_cache.Resp.Decimal.{format_int, format_nat}

abbrev pub crlf : Bytes
crlf = 13 ∷ 10 ∷ []

unfoldable pub write_simple_string : Bytes → Bytes
write_simple_string s = type_simple_string ∷ s ++ crlf

unfoldable pub write_error : Bytes → Bytes
write_error s = type_error ∷ s ++ crlf

unfoldable pub write_integer : ℤ → Bytes
write_integer n = type_integer ∷ format_int n ++ crlf

unfoldable pub write_null : Bytes
write_null = type_bulk_string ∷ b'-' ∷ b'1' ∷ crlf

unfoldable pub write_null_array : Bytes
write_null_array = type_array ∷ b'-' ∷ b'1' ∷ crlf

unfoldable pub write_bulk_string : Option Bytes → Bytes
unfolding write_null
write_bulk_string none = write_null
write_bulk_string (some b) = type_bulk_string ∷ format_nat (length b) ++ crlf ++ b ++ crlf

unfoldable pub write_bulk_string_string : Bytes → Bytes
unfolding write_bulk_string
write_bulk_string_string s = write_bulk_string (some s)

abbrev pub count : Values → ℕ
count end = 0
count (cons v vs) = suc (count vs)

unfoldable mutual
  unfolding write_simple_string write_error write_integer write_null write_null_array
      write_bulk_string

  pub write_value : Value → Bytes
  write_value (value typ str num bulk array nil) =
      let elements = write_array array in
      if typ == type_simple_string
      then write_simple_string str
      else if typ == type_error
      then write_error str
      else if typ == type_integer
      then write_integer num
      else if typ == type_bulk_string
      then (if nil then write_null else write_bulk_string bulk)
      else if typ == type_array
      then (if nil then write_null_array else elements)
      else write_error (bytes "ERR unknown RESP type")

  pub write_array : Slice → Bytes
  write_array nil_slice = write_null_array
  write_array (slice vs) = type_array ∷ format_nat (count vs) ++ crlf ++ write_values vs

  -- the loop of `WriteArray`
  pub write_values : Values → Bytes
  write_values end = []
  write_values (cons v vs) = write_value v ++ write_values vs
