-- ===== src/Resp/Value.antt =====
-- internal/resp/value.go. A slice is nil, or it has elements; a string is its bytes.
use vortex_kv_cache.Base.{ℕ, Option, none, some, Bool, true, false, [], Bytes}
use vortex_kv_cache.Base.Int.{ℤ, pos}

abbrev pub type_simple_string : ℕ
type_simple_string = b'+'

abbrev pub type_error : ℕ
type_error = b'-'

abbrev pub type_integer : ℕ
type_integer = b':'

abbrev pub type_bulk_string : ℕ
type_bulk_string = b'$'

abbrev pub type_array : ℕ
type_array = b'*'

-- The fields of a value in their order: `Type`, `Str`, `Num`, `Bulk`, `Array`, `Nil`.
mutual
  pub data Value : Type 0 where
    value : ℕ → Bytes → ℤ → Option Bytes → Slice → Bool → Value

  pub data Slice : Type 0 where
    nil_slice : Slice
    slice : Values → Slice

  pub data Values : Type 0 where
    end : Values
    cons : Value → Values → Values

unfoldable pub new_simple_string : Bytes → Value
new_simple_string s = value type_simple_string s (pos 0) none nil_slice false

unfoldable pub new_error : Bytes → Value
new_error err = value type_error err (pos 0) none nil_slice false

unfoldable pub new_integer : ℤ → Value
new_integer n = value type_integer [] n none nil_slice false

-- the copy of the slice has its bytes
unfoldable pub new_bulk_string : Option Bytes → Value
new_bulk_string none = value type_bulk_string [] (pos 0) none nil_slice true
new_bulk_string (some b) = value type_bulk_string [] (pos 0) (some b) nil_slice false

unfoldable pub new_bulk_string_bytes : Option Bytes → Value
new_bulk_string_bytes none = value type_bulk_string [] (pos 0) none nil_slice true
new_bulk_string_bytes (some b) = value type_bulk_string [] (pos 0) (some b) nil_slice false

unfoldable pub new_bulk_string_from_string : Bytes → Value
new_bulk_string_from_string s = value type_bulk_string [] (pos 0) (some s) nil_slice false

unfoldable pub new_null_bulk_string : Value
new_null_bulk_string = value type_bulk_string [] (pos 0) none nil_slice true

unfoldable pub new_array : Slice → Value
new_array nil_slice = value type_array [] (pos 0) none nil_slice true
new_array (slice vs) = value type_array [] (pos 0) none (slice vs) false
