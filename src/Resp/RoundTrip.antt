-- ===== src/Resp/RoundTrip.antt =====
-- What internal/resp/writer.go writes, internal/resp/reader.go reads back.
use Prim.Native.Nat.{◌+◌}
use vortex_kv_cache.Base.{
  ℕ, zero, suc, ◌≤◌, ◌<◌, ◌^◌, leb, none, some, true, ◌≡◌, ◌∙◌, refl, ◌++◌, Bytes, bytes, length,
  arith, length-append, append_assoc,
}
use vortex_kv_cache.Base.Int.{ℤ, IsInt64}
use vortex_kv_cache.Resp.Value.{
  Value, Values, value, nil_slice, slice, end, cons, new_simple_string, new_error, new_integer,
  new_null_bulk_string, new_bulk_string_bytes, new_array,
}
use vortex_kv_cache.Resp.Decimal.{format_nat, format_int, parse_int, parse_digits, scan_digits}
use vortex_kv_cache.Resp.Writer.{
  crlf, count, write_value, write_values, write_simple_string, write_error, write_integer,
  write_bulk_string, write_null, write_null_array,
}
use vortex_kv_cache.Resp.Reader.{
  ok, read_elements, read_line, read_bytes, parse_or, read_data, read_bulk, read_array, read_case,
  read_byte, read_frame, read_value,
}
use vortex_kv_cache.Resp.Frames.{
  IsFrame, AreFrames, done, more, IsLine, read_line_lem, format_nat-IsLine, format_int-IsLine,
  parse_or_lem, parse_nat_lem, read_full_lem,
}
use vortex_kv_cache.Resp.Frames

pub write_value-pos : (v : Value) → 0 < length (write_value v)
unfolding write_value write_simple_string write_error write_integer write_bulk_string write_null
    write_null_array
write_value-pos (value typ str num none nil_slice nil) = ground arith
write_value-pos (value typ str num none (slice vs) nil) = ground arith
write_value-pos (value typ str num (some b) nil_slice nil) = ground arith
write_value-pos (value typ str num (some b) (slice vs) nil) = ground arith

-- an array takes more room than its elements
length-array :
    (vs : Values) → length (write_values vs) < length (write_value (new_array (slice vs)))
unfolding write_value new_array
length-array vs = omega (arith, length-append (format_nat (count vs) ++ crlf) (write_values vs))

pub regroup : (x y z w : Bytes) → ((x ++ y) ++ z) ++ w ≡ x ++ (y ++ (z ++ w))
regroup x y z w = append_assoc (x ++ y) z w ∙ append_assoc x y (z ++ w)

module _ (bulk_limit array_limit : ℕ) where
  simple_string_lem :
      (fuel : ℕ) (s rest : Bytes)
      → IsLine s
      → read_frame bulk_limit array_limit (suc fuel) (write_value (new_simple_string s) ++ rest)
        ≡ ok (new_simple_string s) rest
  unfolding read_frame read_case read_byte write_value write_simple_string new_simple_string
  simple_string_lem fuel s rest h = rw (read_line_lem s rest h)

  error_lem :
      (fuel : ℕ) (s rest : Bytes)
      → IsLine s
      → read_frame bulk_limit array_limit (suc fuel) (write_value (new_error s) ++ rest)
        ≡ ok (new_error s) rest
  unfolding read_frame read_case read_byte write_value write_error new_error
  error_lem fuel s rest h = rw (read_line_lem s rest h)

  integer_lem :
      (fuel : ℕ) (n : ℤ) (rest : Bytes)
      → IsInt64 n
      → read_frame bulk_limit array_limit (suc fuel) (write_value (new_integer n) ++ rest)
        ≡ ok (new_integer n) rest
  unfolding read_frame read_case read_byte write_value write_integer new_integer
  integer_lem fuel n rest h =
      rw (read_line_lem (format_int n) rest (format_int-IsLine n), parse_or_lem _ rest n h)

  read_data_lem :
      (b rest : Bytes)
      → length b ≤ bulk_limit
      → read_data bulk_limit array_limit (length b) (b ++ (crlf ++ rest))
        ≡ ok (new_bulk_string_bytes (some b)) rest
  unfolding read_data
  read_data_lem b rest h =
      let fits : leb (length b) bulk_limit ≡ true = ground arith in
      rw (fits, read_full_lem b (crlf ++ rest), read_full_lem crlf rest)

  bulk_lem :
      (fuel : ℕ) (b rest : Bytes)
      → length b ≤ bulk_limit
      → length b < 2 ^ 63
      → read_frame bulk_limit array_limit
          (suc fuel)
          (write_value (new_bulk_string_bytes (some b)) ++ rest)
        ≡ ok (new_bulk_string_bytes (some b)) rest
  unfolding read_frame read_case read_byte read_bulk write_value write_bulk_string
      new_bulk_string_bytes
  bulk_lem fuel b rest h k =
      let line =
        read_line_lem (format_nat (length b)) (b ++ (crlf ++ rest))
          (format_nat-IsLine (length b)) in
      rw (regroup (format_nat (length b) ++ crlf) b crlf rest, line, read_bulk)
        (rw (parse_nat_lem (bytes "invalid bulk length") (b ++ (crlf ++ rest)) (length b) k)
          (read_data_lem b rest h))

  array_lem :
      (fuel : ℕ) (vs : Values) (rest : Bytes)
      → count vs ≤ array_limit
      → count vs < 2 ^ 63
      → read_elements (read_frame bulk_limit array_limit fuel) (count vs) (write_values vs ++ rest)
        ≡ ok vs rest
      → read_frame bulk_limit array_limit (suc fuel) (write_value (new_array (slice vs)) ++ rest)
        ≡ ok (new_array (slice vs)) rest
  unfolding read_frame read_case read_byte read_array write_value new_array
  array_lem fuel vs rest h k e =
      let line =
        read_line_lem (format_nat (count vs)) (write_values vs ++ rest)
          (format_nat-IsLine (count vs)) in
      let fits : leb (count vs) array_limit ≡ true = ground arith in
      rw (append_assoc (format_nat (count vs) ++ crlf) (write_values vs) rest, line, read_array)
        (rw (parse_nat_lem (bytes "invalid array count") (write_values vs ++ rest) (count vs) k)
          (rw (fits, e)))

  null_bulk_lem :
      (fuel : ℕ) (rest : Bytes)
      → read_frame bulk_limit array_limit (suc fuel) (write_value new_null_bulk_string ++ rest)
        ≡ ok new_null_bulk_string rest
  unfolding read_frame read_case read_byte read_bulk write_value write_null new_null_bulk_string
      read_line read_bytes parse_or parse_int parse_digits scan_digits
  null_bulk_lem fuel rest = refl

  null_array_lem :
      (fuel : ℕ) (rest : Bytes)
      → read_frame bulk_limit array_limit (suc fuel) (write_value (new_array nil_slice) ++ rest)
        ≡ ok (new_array nil_slice) rest
  unfolding read_frame read_case read_byte read_array write_value write_null_array new_array
      read_line read_bytes parse_or parse_int parse_digits scan_digits
  null_array_lem fuel rest = refl

  end_lem :
      (fuel : ℕ) (rest : Bytes)
      → read_elements (read_frame bulk_limit array_limit fuel) 0 (write_values end ++ rest)
        ≡ ok end rest
  unfolding read_elements write_values
  end_lem fuel rest = refl

  cons_lem :
      (v : Value) (vs : Values) (fuel : ℕ) (rest : Bytes)
      → read_frame bulk_limit array_limit fuel (write_value v ++ (write_values vs ++ rest))
        ≡ ok v (write_values vs ++ rest)
      → read_elements (read_frame bulk_limit array_limit fuel) (count vs) (write_values vs ++ rest)
        ≡ ok vs rest
      → read_elements
          (read_frame bulk_limit array_limit fuel)
          (suc (count vs))
          (write_values (cons v vs) ++ rest)
        ≡ ok (cons v vs) rest
  unfolding read_elements write_values
  cons_lem v vs fuel rest e f = rw (append_assoc (write_value v) (write_values vs) rest, e, f)

  length-cons :
      (v : Value) (vs : Values)
      → length (write_values (cons v vs)) ≡ length (write_value v) + length (write_values vs)
  unfolding write_values
  length-cons v vs = length-append (write_value v) (write_values vs)

  mutual
    frame_lem :
        {v : Value} (fuel : ℕ) (rest : Bytes)
        → IsFrame bulk_limit array_limit v
        → length (write_value v) ≤ fuel
        → read_frame bulk_limit array_limit fuel (write_value v ++ rest) ≡ ok v rest
    frame_lem {v} zero rest d h = absurd (omega (arith, write_value-pos v))
    frame_lem (suc fuel) rest (Frames.IsFrame.simple_string s a) h = simple_string_lem fuel s rest a
    frame_lem (suc fuel) rest (Frames.IsFrame.error s a) h = error_lem fuel s rest a
    frame_lem (suc fuel) rest (Frames.IsFrame.integer n a) h = integer_lem fuel n rest a
    frame_lem (suc fuel) rest (Frames.IsFrame.bulk b a c) h = bulk_lem fuel b rest a c
    frame_lem (suc fuel) rest Frames.IsFrame.null_bulk h = null_bulk_lem fuel rest
    frame_lem (suc fuel) rest (Frames.IsFrame.array vs a c ds) h =
        array_lem fuel vs rest a c (frames_lem fuel rest ds (omega (arith, length-array vs)))
    frame_lem (suc fuel) rest Frames.IsFrame.null_array h = null_array_lem fuel rest

    frames_lem :
        {vs : Values} (fuel : ℕ) (rest : Bytes)
        → AreFrames bulk_limit array_limit vs
        → length (write_values vs) ≤ fuel
        → read_elements
            (read_frame bulk_limit array_limit fuel)
            (count vs)
            (write_values vs ++ rest)
          ≡ ok vs rest
    frames_lem fuel rest done h = end_lem fuel rest
    frames_lem fuel rest (more v vs d ds) h =
        cons_lem v vs fuel rest
          (frame_lem fuel (write_values vs ++ rest) d (omega (arith, length-cons v vs)))
          (frames_lem fuel rest ds (omega (arith, length-cons v vs)))

  -- The reader gets back every frame that the writer wrote, and leaves the bytes that follow it,
  -- if the texts of the frame hold no newline, its integers are int64 values, and the lengths of
  -- its bulk strings and arrays are within the limits of `make` and below 2^63.
  pub read-write :
      (v : Value) (rest : Bytes)
      → IsFrame bulk_limit array_limit v
      → read_value bulk_limit array_limit (write_value v ++ rest) ≡ ok v rest
  unfolding read_value
  read-write v rest d =
      frame_lem (suc (length (write_value v ++ rest))) rest d
        (omega (arith, length-append (write_value v) rest))
