-- ===== src/Tests/RespTests.antt =====
-- internal/resp at concrete inputs: a command as a client sends it, and a frame that is too long.
use vortex_kv_cache.Base.{◌-◌, some, ◌≡◌, refl, ◌∷◌, ◌++◌, Bytes, bytes, length, arith}
use vortex_kv_cache.Resp.Value.{
  Value, slice, end, cons, new_bulk_string_bytes, new_array, type_bulk_string,
}
use vortex_kv_cache.Resp.Decimal.{format_nat}
use vortex_kv_cache.Resp.Writer.{crlf, write_value}
use vortex_kv_cache.Resp.Reader.{ok, panics, read_value}
use vortex_kv_cache.Resp.Frames.{IsFrame, done, more}
use vortex_kv_cache.Resp.Frames
use vortex_kv_cache.Resp.RoundTrip.{read-write}
use vortex_kv_cache.Resp.Progress.{Within, read_value_ends, read_value_panics}

abbrev sent : Bytes
sent =
    (bytes "*2" ++ crlf)
    ++ ((bytes "$3" ++ crlf) ++ (bytes "GET" ++ crlf))
    ++ ((bytes "$1" ++ crlf) ++ (bytes "k" ++ crlf))

abbrev word : Bytes → Value
word b = new_bulk_string_bytes (some b)

abbrev command : Value
command = new_array (slice (cons (word (bytes "GET")) (cons (word (bytes "k")) end)))

written : write_value command ≡ sent
unfolding write_value new_array new_bulk_string_bytes format_nat
written = refl

command-IsFrame : IsFrame 100 100 command
command-IsFrame = Frames.IsFrame.array _ (omega arith) (omega arith) (
    more _ _ (Frames.IsFrame.bulk (bytes "GET") (omega arith) (omega arith))
      (more _ _ (Frames.IsFrame.bulk (bytes "k") (omega arith) (omega arith)) done))

read-write_example :
    read_value 100 100 (write_value command ++ bytes "+OK") ≡ ok command (bytes "+OK")
read-write_example = read-write 100 100 command (bytes "+OK") command-IsFrame

read_value_ends_example : Within (length sent - 1) (read_value 100 100 sent)
read_value_ends_example = read_value_ends 100 100 sent

read_value_panics_example :
    read_value 100 100 (type_bulk_string ∷ ((format_nat 101 ++ crlf) ++ bytes "abc")) ≡ panics
read_value_panics_example = read_value_panics 100 100 101 (bytes "abc") (omega arith) (omega arith)
