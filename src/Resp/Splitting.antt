-- ===== src/Resp/Splitting.antt =====
-- What a reader gets of a text with a line end that internal/resp/writer.go wrote as a simple string
-- or as an error.
use vortex_kv_cache.Base.{ℕ, ◌≡◌, ◌++◌, Bytes}
use vortex_kv_cache.Resp.Value.{new_simple_string, new_error}
use vortex_kv_cache.Resp.Writer.{crlf, write_value, write_simple_string, write_error}
use vortex_kv_cache.Resp.Reader.{ok, read_value, read_frame, read_byte, read_case}
use vortex_kv_cache.Resp.Frames.{IsLine, read_line_lem}
use vortex_kv_cache.Resp.RoundTrip.{regroup}

-- If a text with a line end in it, and no newline before that, is written as a simple string or as
-- an error, then the reader gets back the part before the line end alone, and goes on with the
-- rest of the text as if it were a frame of its own.
pub write_value_splits :
    (bulk_limit array_limit : ℕ) (a b rest : Bytes)
    → IsLine a
    → (read_value bulk_limit array_limit (write_value (new_simple_string (a ++ crlf ++ b)) ++ rest)
        ≡ ok (new_simple_string a) (b ++ (crlf ++ rest)))
      × (read_value bulk_limit array_limit (write_value (new_error (a ++ crlf ++ b)) ++ rest)
          ≡ ok (new_error a) (b ++ (crlf ++ rest)))
unfolding read_value read_frame read_byte read_case write_value write_simple_string write_error
    new_simple_string new_error
write_value_splits bulk_limit array_limit a b rest h =
    let line = read_line_lem a (b ++ (crlf ++ rest)) h in
    (rw (regroup (a ++ crlf) b crlf rest, line), rw (regroup (a ++ crlf) b crlf rest, line))
