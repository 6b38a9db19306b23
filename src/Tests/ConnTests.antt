-- ===== src/Tests/ConnTests.antt =====
-- internal/server/server.go at concrete inputs: the bytes of a connection.
use vortex_kv_cache.Base.{
  leb, ◌≟◌, to_upper, ◌≡◌, refl, none, some, true, false, [], ◌∷◌, ◌++◌, Bytes, bytes, take, arith,
}
use vortex_kv_cache.Base.Int.{ℤ, pos}
use vortex_kv_cache.Store.{Store}
use vortex_kv_cache.Server.Registration.{asks_sync}
use vortex_kv_cache.Lru.Contract.{lru_policy, lru_laws}
use vortex_kv_cache.Resp.Value.{
  Value, slice, end, cons, new_error, new_simple_string, new_bulk_string_bytes, new_array,
}
use vortex_kv_cache.Resp.Writer.{crlf, write_value}
use vortex_kv_cache.Resp.Reader.{ok, read_value}
use vortex_kv_cache.Resp.Frames.{IsFrame, done, more}
use vortex_kv_cache.Resp.Frames
use vortex_kv_cache.Resp.Splitting.{write_value_splits}
use vortex_kv_cache.Server.Args.{extract_string}
use vortex_kv_cache.Server.Conn.{Rounds, handle_conn}
use vortex_kv_cache.Server.Pipeline.{write_all, answer, handle_conn_pipeline}
use vortex_kv_cache.Server.Closing.{Closes, handle_conn-Closes}
use vortex_kv_cache.Tests.ServerTests.{master, process}
use vortex_kv_cache.Tests.StoreTests.{W, hash, start, start-IsValid}

abbrev word : Bytes → Value
word b = new_bulk_string_bytes (some b)

abbrev ping : Value
ping = new_array (slice (cons (word (bytes "PING")) end))

abbrev get : Value
get = new_array (slice (cons (word (bytes "GET")) (cons (word (bytes "k")) end)))

ping-IsFrame : IsFrame 100 100 ping
ping-IsFrame =
    Frames.IsFrame.array _ (omega arith) (omega arith)
      (more _ _ (Frames.IsFrame.bulk (bytes "PING") (omega arith) (omega arith)) done)

get-IsFrame : IsFrame 100 100 get
get-IsFrame = Frames.IsFrame.array _ (omega arith) (omega arith) (
    more _ _ (Frames.IsFrame.bulk (bytes "GET") (omega arith) (omega arith))
      (more _ _ (Frames.IsFrame.bulk (bytes "k") (omega arith) (omega arith)) done))

-- the server is closed before the third round, and nobody else uses the store
abbrev rounds : Rounds lru_policy W
rounds = record {
  done = leb 2;
  others = λ i state. state;
  sent = λ i. true;
  clock = λ i j. pos 1_000_000_000;
}

-- a registration that clears the record of the writes
forget : ℤ → Store lru_policy W → W → W
forget now s w = []

ping_plain : asks_sync ping ≡ false
unfolding new_array new_bulk_string_bytes ◌≟◌ to_upper extract_string
ping_plain = refl

get_plain : asks_sync get ≡ false
unfolding new_array new_bulk_string_bytes ◌≟◌ to_upper extract_string
get_plain = refl

handle_conn_pipeline_example :
    handle_conn lru_policy W hash 100 100
      (some master)
      (some forget)
      process
      rounds
      (write_all (ping ∷ get ∷ ping ∷ []))
      (start, [])
    ≡ answer lru_policy W hash 100 100
        (some master)
        process
        rounds
        0
        (take 2 (ping ∷ get ∷ ping ∷ []))
        (start, [])
handle_conn_pipeline_example =
    handle_conn_pipeline lru_policy W hash 100 100 (some master) process rounds 2 (λ i. refl)
      (λ i. refl) (some forget) (ping ∷ get ∷ ping ∷ []) (start, [])
      (ping-IsFrame, (get-IsFrame, (ping-IsFrame, tt))) (ping_plain, (get_plain, (ping_plain, tt)))

handle_conn-Closes_example : Closes lru_laws hash 100 100 (
    handle_conn lru_policy W hash 100 100
      (some master)
      none
      process
      rounds
      (write_value get ++ bytes "$5")
      (start, []))
handle_conn-Closes_example =
    handle_conn-Closes lru_laws hash 100 100 master none process rounds (λ i s w v. v)
      (write_value get ++ bytes "$5") start [] start-IsValid

write_value_splits_example :
    (read_value 100 100 (write_value (new_simple_string (bytes "a" ++ crlf ++ bytes "+b")) ++ [])
      ≡ ok (new_simple_string (bytes "a")) (bytes "+b" ++ (crlf ++ [])))
    × (read_value 100 100 (write_value (new_error (bytes "a" ++ crlf ++ bytes "+b")) ++ [])
        ≡ ok (new_error (bytes "a")) (bytes "+b" ++ (crlf ++ [])))
write_value_splits_example = write_value_splits 100 100 (bytes "a") (bytes "+b") [] (refl, tt)
