-- ===== src/Tests/ServerTests.antt =====
-- internal/server at concrete inputs: commands on the store of the tests of the store.
use Prim.Native.Nat.{◌*◌, ◌/◌}
use vortex_kv_cache.Base.{
  ℕ, ◌==◌, ◌^◌, ltb, ◌≡◌, refl, none, some, true, false, ◌&&◌, [], bytes, if◌then◌else◌, arith,
}
use vortex_kv_cache.Base.Int.{ℤ, pos, ltb_ℤ, leb_ℤ, ◌+ℤ◌}
use vortex_kv_cache.Entry.Expiry.{InRange}
use vortex_kv_cache.Lru.Contract.{lru_policy, lru_laws}
use vortex_kv_cache.Store.Operations.{Returns}
use vortex_kv_cache.Store.Seen.{Ends}
use vortex_kv_cache.Resp.Value.{
  Values, slice, end, cons, new_integer, new_simple_string, new_bulk_string, new_bulk_string_bytes,
  new_null_bulk_string,
}
use vortex_kv_cache.Resp.Decimal.{format_nat}
use vortex_kv_cache.Server.Args.{lifetime, set_flags, elements, flag_lifetime, ttl_reply}
use vortex_kv_cache.Server.Dispatch.{Replication, Process, dispatch}
use vortex_kv_cache.Server.Safety.{dispatch-Returns}
use vortex_kv_cache.Server.SetGet.{word, set_command, get_command, set_then_get}
use vortex_kv_cache.Server.Lifetimes.{unit_of, ttl_reply_exact, flag_lifetime-format}
use vortex_kv_cache.Tests.StoreTests.{W, hash, start, start-IsValid}

-- a node that is the master and refuses to become a replica
abbrev pub master : Replication W
master = record {
  is_read_only = λ w. false;
  slave_of = λ host port w. (w, some (bytes "refused"));
  info = λ now w. bytes "role:master";
}

abbrev pub process : Process
process = record { go_version = bytes "go1.22"; process_id = 1; uptime = pos 5 }

abbrev early : ℕ → ℤ
early i = pos 1_000_000_000

abbrev late : ℕ → ℤ
late i = pos 5_000_000_000

abbrev flags : Values
flags = cons (word (bytes "px")) (cons (word (bytes "5000")) end)

flags_lifetime : set_flags (elements (slice flags)) (pos 0) ≡ lifetime (pos 5_000_000_000)
unfolding set_flags new_bulk_string_bytes
flags_lifetime = refl

early-InRange : InRange (pos 5_000_000_000) (early 0)
unfolding ◌+ℤ◌
early-InRange = record { after_epoch = omega arith; no_overflow = omega arith }

set_then_get_example :
    Ends
      (λ a.
        (a.2 ≡ new_simple_string (bytes "OK"))
        × Ends
            (λ q. q.2 ≡ (
              if ltb_ℤ (pos 0) (pos 5_000_000_000) && leb_ℤ (early 0 +ℤ pos 5_000_000_000) (late 0)
              then new_null_bulk_string
              else new_bulk_string (some (bytes "v"))))
            (dispatch lru_policy W hash late
              (some master)
              none
              process
              (get_command (bytes "k"))
              a.0
              a.1))
      (dispatch lru_policy W hash early
        (some master)
        none
        process
        (set_command (bytes "k") (bytes "v") flags)
        start
        [])
set_then_get_example =
    set_then_get lru_laws hash early late master none process start [] (bytes "k") (bytes "v") flags
      (pos 5_000_000_000) start-IsValid refl refl flags_lifetime early-InRange

dispatch-Returns_example :
    Returns lru_laws hash
      (λ r. r.0)
      (dispatch lru_policy W hash early
        (some master)
        none
        process
        (get_command (bytes "k"))
        start
        [])
dispatch-Returns_example =
    dispatch-Returns lru_laws hash early master none process start [] start-IsValid
      (get_command (bytes "k"))

ttl_reply_exact_example :
    ttl_reply (pos 1_500_000_000) true
    ≡ new_integer (
        pos (
          if 1_500_000_000 == 0
          then 0
          else if ltb 1_500_000_000 (10 ^ 9)
          then 1
          else 1_500_000_000 / 10 ^ 9))
ttl_reply_exact_example = ttl_reply_exact 1_500_000_000 (omega arith)

flag_lifetime-format_example : flag_lifetime true (format_nat 10) ≡ some (pos (10 * unit_of true))
flag_lifetime-format_example = flag_lifetime-format true 10 (omega arith) (omega arith)
