-- ===== src/Replication/Stream.antt =====
-- What a master sends (internal/replication/master.go), a replica carries out
-- (internal/replication/replica.go).
use Prim.Native.Nat.{◌+◌, ◌-◌, ◌*◌, ◌/◌, ◌%◌}
use vortex_kv_cache.Base.{
  ℕ, suc, ◌<◌, ◌≤◌, ◌^◌, ltb, leb, none, some, Bool, true, false, ◌&&◌, ◌≡◌, ◌∙◌, refl, ap, List,
  [], ◌∷◌, Bytes, bytes, ◌≟◌, to_upper, arith, Bool-cases, inl, inr,
}
use vortex_kv_cache.Base.Int.{ℤ, pos, negsuc, pos_part, ltb_ℤ, div_ℤ, mul64, wrap, ◌*ℤ◌, IsInt64}
use vortex_kv_cache.Eviction.{EvictionPolicy}
use vortex_kv_cache.Store
use vortex_kv_cache.Store.{Store, WriteEvent, Outcome, returns, ◌>>=◌}
use vortex_kv_cache.Resp.Value.{
  Value, slice, new_array, new_bulk_string, new_bulk_string_from_string,
}
use vortex_kv_cache.Resp.Decimal.{format_int, parse-format}
use vortex_kv_cache.Server.Args.{
  second, elements, extract_string, payload, flag_lifetime, seconds, whole_seconds, high_bit,
}
use vortex_kv_cache.Replication.Master.{values, px_words, set_words, event_words}
use vortex_kv_cache.Replication.Replica.{
  Applied, replica_flags, apply_set, apply_del, apply_expire, apply_words, apply_master_command,
}

elements-values : (vs : List Value) → elements (slice (values vs)) ≡ vs
elements-values [] = refl
elements-values (v ∷ vs) = ap (λ r. v ∷ r) (elements-values vs)

-- a lifetime in whole milliseconds
abbrev pub whole_milliseconds : ℤ → ℤ
whole_milliseconds ttl = pos (pos_part ttl / 1_000_000 * 1_000_000)

px_lifetime :
    (m : ℕ)
    → 0 < m
    → m * 1_000_000 < 2 ^ 63
    → flag_lifetime false (format_int (pos m)) ≡ some (pos (m * 1_000_000))
unfolding flag_lifetime mul64 wrap ◌*ℤ◌
px_lifetime m p h =
    rw (parse-format (pos m) (omega arith, omega arith), flag_lifetime) (ground arith)

flags_some :
    (m : ℕ)
    → 0 < m
    → m * 1_000_000 < 2 ^ 63
    → replica_flags
        (new_bulk_string_from_string (bytes "PX")
          ∷ new_bulk_string_from_string (format_int (pos m))
          ∷ [])
        (pos 0)
      ≡ pos (m * 1_000_000)
unfolding replica_flags extract_string new_bulk_string_from_string to_upper ◌≟◌
flags_some m p h = rw (px_lifetime m p h)

-- the test of the master
abbrev sends_px : ℤ → Bool
unfolding div_ℤ
sends_px ttl = ltb_ℤ (pos 0) ttl && ltb_ℤ (pos 0) (div_ℤ ttl 1_000_000)

px_words-none : (ttl : ℤ) → sends_px ttl ≡ false → px_words ttl ≡ []
unfolding px_words
px_words-none ttl e = rw e

px_words-some :
    (n : ℕ)
    → sends_px (pos n) ≡ true
    → px_words (pos n)
      ≡ new_bulk_string_from_string (bytes "PX")
        ∷ new_bulk_string_from_string (format_int (pos (n / 1_000_000)))
        ∷ []
unfolding px_words
px_words-some n e = rw e

no_flags : replica_flags [] (pos 0) ≡ pos 0
unfolding replica_flags
no_flags = refl

flags-px_words :
    (ttl : ℤ) → IsInt64 ttl → replica_flags (px_words ttl) (pos 0) ≡ whole_milliseconds ttl
unfolding div_ℤ
flags-px_words (negsuc n) h =
    let e : sends_px (negsuc n) ≡ false = ground arith in rw (px_words-none (negsuc n) e) no_flags
flags-px_words (pos n) h = elim (Bool-cases (ltb 0 (n / 1_000_000))) [
  | inl long ↦
      let e : sends_px (pos n) ≡ true = ground arith in
      rw (px_words-some n e) (flags_some (n / 1_000_000) (ground arith) (omega arith))
  | inr short ↦
      let e : sends_px (pos n) ≡ false = ground arith in
      let z : n / 1_000_000 ≡ 0 = ground arith in rw (px_words-none (pos n) e, z) no_flags
]

whole_seconds-le : (n : ℕ) → whole_seconds n ≤ n / 1_000_000_000 + 1
unfolding whole_seconds
whole_seconds-le n =
    elim (Bool-cases (
      ltb 0 (n / 10 ^ 9)
      && leb ((10 ^ 9 - n % 10 ^ 9) * 2 ^ 54) (10 ^ 9 * (2 * high_bit 64 (n / 10 ^ 9) + 1)))) [
        | inl up ↦ rw up (omega arith)
        | inr down ↦ rw down (omega arith)
      ]

seconds-IsInt64 : (ttl : ℤ) → IsInt64 ttl → IsInt64 (seconds ttl)
unfolding seconds
seconds-IsInt64 (pos n) h = (omega (arith, whole_seconds-le n), omega arith)
seconds-IsInt64 (negsuc n) h = let small = whole_seconds-le (suc n) in ground arith

module _ (P : EvictionPolicy) (W : Type 0) (hash : Bytes → ℕ) (now : ℤ) (s : Store P W)
    (w : W) where
  -- what is left of a call of the store
  abbrev pub done : Outcome (Store P W × W × Bool) → Applied P W hash now
  done o = o >>= (λ r. returns (r.0, r.1))

  apply_set_words :
      (key val : Bytes) (ttl : ℤ)
      → IsInt64 ttl
      → apply_words P W hash now (set_words key (some val) ttl) s w
        ≡ done (Store.set P W hash key val (whole_milliseconds ttl) now s w)
  unfolding apply_words apply_set set_words extract_string payload new_bulk_string
      new_bulk_string_from_string to_upper ◌≟◌
  apply_set_words key val ttl h = rw (flags-px_words ttl h)

  apply_array :
      (words : List Value)
      → apply_master_command P W hash now (new_array (slice (values words))) s w
        ≡ apply_words P W hash now words s w
  unfolding apply_master_command new_array
  apply_array words = rw (elements-values words)

  apply_expire_words :
      (key : Bytes) (sec : ℤ)
      → IsInt64 sec
      → apply_words P W hash now
          (new_bulk_string_from_string (bytes "EXPIRE")
            ∷ new_bulk_string_from_string key
            ∷ new_bulk_string_from_string (format_int sec)
            ∷ [])
          s
          w
        ≡ done (Store.expire P W hash key (mul64 sec second) now s w)
  unfolding apply_words extract_string new_bulk_string_from_string to_upper ◌≟◌
  apply_expire_words key sec h = rw (parse-format sec h, apply_expire)

  apply_del_words :
      (key : Bytes)
      → apply_words P W hash now
          (new_bulk_string_from_string (bytes "DEL") ∷ new_bulk_string_from_string key ∷ [])
          s
          w
        ≡ done (Store.delete P W hash key s w)
  unfolding apply_words apply_del extract_string new_bulk_string_from_string to_upper ◌≟◌
  apply_del_words key = refl

  -- The replica carries out what the master makes of an event.
  abbrev pub apply_event : WriteEvent → Applied P W hash now
  apply_event e = elim (event_words e) [
    | none ↦ returns (s, w)
    | some words ↦ apply_master_command P W hash now (new_array (slice (values words))) s w
  ]

  -- If the lifetime of an event is an int64, then the command that the master makes of the event
  -- has this effect on the store of a replica: for `SET`, a `Set` of the same key and value, with
  -- the lifetime cut to whole milliseconds, and without one if less than one is left or the
  -- lifetime is not positive; for `DEL`, a `Delete` of the same key; for `EXPIRE`, an `Expire` of
  -- the same key with the whole seconds of the lifetime, multiplied back with the wrap-around of
  -- int64.
  pub replica_follows :
      (key val : Bytes) (ttl : ℤ)
      → IsInt64 ttl
      → (apply_event (record { cmd_name = bytes "SET"; key = key; val = some val; ttl = ttl })
          ≡ done (Store.set P W hash key val (whole_milliseconds ttl) now s w))
        × (apply_event (record { cmd_name = bytes "DEL"; key = key; val = none; ttl = ttl })
            ≡ done (Store.delete P W hash key s w))
        × (apply_event (record { cmd_name = bytes "EXPIRE"; key = key; val = none; ttl = ttl })
            ≡ done (Store.expire P W hash key (mul64 (seconds ttl) second) now s w))
  unfolding event_words ◌≟◌
  replica_follows key val ttl h = (
    apply_array (set_words key (some val) ttl) ∙ apply_set_words key val ttl h,
    apply_array _ ∙ apply_del_words key,
    apply_array _ ∙ apply_expire_words key (seconds ttl) (seconds-IsInt64 ttl h),
  )
