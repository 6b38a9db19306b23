-- ===== src/Server/SetGet.antt =====
-- internal/server/handler.go: what `SET` writes, `GET` reads, through internal/store.
use vortex_kv_cache.Base.{
  ℕ, if◌then◌else◌, Option, none, some, Bool, true, false, ◌&&◌, ◌≡◌, ◌∙◌, refl, ap, Bytes, bytes,
  ◌≟◌, ≟_refl, to_upper, arith,
}
use vortex_kv_cache.Base.Int.{ℤ, pos, ltb_ℤ, leb_ℤ, ◌+ℤ◌}
use vortex_kv_cache.Eviction.{EvictionPolicy, PolicyLaws}
use vortex_kv_cache.Entry.{new_entry, is_expired}
use vortex_kv_cache.Entry.Expiry.{InRange, is_expired-new_entry}
use vortex_kv_cache.Shard
use vortex_kv_cache.Shard.{Shard}
use vortex_kv_cache.Shard.View.{seen, value_of}
use vortex_kv_cache.Store
use vortex_kv_cache.Store.{Store, Outcome, returns, ◌>>=◌}
use vortex_kv_cache.Store.Invariant.{IsValid, at_shard-returns}
use vortex_kv_cache.Store.Operations.{Returns, keeps, set-Returns}
use vortex_kv_cache.Store.Seen.{Ends, ends, Ends-open}
use vortex_kv_cache.Store.View.{set-Ends, get-Ends}
use vortex_kv_cache.Resp.Value.{
  Value, Values, slice, end, cons, new_array, new_bulk_string_bytes, new_bulk_string,
  new_null_bulk_string, new_simple_string, new_error,
}
use vortex_kv_cache.Server.Args.{lifetime, set_flags, extract_string, payload, elements}
use vortex_kv_cache.Server.Handler.{handle_get, set_args}
use vortex_kv_cache.Server.Dispatch.{
  Replication, Process, handle_set, run_command, run_words, dispatch,
}

-- what a key shows after a write
value_of-seen :
    (x : Bytes) (ttl now later : ℤ)
    → value_of (seen later (some (new_entry x ttl now)))
      ≡ (if is_expired (new_entry x ttl now) later then none else some x)
unfolding new_entry
value_of-seen x ttl now later = ground arith

-- the reply of `GET` to what the store returns
reply_of :
    (g : Option Bytes) (gone : Bool) (x : Bytes)
    → g ≡ (if gone then none else some x)
    → (elim g as (λ x. Value) [ none ↦ new_null_bulk_string | some b ↦ new_bulk_string (some b) ])
      ≡ (if gone then new_null_bulk_string else new_bulk_string (some x))
reply_of g true x e = rw e
reply_of g false x e = rw e

-- the commands as clients send them
abbrev pub word : Bytes → Value
word b = new_bulk_string_bytes (some b)

abbrev pub set_command : Bytes → Bytes → Values → Value
set_command k x flags =
    new_array (slice (cons (word (bytes "SET")) (cons (word k) (cons (word x) flags))))

abbrev pub get_command : Bytes → Value
get_command k = new_array (slice (cons (word (bytes "GET")) (cons (word k) end)))

Ends-bind :
    {A B : Type 0} {Q : A → Type 0} {R : B → Type 0} {o : Outcome A} {f : A → Outcome B}
    → Ends Q o
    → ((a : A) → Q a → Ends R (f a))
    → Ends R (o >>= f)
Ends-bind (ends a q) next = next a q

module _ {P : EvictionPolicy} {W : Type 0} (L : PolicyLaws P) (hash : Bytes → ℕ) where
  both :
      {A : Type 0} {Q R : A → Type 0} {f : A → Store P W} {o : Outcome A}
      → Ends Q o
      → Ends R o
      → Returns L hash f o
      → Ends (λ a. Q a × (R a × IsValid L hash (f a))) o
  both (ends a q) (ends _ r) (keeps _ v) = ends a (q, (r, v))

  -- `Set` leaves an open store open
  set-closed :
      (k x : Bytes) (ttl now : ℤ) (s : Store P W) (w : W)
      → IsValid L hash s
      → s.closed ≡ false
      → Ends (λ r. r.0.closed ≡ false) (Store.set P W hash k x ttl now s w)
  unfolding Store.set
  set-closed k x ttl now s w v open_store =
      let method : Shard P → Shard P × Unit {0} = λ shd. (Shard.set P k x ttl now shd, tt) in
      let c = at_shard-returns L hash k method s v in
      Ends-open s.closed _ _ open_store (rw c.result (ends _ open_store))

  module _ (clock : ℕ → ℤ) (repl : Option (Replication W))
      (register : Option (ℤ → Store P W → W → W)) (process : Process) (s : Store P W) (w : W) where
    dispatch-set :
        (r : Replication W) (k x : Bytes) (flags : Values) (ttl : ℤ)
        → r.is_read_only w ≡ false
        → set_flags (elements (slice flags)) (pos 0) ≡ lifetime ttl
        → dispatch P W hash clock (some r) register process (set_command k x flags) s w ≡ (
            Store.set P W hash k x ttl (clock 0) s w >>= (λ r.
              let (s', w', stored) = r in
              returns (
                s',
                w',
                if stored
                    then new_simple_string (bytes "OK")
                    else new_error (bytes "ERR store is closed"),
              )))
    unfolding dispatch run_words run_command handle_set set_args to_upper ◌≟◌ extract_string payload
        new_array new_bulk_string_bytes
    dispatch-set r k x flags ttl locked e = rw (handle_set, locked) (rw (set_args, e))

    dispatch-get :
        (k : Bytes)
        → dispatch P W hash clock repl register process (get_command k) s w ≡ (
            Store.get P W hash k (clock 0) s >>= (λ r.
              let (s', val) = r in
              returns (
                s',
                w,
                elim val [ none ↦ new_null_bulk_string | some b ↦ new_bulk_string (some b) ],
              )))
    unfolding dispatch run_words run_command handle_get to_upper ◌≟◌ extract_string new_array
        new_bulk_string_bytes
    dispatch-get k = refl

  -- On a valid store that is open, with a lawful policy and on a node that takes writes: if the
  -- flags of a `SET` command give a lifetime that does not overflow together with a time that is
  -- not negative, then the command replies OK, and a `GET` of the key that follows replies with
  -- the written value until the lifetime is over, and with nil from then on.
  pub set_then_get :
      (clock later : ℕ → ℤ) (r : Replication W) (register : Option (ℤ → Store P W → W → W))
      (process : Process) (s : Store P W) (w : W) (k x : Bytes) (flags : Values) (ttl : ℤ)
      → IsValid L hash s
      → s.closed ≡ false
      → r.is_read_only w ≡ false
      → set_flags (elements (slice flags)) (pos 0) ≡ lifetime ttl
      → InRange ttl (clock 0)
      → Ends
          (λ a.
            (a.2 ≡ new_simple_string (bytes "OK"))
            × Ends
                (λ q. q.2 ≡ (
                  if ltb_ℤ (pos 0) ttl && leb_ℤ (clock 0 +ℤ ttl) (later 0)
                  then new_null_bulk_string
                  else new_bulk_string (some x)))
                (dispatch P W hash later (some r) register process (get_command k) a.0 a.1))
          (dispatch P W hash clock (some r) register process (set_command k x flags) s w)
  set_then_get clock later r register process s w k x flags ttl v open_store locked e range =
      rw (dispatch-set clock (some r) register process s w r k x flags ttl locked e) (
        Ends-bind
          (both (set-Ends L hash k s v open_store x ttl (clock 0) (later 0) w k)
            (set-closed k x ttl (clock 0) s w v open_store)
            (set-Returns L hash k s v x ttl (clock 0) w))
          (λ a h.
            let (q, (o, u)) = h in
            ends _ (
              rw q.0,
              rw (dispatch-get later (some r) register process a.0 a.1 k) (
                  Ends-bind (get-Ends L hash k a.0 u o (later 0) (later 0) k (omega arith)) (λ g p.
                    let own = rw (≟_refl k) at q.2 in
                    let gone = is_expired-new_entry x ttl (clock 0) (later 0) range in
                    ends _ (
                      reply_of g.1 _ x (
                        p.0
                        ∙ ap value_of own
                        ∙ value_of-seen x ttl (clock 0) (later 0)
                        ∙ ap (λ (t : Bool). if t then none else some x) gone)))),
            )))
