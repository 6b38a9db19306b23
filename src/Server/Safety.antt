-- ===== src/Server/Safety.antt =====
-- internal/server/handler.go: every command ends, with a reply and a valid store.
use vortex_kv_cache.Base.{
  ℕ, ◌==◌, Option, none, some, ◌||◌, List, [], ◌∷◌, Bytes, bytes, ◌≟◌, to_upper,
}
use vortex_kv_cache.Base.{◌+◌}
use vortex_kv_cache.Base.Int.{ℤ, pos, mul64}
use vortex_kv_cache.Eviction.{EvictionPolicy, PolicyLaws}
use vortex_kv_cache.Store.{Store}
use vortex_kv_cache.Store.Invariant.{IsValid}
use vortex_kv_cache.Store.Operations.{
  Returns, keeps, Returns-bind, Returns-if, set-Returns, get-Returns, delete-Returns,
  exists-Returns, ttl-Returns, expire-Returns,
}
use vortex_kv_cache.Resp.Value.{Value, value, type_array}
use vortex_kv_cache.Resp.Decimal.{parse_int}
use vortex_kv_cache.Server.Args.{
  Flags, refused, lifetime, set_flags, extract_string, elements, second,
}
use vortex_kv_cache.Server.Handler.{
  Reply, handle_get, set_args, delete_all, del_args, exists_all, handle_exists, expire_args,
  handle_ttl,
}
use vortex_kv_cache.Server.Dispatch.{
  Replication, Process, handle_set, handle_del, handle_expire, handle_slave_of, handle_psync,
  handle_info, run_command, run_words, dispatch,
}

module _ {P : EvictionPolicy} {W : Type 0} (L : PolicyLaws P) (hash : Bytes → ℕ)
    (clock : ℕ → ℤ) where
  -- a reply, with a valid store
  abbrev Replies : Reply P W hash clock → Type 0
  Replies = Returns L hash (λ r. r.0)

  of_option :
      {A : Type 0} (o : Option A) (x : Reply P W hash clock) (y : A → Reply P W hash clock)
      → Replies x
      → ((a : A) → Replies (y a))
      → Replies (elim o [ none ↦ x | some a ↦ y a ])
  of_option none x y e f = e
  of_option (some a) x y e f = f a

  of_flags :
      (o : Flags) (x : Bytes → Reply P W hash clock) (y : ℤ → Reply P W hash clock)
      → ((t : Bytes) → Replies (x t))
      → ((d : ℤ) → Replies (y d))
      → Replies (elim o [ refused t ↦ x t | lifetime d ↦ y d ])
  of_flags (refused t) x y e f = e t
  of_flags (lifetime d) x y e f = f d

  handle_get-Returns :
      (args : List Value) (s : Store P W) (w : W)
      → IsValid L hash s
      → Replies (handle_get P W hash clock args s w)
  unfolding handle_get
  handle_get-Returns [] s w v = keeps _ v
  handle_get-Returns (k ∷ []) s w v =
      Returns-bind L hash (get-Returns L hash (extract_string k) s v (clock 0)) (λ r u. keeps _ u)
  handle_get-Returns (k ∷ x ∷ args) s w v = keeps _ v

  set_args-Returns :
      (args : List Value) (s : Store P W) (w : W)
      → IsValid L hash s
      → Replies (set_args P W hash clock args s w)
  unfolding set_args
  set_args-Returns [] s w v = keeps _ v
  set_args-Returns (k ∷ []) s w v = keeps _ v
  set_args-Returns (k ∷ x ∷ flags) s w v =
      of_flags (set_flags flags (pos 0)) _ _ (λ t. keeps _ v)
        (λ d.
          Returns-bind L hash (set-Returns L hash (extract_string k) s v _ d (clock 0) w)
            (λ r u. keeps _ u))

  delete_all-Returns :
      (args : List Value) (n : ℕ) (s : Store P W) (w : W)
      → IsValid L hash s
      → Returns L hash (λ r. r.0) (delete_all P W hash clock args n s w)
  unfolding delete_all
  delete_all-Returns [] n s w v = keeps _ v
  delete_all-Returns (k ∷ args) n s w v =
      Returns-bind L hash (delete-Returns L hash (extract_string k) s v w)
        (λ r u. delete_all-Returns args _ r.0 r.1 u)

  exists_all-Returns :
      (args : List Value) (i n : ℕ) (s : Store P W)
      → IsValid L hash s
      → Returns L hash (λ r. r.0) (exists_all P W hash clock args i n s)
  unfolding exists_all
  exists_all-Returns [] i n s v = keeps _ v
  exists_all-Returns (k ∷ args) i n s v =
      Returns-bind L hash (exists-Returns L hash (extract_string k) s v (clock i))
        (λ r u. exists_all-Returns args (i + 1) _ r.0 u)

  del_args-Returns :
      (args : List Value) (s : Store P W) (w : W)
      → IsValid L hash s
      → Replies (del_args P W hash clock args s w)
  unfolding del_args
  del_args-Returns [] s w v = keeps _ v
  del_args-Returns (k ∷ args) s w v =
      Returns-bind L hash (delete_all-Returns (k ∷ args) 0 s w v) (λ r u. keeps _ u)

  handle_exists-Returns :
      (args : List Value) (s : Store P W) (w : W)
      → IsValid L hash s
      → Replies (handle_exists P W hash clock args s w)
  unfolding handle_exists
  handle_exists-Returns [] s w v = keeps _ v
  handle_exists-Returns (k ∷ args) s w v =
      Returns-bind L hash (exists_all-Returns (k ∷ args) 0 0 s v) (λ r u. keeps _ u)

  expire_args-Returns :
      (args : List Value) (s : Store P W) (w : W)
      → IsValid L hash s
      → Replies (expire_args P W hash clock args s w)
  unfolding expire_args
  expire_args-Returns [] s w v = keeps _ v
  expire_args-Returns (k ∷ []) s w v = keeps _ v
  expire_args-Returns (k ∷ num ∷ []) s w v =
      of_option (parse_int (extract_string num)) _ _ (keeps _ v) (λ n.
        Returns-bind L hash
          (expire-Returns L hash (extract_string k) s v (mul64 n second) (clock 0) w)
          (λ r u. keeps _ u))
  expire_args-Returns (k ∷ num ∷ x ∷ args) s w v = keeps _ v

  handle_ttl-Returns :
      (args : List Value) (s : Store P W) (w : W)
      → IsValid L hash s
      → Replies (handle_ttl P W hash clock args s w)
  unfolding handle_ttl
  handle_ttl-Returns [] s w v = keeps _ v
  handle_ttl-Returns (k ∷ []) s w v =
      Returns-bind L hash (ttl-Returns L hash (extract_string k) s v (clock 0)) (λ r u. keeps _ u)
  handle_ttl-Returns (k ∷ x ∷ args) s w v = keeps _ v

  module _ (r : Replication W) (register : Option (ℤ → Store P W → W → W)) (process : Process)
      (s : Store P W) (w : W) (v : IsValid L hash s) where
    slave_of-Returns :
        (args : List Value)
        → Replies (handle_slave_of P W hash clock (some r) register process args s w)
    unfolding handle_slave_of
    slave_of-Returns [] = keeps _ v
    slave_of-Returns (host ∷ []) = keeps _ v
    slave_of-Returns (host ∷ port ∷ []) = keeps _ v
    slave_of-Returns (host ∷ port ∷ x ∷ args) = keeps _ v

    run_command-Returns :
        (name : Bytes) (args : List Value)
        → Replies (run_command P W hash clock (some r) register process name args s w)
    unfolding run_command handle_set handle_del handle_expire handle_psync handle_info
    run_command-Returns name args =
        let locked = r.is_read_only w in
        Returns-if L hash (name ≟ bytes "PING") (keeps _ v) (
          Returns-if L hash (name ≟ bytes "GET") (handle_get-Returns args s w v) (
            Returns-if L hash (name ≟ bytes "SET")
              (Returns-if L hash locked (keeps _ v) (set_args-Returns args s w v))
              (Returns-if L hash (name ≟ bytes "DEL")
                (Returns-if L hash locked (keeps _ v) (del_args-Returns args s w v))
                (Returns-if L hash (name ≟ bytes "EXISTS") (handle_exists-Returns args s w v) (
                  Returns-if L hash (name ≟ bytes "EXPIRE")
                    (Returns-if L hash locked (keeps _ v) (expire_args-Returns args s w v))
                    (Returns-if L hash (name ≟ bytes "TTL") (handle_ttl-Returns args s w v) (
                      Returns-if L hash (name ≟ bytes "INFO") (keeps _ v) (
                        Returns-if L hash ((name ≟ bytes "SLAVEOF") || (name ≟ bytes "REPLICATEOF"))
                          (slave_of-Returns args)
                          (Returns-if L hash ((name ≟ bytes "PSYNC") || (name ≟ bytes "SYNC"))
                            (keeps _ v) (keeps _ v))))))))))

    run_words-Returns :
        (words : List Value)
        → Replies (run_words P W hash clock (some r) register process words s w)
    unfolding run_words
    run_words-Returns [] = keeps _ v
    run_words-Returns (name ∷ args) = run_command-Returns (to_upper (extract_string name)) args

    -- On a valid store with a lawful policy, and on a node with a replica manager, every value
    -- that a client sends as a command is answered without a panic, and the store is valid
    -- afterwards.
    pub dispatch-Returns :
        (cmd : Value)
        → Returns L hash (λ r. r.0) (dispatch P W hash clock (some r) register process cmd s w)
    unfolding dispatch
    dispatch-Returns (value typ str num bulk array nil) =
        Returns-if L hash (typ == type_array) (run_words-Returns (elements array)) (keeps _ v)
