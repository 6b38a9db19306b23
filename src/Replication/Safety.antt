-- ===== src/Replication/Safety.antt =====
-- internal/replication/replica.go: no value that a master sends panics, and the store stays valid.
use vortex_kv_cache.Base.{ℕ, ◌==◌, Option, none, some, List, [], ◌∷◌, Bytes, bytes, ◌≟◌, to_upper}
use vortex_kv_cache.Base.Int.{ℤ, mul64}
use vortex_kv_cache.Eviction.{EvictionPolicy, PolicyLaws}
use vortex_kv_cache.Store.{Store}
use vortex_kv_cache.Store.Invariant.{IsValid}
use vortex_kv_cache.Store.Operations.{
  Returns, keeps, Returns-bind, Returns-if, set-Returns, delete-Returns, expire-Returns,
}
use vortex_kv_cache.Resp.Value.{Value, value, type_array}
use vortex_kv_cache.Resp.Decimal.{parse_int}
use vortex_kv_cache.Server.Args.{extract_string, elements, second}
use vortex_kv_cache.Replication.Replica.{
  Applied, apply_set, apply_del, apply_expire, apply_words, apply_master_command,
}

module _ {P : EvictionPolicy} {W : Type 0} (L : PolicyLaws P) (hash : Bytes → ℕ) (now : ℤ) where
  -- the store is valid afterwards
  abbrev Applies : Applied P W hash now → Type 0
  Applies = Returns L hash (λ r. r.0)

  of_option :
      {A : Type 0} (o : Option A) (x : Applied P W hash now) (y : A → Applied P W hash now)
      → Applies x
      → ((a : A) → Applies (y a))
      → Applies (elim o [ none ↦ x | some a ↦ y a ])
  of_option none x y e f = e
  of_option (some a) x y e f = f a

  apply_set-Returns :
      (args : List Value) (s : Store P W) (w : W)
      → IsValid L hash s
      → Applies (apply_set P W hash now args s w)
  unfolding apply_set
  apply_set-Returns [] s w v = keeps _ v
  apply_set-Returns (k ∷ []) s w v = keeps _ v
  apply_set-Returns (k ∷ x ∷ flags) s w v =
      Returns-bind L hash (set-Returns L hash (extract_string k) s v _ _ now w) (λ r u. keeps _ u)

  apply_del-Returns :
      (args : List Value) (s : Store P W) (w : W)
      → IsValid L hash s
      → Applies (apply_del P W hash now args s w)
  unfolding apply_del
  apply_del-Returns [] s w v = keeps _ v
  apply_del-Returns (k ∷ args) s w v =
      Returns-bind L hash (delete-Returns L hash (extract_string k) s v w)
        (λ r u. apply_del-Returns args r.0 r.1 u)

  apply_expire-Returns :
      (args : List Value) (s : Store P W) (w : W)
      → IsValid L hash s
      → Applies (apply_expire P W hash now args s w)
  unfolding apply_expire
  apply_expire-Returns [] s w v = keeps _ v
  apply_expire-Returns (k ∷ []) s w v = keeps _ v
  apply_expire-Returns (k ∷ num ∷ []) s w v =
      of_option (parse_int (extract_string num)) _ _ (keeps _ v) (λ n.
        Returns-bind L hash (expire-Returns L hash (extract_string k) s v (mul64 n second) now w)
          (λ r u. keeps _ u))
  apply_expire-Returns (k ∷ num ∷ x ∷ args) s w v = keeps _ v

  apply_words-Returns :
      (words : List Value) (s : Store P W) (w : W)
      → IsValid L hash s
      → Applies (apply_words P W hash now words s w)
  unfolding apply_words
  apply_words-Returns [] s w v = keeps _ v
  apply_words-Returns (name ∷ args) s w v =
      let cmd_name = to_upper (extract_string name) in
      Returns-if L hash (cmd_name ≟ bytes "SET") (apply_set-Returns args s w v) (
        Returns-if L hash (cmd_name ≟ bytes "DEL") (apply_del-Returns args s w v) (
          Returns-if L hash (cmd_name ≟ bytes "EXPIRE") (apply_expire-Returns args s w v)
            (keeps _ v)))

  -- On a valid store with a lawful policy, a replica applies every value that its master sends
  -- without a panic, and its store is valid afterwards.
  pub apply_master_command-Returns :
      (cmd : Value) (s : Store P W) (w : W)
      → IsValid L hash s
      → Returns L hash (λ r. r.0) (apply_master_command P W hash now cmd s w)
  unfolding apply_master_command
  apply_master_command-Returns (value typ str num bulk array nil) s w v =
      Returns-if L hash (typ == type_array) (apply_words-Returns (elements array) s w v) (keeps _ v)
