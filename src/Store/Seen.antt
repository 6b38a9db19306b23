-- ===== src/Store/Seen.antt =====
-- What a client sees of a store (internal/store/store.go), and what a call on one shard changes of it.
use vortex_kv_cache.Base.{
  ℕ, ◌==◌, Option, none, some, Bool, true, false, ◌&&◌, ◌≡◌, refl, sym, List, Bytes, arith,
  if◌then◌else◌, is_some, get_elem?, set as set_elem, get_elem?-set_self, get_elem?-set_ne,
}
use vortex_kv_cache.Base.Int.{ℤ}
use vortex_kv_cache.Base.Dict.{lookup}
use vortex_kv_cache.Eviction.{EvictionPolicy}
use vortex_kv_cache.Shard.{Shard}
use vortex_kv_cache.Shard.View.{see, evicted}
use vortex_kv_cache.Store.{Store, Outcome, returns, shard_index}

-- the run returns, with a result that has `Q`
pub data Ends {A : Type 0} (Q : A → Type 0) : Outcome A → Type 0 where
  ends : (a : A) → Q a → Ends Q (returns a)

pub Ends-open :
    {A : Type 0} {Q : A → Type 0} (closed : Bool) (x y : Outcome A)
    → closed ≡ false
    → Ends Q y
    → Ends Q (if closed then x else y)
Ends-open true x y e t = absurd (cc)
Ends-open false x y e t = t

module _ {P : EvictionPolicy} where
  abbrev pub see_at : ℤ → Option (Shard P) → Bytes → Option (Bytes × ℤ)
  see_at now none key = none
  see_at now (some shd) key = see now shd key

  abbrev pub stored_at : Bytes → Option (Shard P) → Bool
  stored_at key none = false
  stored_at key (some shd) = is_some (lookup key shd.items)

  abbrev pub evicted_at : Bytes → Option (Shard P) → Option Bytes
  evicted_at key none = none
  evicted_at key (some shd) = evicted key shd

module _ {P : EvictionPolicy} {W : Type 0} (hash : Bytes → ℕ) where
  -- value and deadline that a client sees under a key at the time `now`
  abbrev pub store_see : ℤ → Store P W → Bytes → Option (Bytes × ℤ)
  store_see now s key = see_at now (get_elem? s.shards (shard_index P W hash s key)) key

  -- whether there is an entry under the key, expired or not
  abbrev pub store_has : Store P W → Bytes → Bool
  store_has s key = stored_at key (get_elem? s.shards (shard_index P W hash s key))

  -- the key that a `set` of `key` evicts
  abbrev pub store_evicted : Bytes → Store P W → Option Bytes
  store_evicted key s = evicted_at key (get_elem? s.shards (shard_index P W hash s key))

  -- two keys in one shard
  abbrev pub together : Store P W → Bytes → Bytes → Bool
  together s i j = shard_index P W hash s i == shard_index P W hash s j

pub if_ap {ℓ κ} :
    {A : Type ℓ} {B : Type κ} (b : Bool) (f : A → B) (x y : A)
    → f (if b then x else y) ≡ (if b then f x else f y)
if_ap true f x y = refl
if_ap false f x y = refl

-- A key of its own is in the called shard `t`; what the shard shows of another is what the store
-- showed of it.
pub routed :
    {A : Type 0} (t own : Bool) (new inner old : A)
    → (own ≡ true → t ≡ true)
    → (t ≡ true → old ≡ inner)
    → (if t then (if own then new else inner) else old) ≡ (if own then new else old)
routed true true new inner old e f = refl
routed true false new inner old e f = sym (f refl)
routed false true new inner old e f = absurd (cc (e refl))
routed false false new inner old e f = refl

pub routed_hidden :
    {A : Type 0} (t own hit : Bool) (new none' inner old : A)
    → (own ≡ true → t ≡ true)
    → (t ≡ true → old ≡ inner)
    → (if t then (if own then new else if hit then none' else inner) else old)
      ≡ (if own then new else if t && hit then none' else old)
routed_hidden true true hit new none' inner old e f = refl
routed_hidden true false true new none' inner old e f = refl
routed_hidden true false false new none' inner old e f = sym (f refl)
routed_hidden false true hit new none' inner old e f = absurd (cc (e refl))
routed_hidden false false hit new none' inner old e f = refl

-- the shard under an index after a write to another shard, or to this one
pub get_elem?-set :
    {A : Type 0} (xs : List A) (n m : ℕ) (x a : A)
    → get_elem? xs n ≡ some a
    → get_elem? (set_elem xs n x) m ≡ (if n == m then some x else get_elem? xs m)
get_elem?-set xs n m x a h =
    ground (arith, get_elem?-set_self xs n x a h, get_elem?-set_ne xs n m x)
