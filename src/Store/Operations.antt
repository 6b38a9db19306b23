-- ===== src/Store/Operations.antt =====
-- Every operation of internal/store/store.go returns, and keeps the invariant of the store.
use vortex_kv_cache.Base.{ℕ, ◌≡◌, refl, Bool, true, false, Bytes, if◌then◌else◌}
use vortex_kv_cache.Base.Int.{ℤ}
use vortex_kv_cache.Eviction.{EvictionPolicy, PolicyLaws}
use vortex_kv_cache.Shard.{Shard}
use vortex_kv_cache.Store.{
  Store, Outcome, panic, returns, ◌>>=◌, at_shard, set, get, delete, exists, ttl, expire,
}
use vortex_kv_cache.Shard.Local.{
  IsLocal, set-IsLocal, get-IsLocal, remove-IsLocal, exists-IsLocal, ttl-IsLocal, expire-IsLocal,
}
use vortex_kv_cache.Store.Invariant.{IsValid, at_shard-returns, at_shard-IsValid}

-- what is made of an outcome, changed where it returns
pub outcome_cong :
    {A B : Type 0} (o : Outcome A) (crash : B) (f g : A → B)
    → ((a : A) → f a ≡ g a)
    → elim o [ panic ↦ crash | returns a ↦ f a ] ≡ elim o [ panic ↦ crash | returns a ↦ g a ]
outcome_cong panic crash f g h = refl
outcome_cong (returns a) crash f g h = h a

module _ {P : EvictionPolicy} {W : Type 0} (L : PolicyLaws P) (hash : Bytes → ℕ) where
  -- The postcondition of an operation that changes a store: it returns, and the store is valid.
  pub data Returns {A : Type 0} (state : A → Store P W) : Outcome A → Type 0 where
    keeps : (a : A) → IsValid L hash (state a) → Returns state (returns a)

  pub at_shard-Returns :
      {A : Type 0} (key : Bytes) (method : Shard P → Shard P × A) (s : Store P W)
      → IsLocal L key method
      → IsValid L hash s
      → Returns (λ r. r.0) (at_shard P W hash key method s)
  at_shard-Returns key method s m v =
      let c = at_shard-returns L hash key method s v in
      rw c.result (keeps _ (at_shard-IsValid L hash key method s m v c.shd c.found))

  pub Returns-bind :
      {A B : Type 0} {f : A → Store P W} {g : B → Store P W} {o : Outcome A} {k : A → Outcome B}
      → Returns f o
      → ((a : A) → IsValid L hash (f a) → Returns g (k a))
      → Returns g (o >>= k)
  Returns-bind (keeps a v) next = next a v

  pub Returns-if :
      {A : Type 0} {f : A → Store P W} (b : Bool) {x y : Outcome A}
      → Returns f x
      → Returns f y
      → Returns f (if b then x else y)
  Returns-if true r t = r
  Returns-if false r t = t

  module _ (key : Bytes) (s : Store P W) (v : IsValid L hash s) where
    pub set-Returns :
        (val : Bytes) (life now : ℤ) (w : W)
        → Returns (λ r. r.0) (set P W hash key val life now s w)
    unfolding set
    set-Returns val life now w = Returns-if s.closed (keeps _ v) (
        Returns-bind (at_shard-Returns key _ s (set-IsLocal L key val life now) v)
          (λ r u. keeps _ u))

    pub get-Returns : (now : ℤ) → Returns (λ r. r.0) (get P W hash key now s)
    unfolding get
    get-Returns now =
        Returns-if s.closed (keeps _ v) (at_shard-Returns key _ s (get-IsLocal L key now) v)

    pub delete-Returns : (w : W) → Returns (λ r. r.0) (delete P W hash key s w)
    unfolding delete
    delete-Returns w =
        Returns-if s.closed (keeps _ v)
          (Returns-bind (at_shard-Returns key _ s (remove-IsLocal L key) v) (λ r u. keeps _ u))

    pub exists-Returns : (now : ℤ) → Returns (λ r. r.0) (exists P W hash key now s)
    unfolding exists
    exists-Returns now =
        Returns-if s.closed (keeps _ v) (at_shard-Returns key _ s (exists-IsLocal L key now) v)

    pub ttl-Returns : (now : ℤ) → Returns (λ r. r.0) (ttl P W hash key now s)
    unfolding ttl
    ttl-Returns now =
        Returns-if s.closed (keeps _ v)
          (Returns-bind (at_shard-Returns key _ s (ttl-IsLocal L key now) v) (λ r u. keeps _ u))

    pub expire-Returns :
        (life now : ℤ) (w : W) → Returns (λ r. r.0) (expire P W hash key life now s w)
    unfolding expire
    expire-Returns life now w = Returns-if s.closed (keeps _ v) (
        Returns-bind (at_shard-Returns key _ s (expire-IsLocal L key life now) v)
          (λ r u. keeps _ u))
