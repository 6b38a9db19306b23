-- ===== src/Store/Runs.antt =====
-- Whole runs on a store (internal/store/store.go), from `NewStore` on.
use vortex_kv_cache.Base.{
  ℕ, zero, suc, ◌-◌, ◌^◌, some, false, ◌≡◌, ◌∙◌, ap, List, [], ◌∷◌, Bytes, arith, length,
  length-replicate, All-replicate, replicate, get_elem?,
}
use vortex_kv_cache.Base.Int.{ℤ, pos_part}
use vortex_kv_cache.Base.Dict.{lookup}
use vortex_kv_cache.Eviction.{EvictionPolicy, PolicyLaws}
use vortex_kv_cache.Shard.{new_shard}
use vortex_kv_cache.Shard.Invariant.{new_shard-IsValid}
use vortex_kv_cache.Shard.Invariant
use vortex_kv_cache.Store
use vortex_kv_cache.Store.{
  Config, Store, WriteEvent, Outcome, returns, ◌>>=◌, new_store, bad_shard_count, or_default,
  millisecond, on_write,
}
use vortex_kv_cache.Store.Invariant.{IsValid}
use vortex_kv_cache.Store.Routing.{good_count}
use vortex_kv_cache.Store.Operations.{
  Returns, keeps, set-Returns, get-Returns, delete-Returns, exists-Returns, ttl-Returns,
  expire-Returns, Returns-bind,
}

-- a call of a method, with the time that it reads
pub data Call (W : Type 0) : Type 0 where
  set : Bytes → Bytes → ℤ → ℤ → Call W
  get exists ttl : Bytes → ℤ → Call W
  delete : Bytes → Call W
  expire : Bytes → ℤ → ℤ → Call W
  listen : (WriteEvent → W → W) → Call W
  close : Call W

module _ (P : EvictionPolicy) (W : Type 0) (hash : Bytes → ℕ) where
  pub call : Call W → Store P W × W → Outcome (Store P W × W)
  unfolding Store.set Store.get Store.exists Store.ttl Store.delete Store.expire
  call (Call.set k v life now) (s, w) = do
    r ← Store.set P W hash k v life now s w
    returns (r.0, r.1)
  call (Call.get k now) (s, w) = do r ← Store.get P W hash k now s; returns (r.0, w)
  call (Call.exists k now) (s, w) = do r ← Store.exists P W hash k now s; returns (r.0, w)
  call (Call.ttl k now) (s, w) = do r ← Store.ttl P W hash k now s; returns (r.0, w)
  call (Call.delete k) (s, w) = do r ← Store.delete P W hash k s w; returns (r.0, r.1)
  call (Call.expire k life now) (s, w) = do
    r ← Store.expire P W hash k life now s w
    returns (r.0, r.1)
  call (Call.listen hook) (s, w) = returns (Store.on_write P W hook s, w)
  call Call.close (s, w) = returns (Store.close P W s, w)

  pub run : List (Call W) → Store P W × W → Outcome (Store P W × W)
  unfolding call
  run [] sw = returns sw
  run (c ∷ cs) sw = call c sw >>= run cs

replicate-get : {A : Type 0} (n i : ℕ) (a b : A) → get_elem? (replicate n a) i ≡ some b → a ≡ b
replicate-get zero i a b h = cc
replicate-get (suc n) zero a b h = cc
replicate-get (suc n) (suc i) a b h = replicate-get n i a b h

module _ {P : EvictionPolicy} {W : Type 0} (L : PolicyLaws P) (hash : Bytes → ℕ) where
  pub new_store-IsValid :
      (limit : ℕ) (cfg : Config) (s : Store P W)
      → new_store P W limit cfg ≡ returns (some s)
      → IsValid L hash s
  unfolding new_store
  new_store-IsValid limit cfg s e =
      let n = pos_part cfg.shard_count in
      let first = new_shard P cfg.max_keys_per_shard cfg.eviction_factory in
      let good : bad_shard_count cfg.shard_count ≡ false = ground arith in
      let (k, power) = (good_count cfg.shard_count).0 good in
      let made : s.shards ≡ replicate n first = ground arith in
      let masked : s.shard_mask ≡ n - 1 = ground arith in
      let size : n ≡ 2 ^ k = ap pos_part power in
      record {
        bits = k;
        count = ap length made ∙ length-replicate n first ∙ size;
        mask = masked ∙ ap (λ (m : ℕ). m - 1) size;
        shards = rw made (
            All-replicate (Invariant.IsValid L) n first
              (new_shard-IsValid L cfg.max_keys_per_shard cfg.eviction_factory));
        placed = λ i shd key x at there.
            let same = replicate-get n i first shd (rw made at at) in
            absurd (unfold new_shard lookup in ground arith);
      }

  call-Returns :
      (c : Call W) (s : Store P W) (w : W)
      → IsValid L hash s
      → Returns L hash (λ r. r.0) (call P W hash c (s, w))
  unfolding call on_write Store.close
  call-Returns (Call.set k x life now) s w v =
      Returns-bind L hash (set-Returns L hash k s v x life now w) (λ r u. keeps _ u)
  call-Returns (Call.get k now) s w v =
      Returns-bind L hash (get-Returns L hash k s v now) (λ r u. keeps _ u)
  call-Returns (Call.exists k now) s w v =
      Returns-bind L hash (exists-Returns L hash k s v now) (λ r u. keeps _ u)
  call-Returns (Call.ttl k now) s w v =
      Returns-bind L hash (ttl-Returns L hash k s v now) (λ r u. keeps _ u)
  call-Returns (Call.delete k) s w v =
      Returns-bind L hash (delete-Returns L hash k s v w) (λ r u. keeps _ u)
  call-Returns (Call.expire k life now) s w v =
      Returns-bind L hash (expire-Returns L hash k s v life now w) (λ r u. keeps _ u)
  call-Returns (Call.listen hook) s w v = keeps _ (record {
    bits = v.bits;
    count = v.count;
    mask = v.mask;
    shards = v.shards;
    placed = v.placed;
  })
  call-Returns Call.close s w v = keeps _ (record {
    bits = v.bits;
    count = v.count;
    mask = v.mask;
    shards = v.shards;
    placed = v.placed;
  })

  run-Returns :
      (cs : List (Call W)) (s : Store P W) (w : W)
      → IsValid L hash s
      → Returns L hash (λ r. r.0) (run P W hash cs (s, w))
  unfolding run
  run-Returns [] s w v = keeps _ v
  run-Returns (c ∷ cs) s w v =
      Returns-bind L hash (call-Returns c s w v) (λ r u. run-Returns cs r.0 r.1 u)

  -- If `NewStore` makes a store, for a lawful policy, then every sequence of calls of `Set`,
  -- `Get`, `Exists`, `TTL`, `Delete`, `Expire`, `OnWrite` and `Close` on it ends without a panic
  -- in a valid store: the number of shards is a power of two that fits the mask, every shard is
  -- valid, and each key is in the shard of its hash.
  pub new_store-run :
      (limit : ℕ) (cfg : Config) (s : Store P W) (cs : List (Call W)) (w : W)
      → new_store P W limit cfg ≡ returns (some s)
      → Returns L hash (λ r. r.0) (run P W hash cs (s, w))
  new_store-run limit cfg s cs w e = run-Returns cs s w (new_store-IsValid limit cfg s e)
