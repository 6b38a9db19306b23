-- ===== src/Lru/Contract.antt =====
-- internal/store/lru.go fulfils the contract of internal/store/eviction.go, and
-- `NewEvictionPolicy`, the choice of a policy by its name.
use vortex_kv_cache.Base.{
  Option, none, some, Bool, true, false, ◌||◌, ◌&&◌, not, ◌≡◌, refl, List, [], ◌∷◌, Bytes, bytes,
  arith, ◌≟◌, ≟_iff, is_some, if◌then◌else◌,
}
use vortex_kv_cache.Base.Dict.{lookup}
use vortex_kv_cache.Eviction.{EvictionPolicy, PolicyLaws}
use vortex_kv_cache.Lru.{LruPolicy, new_lru_policy, on_get, on_set, on_delete, select_evict, clear}
use vortex_kv_cache.Lru.History.{
  Call, mem, remove, last?, use_key, step, Represents, new_lru_policy-Represents, step-Represents,
  mem-keys, select_evict-last?,
}

abbrev pub lru_policy : EvictionPolicy
lru_policy = record {
  State = LruPolicy;
  create = new_lru_policy;
  on_get = on_get;
  on_set = on_set;
  on_delete = on_delete;
  select_evict = select_evict;
  clear = clear;
}

-- `none` is the nil factory
unfoldable pub new_eviction_policy : Bytes → Option EvictionPolicy
new_eviction_policy e_type = if e_type ≟ bytes "lru" then some lru_policy else none

mem-remove : (k j : Bytes) (ks : List Bytes) → mem j (remove k ks) ≡ (not (k ≟ j) && mem j ks)
unfolding mem remove
mem-remove k j [] = ground arith
mem-remove k j (i ∷ ks) = ground (arith, ≟_iff i k, ≟_iff i j, ≟_iff k j, mem-remove k j ks)

mem-use_get : (k j : Bytes) (ks : List Bytes) → mem j (use_key ks (Call.get k)) ≡ mem j ks
unfolding use_key mem
mem-use_get k j ks = ground (arith, mem-remove k j ks, ≟_iff k j)

mem-last? : (k : Bytes) (ks : List Bytes) → last? ks ≡ some k → mem k ks ≡ true
unfolding last? mem
mem-last? k [] h = cc
mem-last? k (j ∷ []) h = ground (arith, ≟_iff j k)
mem-last? k (j ∷ i ∷ ks) h = ground (arith, mem-last? k (i ∷ ks))

last?-none : (j : Bytes) (ks : List Bytes) → last? ks ≡ none → mem j ks ≡ false
unfolding last? mem
last?-none j [] h = refl
last?-none j (i ∷ []) h = cc
last?-none j (i ∷ i' ∷ ks) h = absurd (last?-some i' ks h)
  where
    last?-some : (i : Bytes) (ks : List Bytes) → last? (i ∷ ks) ≡ none → ⊥
    last?-some i [] h = cc
    last?-some i (i' ∷ ks) h = last?-some i' ks h

pub has : LruPolicy → Bytes → Bool
has p k = is_some (lookup k p.nodes)

has-Represents :
    (p : LruPolicy) (ks : List Bytes) (k : Bytes) → Represents p ks → has p k ≡ mem k ks
unfolding has
has-Represents p ks k r = ground (arith, r.tracks.index k, mem-keys k r.cells, r.order)

abbrev pub IsLru : LruPolicy → Type 0
IsLru p = (ks : List Bytes) × Represents p ks

step-IsLru : (p : LruPolicy) (c : Call) → IsLru p → IsLru (step p c)
step-IsLru p c (ks, r) = (use_key ks c, step-Represents p ks c r)

has-step :
    (p : LruPolicy) (ks : List Bytes) (c : Call) (j : Bytes)
    → Represents p ks
    → has (step p c) j ≡ mem j (use_key ks c)
has-step p ks c j r = has-Represents (step p c) (use_key ks c) j (step-Represents p ks c r)

module _ (k : Bytes) (p : LruPolicy) (v : IsLru p) where
  on_get-IsLru : IsLru (on_get k p)
  unfolding step
  on_get-IsLru = step-IsLru p (Call.get k) v

  on_set-IsLru : IsLru (on_set k p)
  unfolding step
  on_set-IsLru = step-IsLru p (Call.set k) v

  on_delete-IsLru : IsLru (on_delete k p)
  unfolding step
  on_delete-IsLru = step-IsLru p (Call.del k) v

  has-select_evict : select_evict p ≡ some k → has p k ≡ true
  has-select_evict h =
      let (ks, r) = v in
      ground (arith, has-Represents p ks k r, select_evict-last? p ks r, mem-last? k ks)

  select_evict-none : select_evict p ≡ none → has p k ≡ false
  select_evict-none h =
      let (ks, r) = v in
      ground (arith, has-Represents p ks k r, select_evict-last? p ks r, last?-none k ks)

has-create : (k : Bytes) → has new_lru_policy k ≡ false
unfolding has new_lru_policy lookup
has-create k = refl

module _ (k j : Bytes) (p : LruPolicy) (v : IsLru p) where
  has-on_get : has (on_get k p) j ≡ has p j
  unfolding step
  has-on_get =
      let (ks, r) = v in
      ground (arith, has-step p ks (Call.get k) j r, mem-use_get k j ks, has-Represents p ks j r)

  has-on_set : has (on_set k p) j ≡ ((k ≟ j) || has p j)
  unfolding step use_key mem
  has-on_set =
      let (ks, r) = v in
      ground (arith, has-step p ks (Call.set k) j r, mem-remove k j ks, has-Represents p ks j r)

  has-on_delete : has (on_delete k p) j ≡ (not (k ≟ j) && has p j)
  unfolding step use_key
  has-on_delete =
      let (ks, r) = v in
      ground (arith, has-step p ks (Call.del k) j r, mem-remove k j ks, has-Represents p ks j r)

-- The LRU policy keeps the laws of eviction policies: the keys it holds are those that `OnSet`
-- added and `OnDelete` did not remove since, `OnGet` changes none, and `SelectEvict` names a key
-- that it holds unless it holds none.
pub lru_laws : PolicyLaws lru_policy
lru_laws = record {
  IsValid = IsLru;
  has = has;
  create-IsValid = ([], new_lru_policy-Represents);
  on_get-IsValid = on_get-IsLru;
  on_set-IsValid = on_set-IsLru;
  on_delete-IsValid = on_delete-IsLru;
  has-create = has-create;
  has-on_get = has-on_get;
  has-on_set = has-on_set;
  has-on_delete = has-on_delete;
  has-select_evict = has-select_evict;
  select_evict-none = select_evict-none;
}
