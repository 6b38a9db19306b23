-- ===== src/Eviction.antt =====
-- internal/store/eviction.go: the interface of the eviction policies, the contract that its
-- comments state, and the choice of a policy by name.
use vortex_kv_cache.Base.{Option, none, some, Bool, true, false, ◌≡◌, not, ◌&&◌, ◌||◌, Bytes, ◌≟◌}

-- The interface, with the factory that makes a policy. A method with an effect returns the new
-- state; `none` of `select_evict` is `"", false`.
pub record EvictionPolicy : Type 1 where
  pub State : Type 0
  pub create : State
  pub on_get : Bytes → State → State
  pub on_set : Bytes → State → State
  pub on_delete : Bytes → State → State
  pub select_evict : State → Option Bytes
  pub clear : State → State

-- What a store relies on: the policy knows which keys it holds, and proposes only such keys.
pub record PolicyLaws (P : EvictionPolicy) : Type 1 where
  pub IsValid : P.State → Type 0
  pub has : P.State → Bytes → Bool
  pub create-IsValid : IsValid P.create
  pub on_get-IsValid : (k : Bytes) (p : P.State) → IsValid p → IsValid (P.on_get k p)
  pub on_set-IsValid : (k : Bytes) (p : P.State) → IsValid p → IsValid (P.on_set k p)
  pub on_delete-IsValid : (k : Bytes) (p : P.State) → IsValid p → IsValid (P.on_delete k p)
  pub has-create : (k : Bytes) → has P.create k ≡ false
  pub has-on_get : (k j : Bytes) (p : P.State) → IsValid p → has (P.on_get k p) j ≡ has p j
  pub has-on_set :
      (k j : Bytes) (p : P.State) → IsValid p → has (P.on_set k p) j ≡ ((k ≟ j) || has p j)
  pub has-on_delete :
      (k j : Bytes) (p : P.State) → IsValid p → has (P.on_delete k p) j ≡ (not (k ≟ j) && has p j)
  pub has-select_evict :
      (k : Bytes) (p : P.State) → IsValid p → P.select_evict p ≡ some k → has p k ≡ true
  pub select_evict-none :
      (j : Bytes) (p : P.State) → IsValid p → P.select_evict p ≡ none → has p j ≡ false
