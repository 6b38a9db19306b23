-- ===== src/Base/Lists.antt =====
-- Lists measured and indexed by native numbers, under the library's names.
use Prim.Native.Nat.{ℕ, zero, suc, ◌+◌, ◌-◌, ◌<◌}
use mathlib.Core.Path.{◌≡◌, refl, ap, subst}
use mathlib.Core.Logic.{◌≢◌, ◌⊎◌, inl, inr}
use mathlib.Core.List.{List, [], ◌∷◌, ◌++◌}
use mathlib.Core.Option.{Option, none, some}
use native.Mathlib.Omega.{arith}

module _ {ℓ} {A : Type ℓ} where
  abbrev pub length : List A → ℕ
  length [] = 0
  length (x ∷ xs) = suc (length xs)

  abbrev pub get_elem? : List A → ℕ → Option A
  get_elem? [] i = none
  get_elem? (x ∷ xs) zero = some x
  get_elem? (x ∷ xs) (suc i) = get_elem? xs i

  -- A write out of bounds changes nothing.
  abbrev pub set : List A → ℕ → A → List A
  set [] i v = []
  set (x ∷ xs) zero v = v ∷ xs
  set (x ∷ xs) (suc i) v = x ∷ set xs i v

  abbrev pub replicate : ℕ → A → List A
  replicate zero a = []
  replicate (suc n) a = a ∷ replicate n a

  abbrev pub take : ℕ → List A → List A
  take zero xs = []
  take (suc n) [] = []
  take (suc n) (x ∷ xs) = x ∷ take n xs

  abbrev pub drop : ℕ → List A → List A
  drop zero xs = xs
  drop (suc n) [] = []
  drop (suc n) (x ∷ xs) = drop n xs

  pub take-append : (xs ys : List A) → take (length xs) (xs ++ ys) ≡ xs
  take-append [] ys = refl
  take-append (x ∷ xs) ys = ap (λ r. x ∷ r) (take-append xs ys)

  pub drop-append : (xs ys : List A) → drop (length xs) (xs ++ ys) ≡ ys
  drop-append [] ys = refl
  drop-append (x ∷ xs) ys = drop-append xs ys

  pub length-drop : (n : ℕ) (xs : List A) → length (drop n xs) ≡ length xs - n
  length-drop zero xs = omega arith
  length-drop (suc n) [] = omega arith
  length-drop (suc n) (x ∷ xs) = omega (arith, length-drop n xs)

  pub append_assoc : (xs ys zs : List A) → (xs ++ ys) ++ zs ≡ xs ++ (ys ++ zs)
  append_assoc [] ys zs = refl
  append_assoc (x ∷ xs) ys zs = ap (λ r. x ∷ r) (append_assoc xs ys zs)

  pub append_nil : (xs : List A) → xs ++ [] ≡ xs
  append_nil [] = refl
  append_nil (x ∷ xs) = ap (λ r. x ∷ r) (append_nil xs)

  pub length-append : (xs ys : List A) → length (xs ++ ys) ≡ length xs + length ys
  length-append [] ys = omega arith
  length-append (x ∷ xs) ys = omega (arith, length-append xs ys)

  pub length-replicate : (n : ℕ) (a : A) → length (replicate n a) ≡ n
  length-replicate zero a = refl
  length-replicate (suc n) a = ap suc (length-replicate n a)

  pub length-set : (xs : List A) (i : ℕ) (v : A) → length (set xs i v) ≡ length xs
  length-set [] i v = refl
  length-set (x ∷ xs) zero v = refl
  length-set (x ∷ xs) (suc i) v = ap suc (length-set xs i v)

abbrev pub All {ℓ κ} : {A : Type ℓ} → (A → Type κ) → List A → Type κ
All P [] = Unit
All P (x ∷ xs) = P x × All P xs

module _ {ℓ} {A : Type ℓ} where
  -- an index within the bounds has an element
  pub get_elem?-some : (xs : List A) (i : ℕ) → i < length xs → (a : A) × (get_elem? xs i ≡ some a)
  get_elem?-some [] i h = elim h [ ]
  get_elem?-some (x ∷ xs) zero h = (x, refl)
  get_elem?-some (x ∷ xs) (suc i) h = get_elem?-some xs i (omega arith)

  pub get_elem?-set_self :
      (xs : List A) (i : ℕ) (v a : A) → get_elem? xs i ≡ some a → get_elem? (set xs i v) i ≡ some v
  get_elem?-set_self [] i v a h = cc
  get_elem?-set_self (x ∷ xs) zero v a h = refl
  get_elem?-set_self (x ∷ xs) (suc i) v a h = get_elem?-set_self xs i v a h

  pub get_elem?-set_ne :
      (xs : List A) (i j : ℕ) (v : A) → i ≢ j → get_elem? (set xs i v) j ≡ get_elem? xs j
  get_elem?-set_ne [] i j v h = refl
  get_elem?-set_ne (x ∷ xs) zero zero v h = absurd (h refl)
  get_elem?-set_ne (x ∷ xs) zero (suc j) v h = refl
  get_elem?-set_ne (x ∷ xs) (suc i) zero v h = refl
  get_elem?-set_ne (x ∷ xs) (suc i) (suc j) v h = get_elem?-set_ne xs i j v (λ e. h (ap suc e))

  pub All-get {κ} :
      (P : A → Type κ) (xs : List A) (i : ℕ) (a : A) → All P xs → get_elem? xs i ≡ some a → P a
  All-get P [] i a h e = cc
  All-get P (x ∷ xs) zero a h e = let p : x ≡ a = cc in subst P p h.0
  All-get P (x ∷ xs) (suc i) a h e = All-get P xs i a h.1 e

  pub All-set {κ} :
      (P : A → Type κ) (xs : List A) (i : ℕ) (a : A) → All P xs → P a → All P (set xs i a)
  All-set P [] i a h p = tt
  All-set P (x ∷ xs) zero a h p = (p, h.1)
  All-set P (x ∷ xs) (suc i) a h p = (h.0, All-set P xs i a h.1 p)

  pub All-replicate {κ} : (P : A → Type κ) (n : ℕ) (a : A) → P a → All P (replicate n a)
  All-replicate P zero a p = tt
  All-replicate P (suc n) a p = (p, All-replicate P n a p)

  pub get_elem?-snoc : (xs : List A) (a : A) → get_elem? (xs ++ (a ∷ [])) (length xs) ≡ some a
  get_elem?-snoc [] a = refl
  get_elem?-snoc (x ∷ xs) a = get_elem?-snoc xs a

  pub get_elem?-append :
      (xs ys : List A) (i : ℕ) (a : A) → get_elem? xs i ≡ some a → get_elem? (xs ++ ys) i ≡ some a
  get_elem?-append [] ys i a h = cc
  get_elem?-append (x ∷ xs) ys zero a h = h
  get_elem?-append (x ∷ xs) ys (suc i) a h = get_elem?-append xs ys i a h

  -- an element of a list with one more at its end
  pub get_elem?-unsnoc :
      (xs : List A) (b : A) (i : ℕ) (a : A)
      → get_elem? (xs ++ (b ∷ [])) i ≡ some a
      → (get_elem? xs i ≡ some a) ⊎ ((i ≡ length xs) × (b ≡ a))
  get_elem?-unsnoc [] b zero a h = inr (refl, cc)
  get_elem?-unsnoc [] b (suc i) a h = cc
  get_elem?-unsnoc (x ∷ xs) b zero a h = inl h
  get_elem?-unsnoc (x ∷ xs) b (suc i) a h = elim (get_elem?-unsnoc xs b i a h) [
    | inl e ↦ inl e
    | inr (e, f) ↦ inr (ap suc e, f)
  ]

  pub get_elem?-length : (xs : List A) (i : ℕ) (a : A) → get_elem? xs i ≡ some a → i < length xs
  get_elem?-length [] i a h = cc
  get_elem?-length (x ∷ xs) zero a h = omega arith
  get_elem?-length (x ∷ xs) (suc i) a h = let r = get_elem?-length xs i a h in omega arith

  -- an element of a list with one replaced
  pub get_elem?-unset :
      (xs : List A) (i : ℕ) (b : A) (j : ℕ) (a : A)
      → get_elem? (set xs i b) j ≡ some a
      → ((i ≡ j) × (b ≡ a)) ⊎ ((i ≢ j) × (get_elem? xs j ≡ some a))
  get_elem?-unset [] i b j a h = cc
  get_elem?-unset (x ∷ xs) zero b zero a h = inl (refl, cc)
  get_elem?-unset (x ∷ xs) zero b (suc j) a h = inr (λ e. omega arith, h)
  get_elem?-unset (x ∷ xs) (suc i) b zero a h = inr (λ e. omega arith, h)
  get_elem?-unset (x ∷ xs) (suc i) b (suc j) a h = elim (get_elem?-unset xs i b j a h) [
    | inl (e, f) ↦ inl (ap suc e, f)
    | inr (n, e) ↦ inr (λ k. n (omega arith), e)
  ]

  pub All-index {κ} :
      (P : A → Type κ) (xs : List A) → ((i : ℕ) (a : A) → get_elem? xs i ≡ some a → P a) → All P xs
  All-index P [] h = tt
  All-index P (x ∷ xs) h = (h 0 x refl, All-index P xs (λ i. h (suc i)))
