-- ===== src/LoadTest/Sorting.antt =====
-- bench/loadtest.go: the sorted times.
use mathlib.Core.Path.{subst}
use vortex_kv_cache.Base.{
  ℕ, zero, suc, ◌≤◌, ◌≡◌, refl, some, List, [], ◌∷◌, length, get_elem?, All, All-get, arith,
  Bool-cases, inl, inr,
}
use vortex_kv_cache.Base.Int.{ℤ, ◌≤ℤ◌, leb_ℤ}
use vortex_kv_cache.LoadTest.{insert_sorted, sort_durations}

abbrev pub IsSorted : List ℤ → Type 0
IsSorted [] = Unit
IsSorted (x ∷ xs) = All (λ y. x ≤ℤ y) xs × IsSorted xs

All-insert : (P : ℤ → Type 0) (d : ℤ) (xs : List ℤ) → P d → All P xs → All P (insert_sorted d xs)
unfolding insert_sorted
All-insert P d [] p h = (p, tt)
All-insert P d (x ∷ xs) p h = elim (Bool-cases (leb_ℤ d x)) [
  | inl before ↦ rw (before, insert_sorted) (p, h)
  | inr behind ↦ rw (behind, insert_sorted) (h.0, All-insert P d xs p h.1)
]

insert_All : (P : ℤ → Type 0) (d : ℤ) (xs : List ℤ) → All P (insert_sorted d xs) → P d × All P xs
unfolding insert_sorted
insert_All P d [] h = (h.0, tt)
insert_All P d (x ∷ xs) h = elim (Bool-cases (leb_ℤ d x)) [
  | inl before ↦
      let e : insert_sorted d (x ∷ xs) ≡ d ∷ x ∷ xs = rw (before, insert_sorted) refl in
      let q : All P (d ∷ x ∷ xs) = subst (All P) e h in (q.0, q.1)
  | inr behind ↦
      let e : insert_sorted d (x ∷ xs) ≡ x ∷ insert_sorted d xs = rw (behind, insert_sorted) refl in
      let q : All P (x ∷ insert_sorted d xs) = subst (All P) e h in
      let (p, r) = insert_All P d xs q.1 in (p, (q.0, r))
]

pub sort_All : (P : ℤ → Type 0) (ds : List ℤ) → All P (sort_durations ds) → All P ds
unfolding sort_durations
sort_All P [] h = tt
sort_All P (d ∷ ds) h = let (p, q) = insert_All P d (sort_durations ds) h in (p, sort_All P ds q)

le_trans_All : (d x : ℤ) (xs : List ℤ) → d ≤ℤ x → All (λ y. x ≤ℤ y) xs → All (λ y. d ≤ℤ y) xs
le_trans_All d x [] h a = tt
le_trans_All d x (y ∷ xs) h a = (omega (arith, a.0), le_trans_All d x xs h a.1)

insert-IsSorted : (d : ℤ) (xs : List ℤ) → IsSorted xs → IsSorted (insert_sorted d xs)
unfolding insert_sorted
insert-IsSorted d [] h = (tt, tt)
insert-IsSorted d (x ∷ xs) h = elim (Bool-cases (leb_ℤ d x)) [
  | inl before ↦
      let le : d ≤ℤ x = ground arith in
      rw (before, insert_sorted) ((le, le_trans_All d x xs le h.0), h)
  | inr behind ↦
      let le : x ≤ℤ d = ground arith in
      rw (behind, insert_sorted) (All-insert (λ y. x ≤ℤ y) d xs le h.0, insert-IsSorted d xs h.1)
]

pub sort-IsSorted : (ds : List ℤ) → IsSorted (sort_durations ds)
unfolding sort_durations
sort-IsSorted [] = tt
sort-IsSorted (d ∷ ds) = insert-IsSorted d (sort_durations ds) (sort-IsSorted ds)

pub sorted-get :
    (xs : List ℤ) (i j : ℕ) (a b : ℤ)
    → IsSorted xs
    → i ≤ j
    → get_elem? xs i ≡ some a
    → get_elem? xs j ≡ some b
    → a ≤ℤ b
sorted-get [] i j a b s le e f = cc
sorted-get (x ∷ xs) zero zero a b s le e f = let q : a ≡ b = cc in rw q (omega arith)
sorted-get (x ∷ xs) zero (suc j) a b s le e f =
    let q : x ≡ a = cc in rw (← q) (All-get (λ y. x ≤ℤ y) xs j b s.0 f)
sorted-get (x ∷ xs) (suc i) zero a b s le e f = absurd (omega arith)
sorted-get (x ∷ xs) (suc i) (suc j) a b s le e f = sorted-get xs i j a b s.1 (omega arith) e f

length-insert : (d : ℤ) (xs : List ℤ) → length (insert_sorted d xs) ≡ suc (length xs)
unfolding insert_sorted
length-insert d [] = refl
length-insert d (x ∷ xs) = elim (Bool-cases (leb_ℤ d x)) [
  | inl before ↦ rw (before, insert_sorted)
  | inr behind ↦ rw (behind, insert_sorted) (omega (arith, length-insert d xs))
]

pub length-sort : (ds : List ℤ) → length (sort_durations ds) ≡ length ds
unfolding sort_durations
length-sort [] = refl
length-sort (d ∷ ds) = omega (arith, length-insert d (sort_durations ds), length-sort ds)
