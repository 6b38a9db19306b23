-- ===== src/Lru/Chain.antt =====
-- Segments of the linked list: what a run of nodes stands for, and what survives a write.
use vortex_kv_cache.Base.{
  Option, some, Bool, true, false, ◌||◌, ◌≡◌, refl, [], ◌∷◌, ◌++◌, ◌==◌, Bytes, arith,
}
use vortex_kv_cache.Base.Dict.{Dict}
use vortex_kv_cache.Lru.{Ptr, LruNode, Heap, write, set_prev, set_next}

-- key and address of each node, from the most to the least recently used
abbrev pub Cells : Type 0
Cells = Dict Ptr

abbrev pub has : Ptr → Cells → Bool
has p [] = false
has p ((_, q) ∷ cs) = (q == p) || has p cs

pub has-append : (p : Ptr) (xs ys : Cells) → has p (xs ++ ys) ≡ (has p xs || has p ys)
has-append p [] ys = refl
has-append p (x ∷ xs) ys = ground (arith, has-append p xs ys)

abbrev pub DistinctPtrs : Cells → Type 0
DistinctPtrs [] = Unit
DistinctPtrs ((_, p) ∷ cs) = (has p cs ≡ false) × DistinctPtrs cs

abbrev pub Apart : Cells → Cells → Type 0
Apart xs ys = (p : Ptr) → has p xs ≡ true → has p ys ≡ false

abbrev pub node : Bytes → Option Ptr → Option Ptr → LruNode
node k prev next = record { key = k; prev = prev; next = next }

-- `Seg h stop last prev cur cs`: from `cur`, whose node points back to `prev`, the `next`
-- pointers lead through `cs` to `stop`; `last` is the last node, or `prev` if there is none.
pub data Seg (h : Heap) (stop last : Option Ptr) : Option Ptr → Option Ptr → Cells → Type 0 where
  nil : {prev cur : Option Ptr} → cur ≡ stop → last ≡ prev → Seg h stop last prev cur []
  cons :
      {p : Ptr} {k : Bytes} {prev next : Option Ptr} {cs : Cells}
      → h p ≡ node k prev next
      → Seg h stop last (some p) next cs
      → Seg h stop last prev (some p) ((k, p) ∷ cs)

module _ {h : Heap} where
  pub Seg-frame :
      {g : Heap} {stop last prev cur : Option Ptr} {cs : Cells}
      → Seg h stop last prev cur cs
      → ((p : Ptr) → has p cs ≡ true → g p ≡ h p)
      → Seg g stop last prev cur cs
  Seg-frame (nil e f) same = nil e f
  Seg-frame (cons {p} e s) same =
      cons (ground (arith, same p)) (Seg-frame s (λ q i. same q (ground arith)))

  pub Seg-append :
      {stop last m c a cur : Option Ptr} {ys xs : Cells}
      → Seg h c m a cur xs
      → Seg h stop last m c ys
      → Seg h stop last a cur (xs ++ ys)
  Seg-append (nil e f) t = rw (e, ← f) t
  Seg-append (cons e s) t = cons e (Seg-append s t)

  pub Seg-split :
      {stop last a cur : Option Ptr} (xs ys : Cells)
      → Seg h stop last a cur (xs ++ ys)
      → (m c : Option Ptr) × Seg h c m a cur xs × Seg h stop last m c ys
  Seg-split {a} {cur} [] ys s = (a, cur, nil refl refl, s)
  Seg-split (x ∷ xs) ys (cons e s) = let (m, c, u, v) = Seg-split xs ys s in (m, c, cons e u, v)

  -- the last node of a segment that is not empty is one of its nodes
  pub has_last :
      {q : Ptr} {stop prev cur : Option Ptr} {cs : Cells} {x : Bytes × Ptr}
      → Seg h stop (some q) prev cur (x ∷ cs)
      → has q (x ∷ cs) ≡ true
  has_last {cs = []} (cons e (nil _ f)) = ground arith
  has_last {cs = y ∷ cs} (cons e s) = ground (arith, has_last s)

  -- a new `next` in the last node redirects the segment
  pub Seg-set_next :
      {q : Ptr} {stop prev cur : Option Ptr} (stop' : Option Ptr) (x : Bytes × Ptr) (cs : Cells)
      → DistinctPtrs (x ∷ cs)
      → Seg h stop (some q) prev cur (x ∷ cs)
      → Seg (set_next q stop' h) stop' (some q) prev cur (x ∷ cs)
  unfolding set_next write
  Seg-set_next stop' x [] d (cons e (nil f g)) = cons (ground arith) (nil refl g)
  Seg-set_next stop' x (y ∷ cs) d (cons e s) =
      cons (ground (arith, has_last s)) (Seg-set_next stop' y cs d.1 s)

  -- a new `prev` in the first node
  pub Seg-set_prev :
      {stop last prev cur : Option Ptr} {k : Bytes} {p : Ptr} (prev' : Option Ptr) (cs : Cells)
      → has p cs ≡ false
      → Seg h stop last prev cur ((k, p) ∷ cs)
      → Seg (set_prev p prev' h) stop last prev' cur ((k, p) ∷ cs)
  unfolding set_prev write
  Seg-set_prev prev' cs d (cons e s) = cons (ground arith) (Seg-frame s (λ q i. ground arith))

  pub last_cases :
      {stop last prev cur : Option Ptr} {cs : Cells} {x : Bytes × Ptr}
      → Seg h stop last prev cur (x ∷ cs)
      → (q : Ptr) × (last ≡ some q) × (has q (x ∷ cs) ≡ true)
  last_cases {cs = []} (cons {p} e (nil _ f)) = (p, f, ground arith)
  last_cases {cs = y ∷ cs} (cons e s) = let (q, f, i) = last_cases s in (q, f, ground arith)

  pub first_cases :
      {stop last prev cur : Option Ptr} {cs : Cells} {k : Bytes} {p : Ptr}
      → Seg h stop last prev cur ((k, p) ∷ cs)
      → cur ≡ some p
  first_cases (cons e s) = refl

  pub nil_cases :
      {stop last prev cur : Option Ptr} → Seg h stop last prev cur [] → (cur ≡ stop) × (last ≡ prev)
  nil_cases (nil e f) = (e, f)

  pub cons_cases :
      {stop last prev cur : Option Ptr} {cs : Cells} {k : Bytes} {p : Ptr}
      → Seg h stop last prev cur ((k, p) ∷ cs)
      → (cur ≡ some p)
        × ((h p).key ≡ k)
        × ((h p).prev ≡ prev)
        × Seg h stop last (some p) (h p).next cs
  cons_cases (cons {p} e s) = (refl, ground arith, ground arith, rw e s)
