-- ===== src/Lru/Unlink.antt =====
-- `removeNode` of internal/store/lru.go on the chain of nodes, one lemma for each part of it.
use vortex_kv_cache.Base.{none, some, false, ◌≡◌, refl, [], ◌∷◌, ◌++◌, arith}
use vortex_kv_cache.Lru.{
  Ptr, LruPolicy, write, set_prev, set_next, unlink_prev, unlink_next, clear_links, remove_node,
}
use vortex_kv_cache.Lru.Chain.{
  Cells, has, has-append, DistinctPtrs, Apart, Seg, nil, Seg-frame, Seg-append, Seg-set_next,
  Seg-set_prev, nil_cases, last_cases, first_cases,
}

-- what the first half of `removeNode` does to the nodes `xs` before `n`
record Unlinked (p p' : LruPolicy) (n : Ptr) (xs : Cells) : Type 0 where
  chain : Seg p'.heap (p.heap n).next (p.heap n).prev none p'.head xs
  same : (q : Ptr) → has q xs ≡ false → p'.heap q ≡ p.heap q
  tail : p'.tail ≡ p.tail

unlink_prev-Unlinked :
    (p : LruPolicy) (n : Ptr) (xs : Cells)
    → DistinctPtrs xs
    → Seg p.heap (some n) (p.heap n).prev none p.head xs
    → Unlinked p (unlink_prev n p) n xs
unfolding unlink_prev set_next write
unlink_prev-Unlinked p n [] d s =
    let (f, g) = nil_cases s in
    rw (g, unlink_prev) (record { chain = nil refl g; same = λ q i. refl; tail = refl })
unlink_prev-Unlinked p n (x ∷ xs) d s =
    let (q, f, i) = last_cases s in
    let t : Seg p.heap (some n) (some q) none p.head (x ∷ xs) = rw f at s in
    rw (f, unlink_prev)
      (record {
        chain = rw f (Seg-set_next (p.heap n).next x xs d t);
        same = λ r j. ground arith;
        tail = refl;
      })

-- what the second half does to the nodes `ys` behind `n`
record Relinked (p p' : LruPolicy) (n : Ptr) (ys : Cells) : Type 0 where
  chain : Seg p'.heap none p'.tail (p.heap n).prev (p.heap n).next ys
  same : (q : Ptr) → has q ys ≡ false → p'.heap q ≡ p.heap q
  head : p'.head ≡ p.head

unlink_next-Relinked :
    (p : LruPolicy) (n : Ptr) (ys : Cells)
    → DistinctPtrs ys
    → Seg p.heap none p.tail (some n) (p.heap n).next ys
    → Relinked p (unlink_next n p) n ys
unfolding unlink_next set_prev write
unlink_next-Relinked p n [] d s =
    let (f, g) = nil_cases s in
    rw (f, unlink_next) (record { chain = nil f refl; same = λ q i. refl; head = refl })
unlink_next-Relinked p n ((j, r) ∷ ys) d s =
    let f = first_cases s in
    let t : Seg p.heap none p.tail (some n) (some r) ((j, r) ∷ ys) = rw f at s in
    rw (f, unlink_next)
      (record {
        chain = rw f (Seg-set_prev (p.heap n).prev ys d.0 t);
        same = λ q i. ground arith;
        head = refl;
      })

-- the nodes before and behind `n`
pub record Around (p : LruPolicy) (n : Ptr) (xs ys : Cells) : Type 0 where
  pub out_xs : has n xs ≡ false
  pub out_ys : has n ys ≡ false
  pub apart : Apart xs ys
  pub distinct_xs : DistinctPtrs xs
  pub distinct_ys : DistinctPtrs ys

clear_links-same : (p : LruPolicy) (n q : Ptr) → (q ≡ n → ⊥) → (clear_links n p).heap q ≡ p.heap q
unfolding clear_links set_prev set_next write
clear_links-same p n q h = ground arith

module _ {p : LruPolicy} {n : Ptr} {xs ys : Cells} (a : Around p n xs ys) where
  -- taking a node out of the chain leaves the others in their order
  pub remove_node-Seg :
      Seg p.heap (some n) (p.heap n).prev none p.head xs
      → Seg p.heap none p.tail (some n) (p.heap n).next ys
      → Seg
          (remove_node n p).heap
          none
          (remove_node n p).tail
          none
          (remove_node n p).head
          (xs ++ ys)
  unfolding remove_node
  remove_node-Seg s t =
      let p1 = unlink_prev n p in
      let p2 = unlink_next n p1 in
      let u = unlink_prev-Unlinked p n xs a.distinct_xs s in
      let e : p1.heap n ≡ p.heap n = u.same n a.out_xs in
      let t0 : Seg p1.heap none p.tail (some n) (p.heap n).next ys =
        Seg-frame t (λ q i. u.same q (ground (arith, a.apart q))) in
      let t1 : Seg p1.heap none p1.tail (some n) (p1.heap n).next ys = rw (u.tail, e) t0 in
      let v = unlink_next-Relinked p1 n ys a.distinct_ys t1 in
      let s2 : Seg p2.heap (p1.heap n).next (p1.heap n).prev none p2.head xs =
        rw (v.head, e) (Seg-frame u.chain (λ q i. v.same q (ground (arith, a.apart q)))) in
      Seg-frame (Seg-append s2 v.chain) (λ q i.
        clear_links-same p2 n q (λ f. ground (arith, a.out_xs, a.out_ys, has-append q xs ys)))
