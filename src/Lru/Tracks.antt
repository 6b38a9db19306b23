-- ===== src/Lru/Tracks.antt =====
-- The state of `lruPolicy` (internal/store/lru.go) against the list of its cells.
use vortex_kv_cache.Base.{
  ◌<◌, none, some, true, false, ◌≡◌, refl, [], ◌∷◌, ◌++◌, Bytes, arith, ◌≟◌, ≟_iff, Bool-cases, inl,
  inr,
}
use vortex_kv_cache.Base.Dict.{lookup, delete, Distinct, delete_absent}
use vortex_kv_cache.Lru.{
  Ptr, LruPolicy, write, set_prev, set_next, push_head, unlink_prev, unlink_next, clear_links,
  remove_node,
}
use vortex_kv_cache.Lru.Chain.{
  Cells, has, has-append, DistinctPtrs, Apart, Seg, nil, cons, Seg-frame, Seg-split, Seg-set_prev,
  nil_cases, cons_cases, last_cases, first_cases,
}
use vortex_kv_cache.Lru.Unlink.{Around, remove_node-Seg}

-- The chain that starts at the head is `cells`, and the map of the nodes agrees with it.
pub record Tracks (p : LruPolicy) (cells : Cells) : Type 0 where
  pub chain : Seg p.heap none p.tail none p.head cells
  pub distinct : Distinct cells
  pub ptrs : DistinctPtrs cells
  pub allocated : (q : Ptr) → has q cells ≡ true → q < p.next_ptr
  pub index : (k : Bytes) → lookup k p.nodes ≡ lookup k cells

-- Pieces of a list of cells.
DistinctPtrs-append :
    (xs ys : Cells) → DistinctPtrs (xs ++ ys) → DistinctPtrs xs × DistinctPtrs ys × Apart xs ys
DistinctPtrs-append [] ys d = (tt, d, λ p i. cc)
DistinctPtrs-append ((k, p) ∷ xs) ys d =
    let (dx, dy, a) = DistinctPtrs-append xs ys d.1 in
    ((ground (arith, has-append p xs ys), dx), dy, λ q i. ground (arith, a q, has-append p xs ys))

pub has-delete : (k : Bytes) (p : Ptr) (cs : Cells) → has p cs ≡ false → has p (delete k cs) ≡ false
unfolding delete
has-delete k p [] h = refl
has-delete k p ((j, q) ∷ cs) h = ground (arith, has-delete k p cs)

pub delete-DistinctPtrs : (k : Bytes) (cs : Cells) → DistinctPtrs cs → DistinctPtrs (delete k cs)
unfolding delete
delete-DistinctPtrs k [] d = tt
delete-DistinctPtrs k ((j, q) ∷ cs) d =
    ground (arith, has-delete k q cs, delete-DistinctPtrs k cs d.1)

record SplitAt (k : Bytes) (p : Ptr) (cs : Cells) : Type 0 where
  before : Cells
  after : Cells
  whole : cs ≡ before ++ (k, p) ∷ after
  rest : delete k cs ≡ before ++ after

split_at : (k : Bytes) (p : Ptr) (cs : Cells) → Distinct cs → lookup k cs ≡ some p → SplitAt k p cs
unfolding lookup delete
split_at k p [] d h = absurd (cc)
split_at k p ((j, q) ∷ cs) d h = elim (Bool-cases (j ≟ k)) [
  | inl e ↦ record {
    before = [];
    after = cs;
    whole = ground (arith, ≟_iff j k);
    rest = ground (arith, ≟_iff j k, delete_absent k cs);
  }
  | inr e ↦
      let s = split_at k p cs d.1 (ground arith) in
      record {
        before = (j, q) ∷ s.before;
        after = s.after;
        whole = ground (arith, s.whole);
        rest = ground (arith, s.rest);
      }
]

-- The parts of a chain round one node.
pub record Cut (p : LruPolicy) (k : Bytes) (n : Ptr) (cells : Cells) : Type 0 where
  pub before : Cells
  pub after : Cells
  pub rest : delete k cells ≡ before ++ after
  pub around : Around p n before after
  pub front : Seg p.heap (some n) (p.heap n).prev none p.head before
  pub back : Seg p.heap none p.tail (some n) (p.heap n).next after
  pub key : (p.heap n).key ≡ k

pub cut :
    (p : LruPolicy) (k : Bytes) (n : Ptr) (cells : Cells)
    → Tracks p cells
    → lookup k cells ≡ some n
    → Cut p k n cells
cut p k n cells t h =
    let s = split_at k n cells t.distinct h in
    let (m, c, front, back) = Seg-split s.before ((k, n) ∷ s.after) (rw s.whole at t.chain) in
    let (e, ek, ep, tl) = cons_cases back in
    let (dx, dy, ap) = DistinctPtrs-append s.before ((k, n) ∷ s.after) (rw s.whole at t.ptrs) in
    record {
      before = s.before;
      after = s.after;
      rest = s.rest;
      around = record {
        out_xs = ground (arith, ap n);
        out_ys = dy.0;
        apart = λ q i. ground (arith, ap q);
        distinct_xs = dx;
        distinct_ys = dy.1;
      };
      front = rw ep (rw e at front);
      back = tl;
      key = ek;
    }

-- Taking a tracked node out of the chain.
pub remove_node-chain :
    (p : LruPolicy) (k : Bytes) (n : Ptr) (cells : Cells)
    → Tracks p cells
    → lookup k cells ≡ some n
    → Seg
        (remove_node n p).heap
        none
        (remove_node n p).tail
        none
        (remove_node n p).head
        (delete k cells)
remove_node-chain p k n cells t h =
    let c = cut p k n cells t h in rw c.rest (remove_node-Seg c.around c.front c.back)

module _ (n : Ptr) (p : LruPolicy) where
  pub remove_node-key : (q : Ptr) → ((remove_node n p).heap q).key ≡ (p.heap q).key
  unfolding remove_node unlink_prev unlink_next clear_links set_prev set_next write
  remove_node-key q = ground arith

  pub remove_node-nodes : (remove_node n p).nodes ≡ p.nodes
  unfolding remove_node unlink_prev unlink_next clear_links
  remove_node-nodes = ground arith

  pub remove_node-next_ptr : (remove_node n p).next_ptr ≡ p.next_ptr
  unfolding remove_node unlink_prev unlink_next clear_links
  remove_node-next_ptr = ground arith

  pub push_head-nodes : (push_head n p).nodes ≡ p.nodes
  unfolding push_head
  push_head-nodes = refl

  pub push_head-next_ptr : (push_head n p).next_ptr ≡ p.next_ptr
  unfolding push_head
  push_head-next_ptr = refl

-- Pushing a node that the chain does not hold.
pub push_head-chain :
    (p : LruPolicy) (n : Ptr) (cells : Cells)
    → has n cells ≡ false
    → DistinctPtrs cells
    → Seg p.heap none p.tail none p.head cells
    → Seg
        (push_head n p).heap
        none
        (push_head n p).tail
        none
        (push_head n p).head
        (((p.heap n).key, n) ∷ cells)
unfolding push_head set_prev set_next write
push_head-chain p n [] out d s =
    let (f, g) = nil_cases s in rw (f, g, push_head) (cons (ground arith) (nil refl refl))
push_head-chain p n ((k, q) ∷ cells) out d s =
    let f = first_cases s in
    let (t, g, i) = last_cases s in
    let h = set_next n p.head (set_prev n none p.heap) in
    let s0 : Seg p.heap none (some t) none p.head ((k, q) ∷ cells) = rw g at s in
    let s1 : Seg h none (some t) none p.head ((k, q) ∷ cells) =
      Seg-frame s0 (λ r j. ground arith) in
    rw (f, g, push_head) (cons (ground arith) (Seg-set_prev (some n) cells d.0 s1))
