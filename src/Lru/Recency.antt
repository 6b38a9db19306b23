-- ===== src/Lru/Recency.antt =====
-- internal/store/lru.go against a plain list of keys, the most recently used first.
use vortex_kv_cache.Base.{
  none, some, true, false, ◌≡◌, refl, ◌∙◌, [], ◌∷◌, Bytes, arith, ≟_iff, ≟_refl, Bool-cases,
  Option-cases, inl, inr,
}
use vortex_kv_cache.Base.Dict.{
  lookup, delete, lookup-insert, lookup-delete, delete-Distinct, delete_absent,
}
use vortex_kv_cache.Lru.{
  Ptr, LruPolicy, write, push_head, remove_node, move_to_head, is_head, on_get, on_set, on_delete,
  add_node,
}
use vortex_kv_cache.Lru.Chain.{Cells, has, has-append, Seg, Seg-frame, cons_cases}
use vortex_kv_cache.Lru.Tracks.{
  Tracks, cut, remove_node-chain, remove_node-key, remove_node-nodes, remove_node-next_ptr,
  push_head-nodes, push_head-next_ptr, push_head-chain, delete-DistinctPtrs, has-delete,
}

-- a list of the keys with `k` moved to the front, if it is there
unfoldable pub touch : Bytes → Cells → Cells
touch k cells = elim (lookup k cells) [ none ↦ cells | some n ↦ (k, n) ∷ delete k cells ]

lookup-has : (k : Bytes) (n : Ptr) (cs : Cells) → lookup k cs ≡ some n → has n cs ≡ true
unfolding lookup
lookup-has k n [] h = cc
lookup-has k n ((j, q) ∷ cs) h = ground (arith, lookup-has k n cs)

module _ (p : LruPolicy) (k : Bytes) (n : Ptr) (cells : Cells) (t : Tracks p cells)
    (h : lookup k cells ≡ some n) where
  not-has-delete : has n (delete k cells) ≡ false
  not-has-delete =
      let c = cut p k n cells t h in
      rw c.rest (ground (arith, has-append n c.before c.after, c.around.out_xs, c.around.out_ys))

  moved-Tracks : Tracks (push_head n (remove_node n p)) ((k, n) ∷ delete k cells)
  unfolding lookup
  moved-Tracks =
      let p' = remove_node n p in
      let e : (p'.heap n).key ≡ k = remove_node-key n p n ∙ (cut p k n cells t h).key in
      record {
        chain = rw e at (
            push_head-chain p' n (delete k cells) not-has-delete
              (delete-DistinctPtrs k cells t.ptrs) (remove_node-chain p k n cells t h));
        distinct =
            (ground (arith, lookup-delete k k cells, ≟_refl k), delete-Distinct k cells t.distinct);
        ptrs = (not-has-delete, delete-DistinctPtrs k cells t.ptrs);
        allocated = λ q i. ground (
          arith,
          push_head-next_ptr n p',
          remove_node-next_ptr n p,
          t.allocated q,
          has-delete k q cells,
          lookup-has k n cells h,
        );
        index = λ j. ground (
          arith,
          push_head-nodes n p',
          remove_node-nodes n p,
          t.index j,
          lookup-delete k j cells,
          ≟_iff k j,
        );
      }

touch_hit :
    (k : Bytes) (n : Ptr) (cs : Cells) → lookup k cs ≡ some n → touch k cs ≡ (k, n) ∷ delete k cs
unfolding touch
touch_hit k n cs h = ground arith

touch_miss : (k : Bytes) (cs : Cells) → lookup k cs ≡ none → touch k cs ≡ cs
unfolding touch
touch_miss k cs h = ground arith

-- a key whose node is the head comes first already
touch_head :
    (p : LruPolicy) (k : Bytes) (n : Ptr) (cells : Cells)
    → Tracks p cells
    → lookup k cells ≡ some n
    → is_head p.head n ≡ true
    → touch k cells ≡ cells
unfolding touch lookup delete
touch_head p k n [] t h i = cc
touch_head p k n ((j, q) ∷ cs) t h i =
    let (e, f, _, _) = cons_cases t.chain in
    ground
      (arith, e, f, (cut p k n ((j, q) ∷ cs) t h).key, ≟_iff j k, delete_absent k cs, t.distinct.0)

module _ (p : LruPolicy) (k : Bytes) (cells : Cells) (t : Tracks p cells) where
  move_to_head-Tracks :
      (n : Ptr) → lookup k cells ≡ some n → Tracks (move_to_head n p) (touch k cells)
  unfolding move_to_head
  move_to_head-Tracks n h = elim (Bool-cases (is_head p.head n)) [
    | inl i ↦ rw (i, touch_head p k n cells t h i) t
    | inr i ↦ rw (i, touch_hit k n cells h) (moved-Tracks p k n cells t h)
  ]

  -- `OnGet` moves a tracked key to the front and ignores any other.
  pub on_get-Tracks : Tracks (on_get k p) (touch k cells)
  unfolding on_get
  on_get-Tracks = elim (Option-cases (lookup k cells)) [
    | inl miss ↦ rw (t.index k ∙ miss, on_get) (rw (touch_miss k cells miss) t)
    | inr (n, hit) ↦ rw (t.index k ∙ hit, on_get) (move_to_head-Tracks n hit)
  ]

  -- A key that is not tracked gets the next address.
  add_node-Tracks :
      lookup k cells ≡ none → Tracks (push_head p.next_ptr (add_node k p)) ((k, p.next_ptr) ∷ cells)
  unfolding add_node write lookup
  add_node-Tracks miss =
      let n = p.next_ptr in
      let p' = add_node k p in
      let out : has n cells ≡ false = ground (arith, t.allocated n) in
      let chain' : Seg p'.heap none p'.tail none p'.head cells =
        Seg-frame t.chain (λ q i. ground (arith, t.allocated q)) in
      let e : (p'.heap n).key ≡ k = ground arith in
      record {
        chain = rw e at (push_head-chain p' n cells out t.ptrs chain');
        distinct = (miss, t.distinct);
        ptrs = (out, t.ptrs);
        allocated = λ q i. ground (arith, push_head-next_ptr n p', t.allocated q);
        index = λ j.
            ground (arith, push_head-nodes n p', t.index j, lookup-insert k j n p.nodes, ≟_iff k j);
      }

  -- the list after `OnSet`
  pub on_set-Tracks :
      Tracks (on_set k p) (elim (lookup k cells) [
        | none ↦ (k, p.next_ptr) ∷ cells
        | some n ↦ (k, n) ∷ delete k cells
      ])
  unfolding on_set
  on_set-Tracks = elim (Option-cases (lookup k cells)) [
    | inl miss ↦ rw (t.index k ∙ miss, on_set) (rw miss (add_node-Tracks miss))
    | inr (n, hit) ↦
        rw (t.index k ∙ hit, on_set)
          (rw hit (rw (touch_hit k n cells hit) at (move_to_head-Tracks n hit)))
  ]

  removed-Tracks :
      (n : Ptr)
      → lookup k cells ≡ some n
      → (p' : LruPolicy) → p' ≡ remove_node n p
      → Tracks (record p' { nodes = delete k p'.nodes }) (delete k cells)
  removed-Tracks n hit p' e = record {
    chain = rw e (remove_node-chain p k n cells t hit);
    distinct = delete-Distinct k cells t.distinct;
    ptrs = delete-DistinctPtrs k cells t.ptrs;
    allocated =
        λ q i. ground (arith, e, remove_node-next_ptr n p, t.allocated q, has-delete k q cells);
    index = λ j. ground (
      arith,
      e,
      remove_node-nodes n p,
      t.index j,
      lookup-delete k j cells,
      lookup-delete k j p.nodes,
    );
  }

  -- `OnDelete` drops the key and keeps the order of the others.
  pub on_delete-Tracks : Tracks (on_delete k p) (delete k cells)
  unfolding on_delete
  on_delete-Tracks = elim (Option-cases (lookup k cells)) [
    | inl miss ↦ rw (t.index k ∙ miss, on_delete) (rw (delete_absent k cells miss) t)
    | inr (n, hit) ↦ rw (t.index k ∙ hit, on_delete) (removed-Tracks n hit (remove_node n p) refl)
  ]
