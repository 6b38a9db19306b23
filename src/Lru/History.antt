-- ===== src/Lru/History.antt =====
-- internal/store/lru.go against its specification: a list of keys without pointers.
use vortex_kv_cache.Base.{
  Option, none, some, Bool, false, ◌||◌, ◌≡◌, refl, sym, List, [], ◌∷◌, Bytes, arith, ◌≟◌,
  Option-cases, inl, inr, if◌then◌else◌, is_some,
}
use vortex_kv_cache.Base.Dict.{lookup, delete, keys, delete_absent}
use vortex_kv_cache.Lru.{
  Ptr, Heap, LruPolicy, new_lru_policy, on_get, on_set, on_delete, select_evict, clear,
}
use vortex_kv_cache.Lru.Chain.{Cells, Seg, nil, cons, nil_cases}
use vortex_kv_cache.Lru.Tracks.{Tracks}
use vortex_kv_cache.Lru.Recency.{touch, on_get-Tracks, on_set-Tracks, on_delete-Tracks}

unfoldable pub mem : Bytes → List Bytes → Bool
mem k [] = false
mem k (j ∷ js) = (j ≟ k) || mem k js

unfoldable pub remove : Bytes → List Bytes → List Bytes
remove k [] = []
remove k (j ∷ js) = let rest = remove k js in if j ≟ k then rest else j ∷ rest

unfoldable pub last? : List Bytes → Option Bytes
last? [] = none
last? (j ∷ []) = some j
last? (j ∷ i ∷ js) = last? (i ∷ js)

pub data Call : Type 0 where
  get set del : Bytes → Call
  reset : Call

-- the specification: the keys, the most recently used first
unfoldable pub use_key : List Bytes → Call → List Bytes
unfolding mem remove
use_key ks (Call.get k) = if mem k ks then k ∷ remove k ks else ks
use_key ks (Call.set k) = k ∷ remove k ks
use_key ks (Call.del k) = remove k ks
use_key ks Call.reset = []

unfoldable pub use_all : List Bytes → List Call → List Bytes
unfolding use_key
use_all ks [] = ks
use_all ks (c ∷ cs) = use_all (use_key ks c) cs

unfoldable pub step : LruPolicy → Call → LruPolicy
unfolding on_get on_set on_delete clear
step p (Call.get k) = on_get k p
step p (Call.set k) = on_set k p
step p (Call.del k) = on_delete k p
step p Call.reset = clear p

unfoldable pub run : LruPolicy → List Call → LruPolicy
unfolding step
run p [] = p
run p (c ∷ cs) = run (step p c) cs

keys-delete : (k : Bytes) (cs : Cells) → keys (delete k cs) ≡ remove k (keys cs)
unfolding delete remove
keys-delete k [] = refl
keys-delete k ((j, p) ∷ cs) = ground (arith, keys-delete k cs)

pub mem-keys : (k : Bytes) (cs : Cells) → mem k (keys cs) ≡ is_some (lookup k cs)
unfolding lookup mem
mem-keys k [] = refl
mem-keys k ((j, p) ∷ cs) = ground (arith, mem-keys k cs)

-- The chain of the policy stands for the keys `ks`, in this order.
pub record Represents (p : LruPolicy) (ks : List Bytes) : Type 0 where
  pub cells : Cells
  pub tracks : Tracks p cells
  pub order : keys cells ≡ ks

clear-Tracks : (p : LruPolicy) → Tracks (clear p) []
unfolding clear lookup
clear-Tracks p = record {
  chain = nil refl refl;
  distinct = tt;
  ptrs = tt;
  allocated = λ q i. cc;
  index = λ k. refl;
}

pub new_lru_policy-Represents : Represents new_lru_policy []
unfolding new_lru_policy lookup
new_lru_policy-Represents = record {
  cells = [];
  tracks = record {
    chain = nil refl refl;
    distinct = tt;
    ptrs = tt;
    allocated = λ q i. cc;
    index = λ k. refl;
  };
  order = refl;
}

keys-touch : (k : Bytes) (cs : Cells) → keys (touch k cs) ≡ use_key (keys cs) (Call.get k)
unfolding touch use_key
keys-touch k cs = ground (arith, mem-keys k cs, keys-delete k cs)

-- One call on the linked list is one step of the specification.
pub step-Represents :
    (p : LruPolicy) (ks : List Bytes) (c : Call)
    → Represents p ks
    → Represents (step p c) (use_key ks c)
unfolding step use_key
step-Represents p ks (Call.get k) r = record {
  cells = touch k r.cells;
  tracks = on_get-Tracks p k r.cells r.tracks;
  order = rw (← r.order) (keys-touch k r.cells);
}
step-Represents p ks (Call.set k) r = elim (Option-cases (lookup k r.cells)) [
  | inl miss ↦ record {
    cells = (k, p.next_ptr) ∷ r.cells;
    tracks = rw miss at (on_set-Tracks p k r.cells r.tracks);
    order = ground (arith, r.order, keys-delete k r.cells, delete_absent k r.cells);
  }
  | inr (n, hit) ↦ record {
    cells = (k, n) ∷ delete k r.cells;
    tracks = rw hit at (on_set-Tracks p k r.cells r.tracks);
    order = ground (arith, r.order, keys-delete k r.cells);
  }
]
step-Represents p ks (Call.del k) r = record {
  cells = delete k r.cells;
  tracks = on_delete-Tracks p k r.cells r.tracks;
  order = rw (← r.order) (keys-delete k r.cells);
}
step-Represents p ks Call.reset r = record { cells = []; tracks = clear-Tracks p; order = refl }

-- The linked list on the heap refines the list of keys in the order of their use: if the pointers
-- of a policy represent a list of keys, then after any sequence of `OnGet`, `OnSet`, `OnDelete`
-- and `Clear` they represent the list on which the same calls move a key to the front, remove it,
-- or empty the list.
pub run-Represents :
    (p : LruPolicy) (ks : List Bytes) (cs : List Call)
    → Represents p ks
    → Represents (run p cs) (use_all ks cs)
unfolding run use_all
run-Represents p ks [] r = r
run-Represents p ks (c ∷ cs) r =
    run-Represents (step p c) (use_key ks c) cs (step-Represents p ks c r)

last_key :
    {h : Heap} {last prev cur : Option Ptr} (cs : Cells) {x : Bytes × Ptr}
    → Seg h none last prev cur (x ∷ cs)
    → (q : Ptr) × (last ≡ some q) × (last? (keys (x ∷ cs)) ≡ some (h q).key)
unfolding last?
last_key [] (cons {p} e (nil _ f)) = (p, f, ground arith)
last_key (y ∷ cs) (cons e s) = last_key cs s

select_last : (p : LruPolicy) (cells : Cells) → Tracks p cells → select_evict p ≡ last? (keys cells)
unfolding select_evict last?
select_last p [] t = let (e, f) = nil_cases t.chain in rw (f, select_evict)
select_last p (x ∷ cs) t = let (q, e, f) = last_key cs t.chain in rw (e, select_evict) (sym f)

-- If the pointers of a policy represent a list of keys in the order of their use, then
-- `SelectEvict` names the last key of the list, and no key if the list is empty.
pub select_evict-last? :
    (p : LruPolicy) (ks : List Bytes) → Represents p ks → select_evict p ≡ last? ks
select_evict-last? p ks r = rw (← r.order) (select_last p r.cells r.tracks)
