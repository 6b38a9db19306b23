-- ===== src/Lru.antt =====
-- internal/store/lru.go: the doubly linked list of the keys, on an explicit heap of nodes.
-- A pointer is a number, `none` is nil. Go never frees a node that is in reach, so a pointer that
-- is not nil can always be followed and the heap is a total function; `next_ptr` is the address
-- of the next allocation.
pub mod Chain
pub mod Unlink
pub mod Tracks
pub mod Recency
pub mod History
pub mod Contract
use vortex_kv_cache.Base.{
  ℕ, ◌+◌, Option, none, some, Bool, true, false, if◌then◌else◌, ◌==◌, [], Bytes,
}
use vortex_kv_cache.Base.Dict.{Dict, lookup, insert, delete}

abbrev pub Ptr : Type 0
Ptr = ℕ

pub record LruNode : Type 0 where
  pub key : Bytes
  pub prev : Option Ptr
  pub next : Option Ptr

abbrev pub Heap : Type 0
Heap = Ptr → LruNode

-- a store to a whole node, and to one of its fields
pub write : Ptr → LruNode → Heap → Heap
write p n h q = if p == q then n else h q

pub set_prev : Ptr → Option Ptr → Heap → Heap
unfolding write
set_prev p r h = write p (record (h p) { prev = r }) h

pub set_next : Ptr → Option Ptr → Heap → Heap
unfolding write
set_next p r h = write p (record (h p) { next = r }) h

pub record LruPolicy : Type 0 where
  pub heap : Heap
  pub next_ptr : ℕ
  pub nodes : Dict Ptr
  pub head : Option Ptr
  pub tail : Option Ptr

abbrev blank : LruNode
blank = record { key = []; prev = none; next = none }

unfoldable pub new_lru_policy : LruPolicy
new_lru_policy = record { heap = λ p. blank; next_ptr = 0; nodes = []; head = none; tail = none }

-- `pushHead`: `node.prev = nil; node.next = p.head`, then the four writes under its tests
unfoldable pub push_head : Ptr → LruPolicy → LruPolicy
unfolding set_prev set_next
push_head node p =
    let h = set_next node p.head (set_prev node none p.heap) in
    let h' : Heap = elim p.head [ none ↦ h | some first ↦ set_prev first (some node) h ] in
    let last : Option Ptr = elim p.tail [ none ↦ some node | some t ↦ some t ] in
    record p { heap = h'; head = some node; tail = last }

-- the first test of `removeNode`
unfoldable pub unlink_prev : Ptr → LruPolicy → LruPolicy
unfolding set_next
unlink_prev node p = elim (p.heap node).prev [
  | some q ↦ record p { heap = set_next q (p.heap node).next p.heap }
  | none ↦ record p { head = (p.heap node).next }
]

-- the second test of `removeNode`
unfoldable pub unlink_next : Ptr → LruPolicy → LruPolicy
unfolding set_prev
unlink_next node p = elim (p.heap node).next [
  | some q ↦ record p { heap = set_prev q (p.heap node).prev p.heap }
  | none ↦ record p { tail = (p.heap node).prev }
]

-- `node.prev = nil; node.next = nil`
unfoldable pub clear_links : Ptr → LruPolicy → LruPolicy
unfolding set_prev set_next
clear_links node p = record p { heap = set_next node none (set_prev node none p.heap) }

unfoldable pub remove_node : Ptr → LruPolicy → LruPolicy
unfolding unlink_prev unlink_next clear_links
remove_node node p = clear_links node (unlink_next node (unlink_prev node p))

abbrev is_head : Option Ptr → Ptr → Bool
is_head none node = false
is_head (some h) node = h == node

unfoldable pub move_to_head : Ptr → LruPolicy → LruPolicy
unfolding remove_node push_head
move_to_head node p = if is_head p.head node then p else push_head node (remove_node node p)

unfoldable pub on_get : Bytes → LruPolicy → LruPolicy
unfolding move_to_head lookup
on_get key p = elim (lookup key p.nodes) [ some node ↦ move_to_head node p | none ↦ p ]

-- `newNode := &lruNode{key: key}; p.nodes[key] = newNode`
unfoldable pub add_node : Bytes → LruPolicy → LruPolicy
unfolding write insert
add_node key p = record p {
  heap = write p.next_ptr (record { key = key; prev = none; next = none }) p.heap;
  next_ptr = p.next_ptr + 1;
  nodes = insert key p.next_ptr p.nodes;
}

unfoldable pub on_set : Bytes → LruPolicy → LruPolicy
unfolding move_to_head lookup add_node
on_set key p = elim (lookup key p.nodes) [
  | some node ↦ move_to_head node p
  | none ↦ push_head p.next_ptr (add_node key p)
]

unfoldable pub on_delete : Bytes → LruPolicy → LruPolicy
unfolding remove_node lookup delete
on_delete key p = elim (lookup key p.nodes) [
  | some node ↦ let p' = remove_node node p in record p' { nodes = delete key p'.nodes }
  | none ↦ p
]

-- the key at the tail; `none` is `"", false`
unfoldable pub select_evict : LruPolicy → Option Bytes
select_evict p = elim p.tail [ none ↦ none | some t ↦ some (p.heap t).key ]

-- the heap keeps the old nodes, which nothing reaches any more
unfoldable pub clear : LruPolicy → LruPolicy
clear p = record p { nodes = []; head = none; tail = none }
