-- ===== src/Replication/Conns.antt =====
-- internal/replication: the connections of a node, and what holds of a node at any time.
use vortex_kv_cache.Base.{
  ℕ, ◌≡◌, ◌==◌, refl, ap, ◌∙◌, true, false, Bool, if◌then◌else◌, Option, none, some, List, [], ◌∷◌,
  ◌++◌, Bytes, get_elem?, length, set, get_elem?-append, get_elem?-set_self, get_elem?-set_ne,
  get_elem?-unsnoc, arith, inl, inr, ◌≢◌, Bool-cases,
}
use vortex_kv_cache.Replication.Failover.{monitor_loop}
use vortex_kv_cache.Replication.Manager.{
  Node, new_node, Sync, dialing, greeting, reading, over, slave_of, is_no_one, become_master,
  become_replica, close_conn, close, new_replica_manager,
}
use vortex_kv_cache.Replication.Sync.{dial_failed, dialed, greeted, acknowledge, disconnect}
use vortex_kv_cache.Replication.Steps.{
  Holds, Step, Reach, here, next, told, dial_fails, dials, greets, acknowledges, disconnects, beats,
  closes,
}
use vortex_kv_cache.Replication.Monitors.{IsWatched, Step-IsWatched, modify-inv}
use vortex_kv_cache.Replication.Promotion.{run_monitor-some}

-- Every open connection is that of a goroutine that has not ended.
abbrev pub AreHeld : List Bool → List Sync → Type 0
AreHeld conns syncs = (c : ℕ) → get_elem? conns c ≡ some true → (g : ℕ) × Holds syncs g c

-- what is open after a connection is closed was open before, and is another
still_open :
    (p : Option ℕ) (conns : List Bool) (c : ℕ)
    → get_elem? (close_conn p conns) c ≡ some true
    → (get_elem? conns c ≡ some true) × (p ≢ some c)
still_open none conns c e = (e, λ k. cc)
still_open (some i) conns c e = elim (modify-inv (λ b. false) i conns c true e) [
  | inl (k, b, found, l) ↦ cc
  | inr (k, found) ↦ (found, λ q. k cc)
]

close-AreHeld :
    (p : Option ℕ) (conns : List Bool) (syncs : List Sync)
    → AreHeld conns syncs
    → AreHeld (close_conn p conns) syncs
close-AreHeld p conns syncs h c e = h c (still_open p conns c e).0

append-Holds : (syncs more : List Sync) (g c : ℕ) → Holds syncs g c → Holds (syncs ++ more) g c
append-Holds syncs more g c (inl e) = inl (get_elem?-append syncs more g _ e)
append-Holds syncs more g c (inr e) = inr (get_elem?-append syncs more g _ e)

set-Holds :
    (syncs : List Sync) (g : ℕ) (y : Sync) (g' c : ℕ)
    → g ≢ g'
    → Holds syncs g' c
    → Holds (set syncs g y) g' c
set-Holds syncs g y g' c k (inl e) = inl (get_elem?-set_ne syncs g g' y k ∙ e)
set-Holds syncs g y g' c k (inr e) = inr (get_elem?-set_ne syncs g g' y k ∙ e)

abbrev conn_of : Sync → Option ℕ
conn_of (dialing addr) = none
conn_of (greeting c) = some c
conn_of (reading c) = some c
conn_of over = none

-- a goroutine has one connection
Holds-conn_of :
    (syncs : List Sync) (g c : ℕ) (x : Sync)
    → get_elem? syncs g ≡ some x
    → Holds syncs g c
    → conn_of x ≡ some c
Holds-conn_of syncs g c x e (inl h) = let q : x ≡ greeting c = cc in rw q refl
Holds-conn_of syncs g c x e (inr h) = let q : x ≡ reading c = cc in rw q refl

conn_of-Holds :
    (syncs : List Sync) (g c : ℕ) (x : Sync)
    → get_elem? syncs g ≡ some x
    → conn_of x ≡ some c
    → Holds syncs g c
conn_of-Holds syncs g c (dialing addr) e h = absurd (ground arith)
conn_of-Holds syncs g c (greeting d) e h =
    let q : d ≡ c = cc in inl (e ∙ ap (λ k. some (greeting k)) q)
conn_of-Holds syncs g c (reading d) e h =
    let q : d ≡ c = cc in inr (e ∙ ap (λ k. some (reading k)) q)
conn_of-Holds syncs g c over e h = absurd (ground arith)

-- a goroutine that goes on with its connection, if that is open
replace-AreHeld :
    (conns : List Bool) (syncs : List Sync) (g : ℕ) (x y : Sync)
    → get_elem? syncs g ≡ some x
    → ((c : ℕ) → get_elem? conns c ≡ some true → conn_of x ≡ some c → conn_of y ≡ some c)
    → AreHeld conns syncs
    → AreHeld conns (set syncs g y)
replace-AreHeld conns syncs g x y e goes h c is_open =
    let (g', held) = h c is_open in
    elim (Bool-cases (g == g')) [
      | inl eq ↦
          let k : g ≡ g' = ground arith in
          let old : conn_of x ≡ some c = Holds-conn_of syncs g c x e (rw k held) in
          (
            g,
            conn_of-Holds (set syncs g y) g c y (get_elem?-set_self syncs g y x e)
                (goes c is_open old),
          )
      | inr ne ↦ let k : g ≢ g' = ground arith in (g', set-Holds syncs g y g' c k held)
    ]

dialed-AreHeld :
    (conns : List Bool) (syncs : List Sync) (g : ℕ) (addr : Bytes)
    → get_elem? syncs g ≡ some (dialing addr)
    → AreHeld conns syncs
    → AreHeld (conns ++ (true ∷ [])) (set syncs g (greeting (length conns)))
dialed-AreHeld conns syncs g addr e h c is_open =
    elim (get_elem?-unsnoc conns true c true is_open) [
      | inl old ↦ replace-AreHeld conns syncs g _ (greeting (length conns)) e (λ d o k. cc) h c old
      | inr (k, l) ↦ (g, inl (rw k (get_elem?-set_self syncs g (greeting (length conns)) _ e)))
    ]

disconnect-AreHeld :
    (conns : List Bool) (syncs : List Sync) (g c : ℕ)
    → Holds syncs g c
    → AreHeld conns syncs
    → AreHeld (close_conn (some c) conns) (set syncs g over)
disconnect-AreHeld conns syncs g c held h = ended held (close-AreHeld (some c) conns syncs h)
  where
    closed :
        (d : ℕ)
        → get_elem? (close_conn (some c) conns) d ≡ some true
        → some c ≡ some d
        → none ≡ some d
    closed d is_open k = absurd ((still_open (some c) conns d is_open).1 k)

    ended :
        Holds syncs g c
        → AreHeld (close_conn (some c) conns) syncs
        → AreHeld (close_conn (some c) conns) (set syncs g over)
    ended (inl e) = replace-AreHeld _ syncs g (greeting c) over e closed
    ended (inr e) = replace-AreHeld _ syncs g (reading c) over e closed

-- the same for a node
abbrev pub IsHeld : Node → Type 0
IsHeld n = AreHeld n.conns n.syncs

slave_of-IsHeld : (host port : Bytes) (n : Node) → IsHeld n → IsHeld (slave_of host port n)
unfolding slave_of become_master become_replica
slave_of-IsHeld host port n h = elim (Bool-cases (is_no_one host port)) [
  | inl no_one ↦ rw no_one (close-AreHeld n.manager.sync_conn n.conns n.syncs h)
  | inr other ↦ rw other (λ c is_open.
      let (g, held) = close-AreHeld n.manager.sync_conn n.conns n.syncs h c is_open in
      (g, append-Holds n.syncs _ g c held))
]

if-IsHeld : (b : Bool) (n p : Node) → IsHeld n → IsHeld p → IsHeld (if b then n else p)
if-IsHeld true n p u v = u
if-IsHeld false n p u v = v

Step-IsHeld : {n p : Node} → Step n p → IsHeld n → IsHeld p
unfolding dial_failed dialed greeted acknowledge disconnect close
Step-IsHeld (told host port n) h = slave_of-IsHeld host port n h
Step-IsHeld (dial_fails n g addr e) h =
    replace-AreHeld n.conns n.syncs g (dialing addr) over e (λ c o k. cc) h
Step-IsHeld (dials n g addr e) h = dialed-AreHeld n.conns n.syncs g addr e h
Step-IsHeld (greets n g c now e) h =
    replace-AreHeld n.conns n.syncs g (greeting c) (reading c) e (λ d o k. k) h
Step-IsHeld (acknowledges n g c now e) h = h
Step-IsHeld (disconnects n g c e) h = disconnect-AreHeld n.conns n.syncs g c e h
Step-IsHeld (beats n i m rounds e) h =
    rw (run_monitor-some i rounds n m e)
      (if-IsHeld (monitor_loop rounds m).1 _ _ (slave_of-IsHeld _ _ _ h) h)
Step-IsHeld (closes n) h = close-AreHeld n.manager.sync_conn n.conns n.syncs h

-- Whatever happens to a new node, in any order: if it is a master, it has no address of a master
-- and no monitor, and if it is a replica, it has a monitor, which watches the master that it
-- follows; at most that monitor is not cancelled; and every open connection is that of a goroutine
-- that has not ended.
pub Reach-IsWatched : {n : Node} → Reach new_node n → IsWatched n × IsHeld n
unfolding new_replica_manager
Reach-IsWatched here = (record { role = (refl, refl); one_monitor = λ j m e. cc }, λ c is_open. cc)
Reach-IsWatched (next r s) = let (w, h) = Reach-IsWatched r in (Step-IsWatched s w, Step-IsHeld s h)
