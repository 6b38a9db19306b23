-- ===== src/Replication/Monitors.antt =====
-- internal/replication: the role of a node and its failover monitors.
use vortex_kv_cache.Base.{
  ℕ, ◌≡◌, ◌==◌, get_elem?-set_ne, ap, ◌+◌, refl, true, false, Bool, if◌then◌else◌, Option, none,
  some, List, [], ◌∷◌, Bytes, get_elem?, set, get_elem?-set_self, get_elem?-snoc, get_elem?-unsnoc,
  get_elem?-unset, arith, ◌⊎◌, inl, inr, Option-cases, Bool-cases, ◌≢◌, sym, ◌∙◌,
}
use vortex_kv_cache.Base.Int.{pos, leb_ℤ}
use vortex_kv_cache.Replication.Failover
use vortex_kv_cache.Replication.Failover.{
  FailoverMonitor, new_failover_monitor, default_failover_config, Round, ended, tick, monitor_loop,
  miss, trigger_failover,
}
use vortex_kv_cache.Replication.Manager.{
  modify, Node, Role, role_master, role_replica, slave_of, is_no_one, become_master, become_replica,
  close, stop_monitor,
}
use vortex_kv_cache.Replication.Sync.{dial_failed, dialed, greeted, acknowledge, disconnect}
use vortex_kv_cache.Replication.Steps.{
  Step, told, dial_fails, dials, greets, acknowledges, disconnects, beats, closes,
}
use vortex_kv_cache.Replication.Promotion.{run_monitor-some}

-- The monitors that are not cancelled: at most the one that the manager has.
abbrev pub OneMonitor : Option ℕ → List FailoverMonitor → Type 0
OneMonitor p ms =
    (j : ℕ) (m : FailoverMonitor) → get_elem? ms j ≡ some m → (m.cancelled ≡ true) ⊎ (p ≡ some j)

-- A master has no address of a master and no monitor; a replica has a monitor, which watches the
-- master that it follows.
abbrev pub RoleIs : Role → Bytes → Option ℕ → List FailoverMonitor → Type 0
RoleIs role_master addr p ms = (addr ≡ []) × (p ≡ none)
RoleIs role_replica addr p ms =
    (i : ℕ) × (m : FailoverMonitor) × (p ≡ some i)
    × (get_elem? ms i ≡ some m)
    × (m.cfg.master_addr ≡ addr)

pub record IsWatched (n : Node) : Type 0 where
  pub role : RoleIs n.manager.role n.manager.master_addr n.manager.monitor n.monitors
  pub one_monitor : OneMonitor n.manager.monitor n.monitors

-- an element of a list in which one was changed
pub modify-inv :
    {A : Type 0} (f : A → A) (i : ℕ) (xs : List A) (j : ℕ) (a : A)
    → get_elem? (modify f i xs) j ≡ some a
    → ((i ≡ j) × (b : A) × (get_elem? xs j ≡ some b) × (f b ≡ a))
      ⊎ ((i ≢ j) × (get_elem? xs j ≡ some a))
modify-inv f i xs j a e = elim (Option-cases (get_elem? xs i)) [
  | inl gone ↦
      let same : modify f i xs ≡ xs = rw (gone, modify) refl in
      let e' : get_elem? xs j ≡ some a = ap (λ l. get_elem? l j) (sym same) ∙ e in
      inr (λ k. let k' : get_elem? xs j ≡ none = rw (← k) gone in cc, e')
  | inr (b, found) ↦
      let changed : modify f i xs ≡ set xs i (f b) = rw (found, modify) refl in
      let e' : get_elem? (set xs i (f b)) j ≡ some a = ap (λ l. get_elem? l j) (sym changed) ∙ e in
      elim (get_elem?-unset xs i (f b) j a e') [
        | inl (k, l) ↦ inl (k, b, rw (← k) found, l)
        | inr (k, l) ↦ inr (k, l)
      ]
]

-- after the monitor of the manager is stopped, all are cancelled
stopped :
    (p : Option ℕ) (ms : List FailoverMonitor)
    → OneMonitor p ms
    → (j : ℕ) (m : FailoverMonitor) → get_elem? (stop_monitor p ms) j ≡ some m
    → m.cancelled ≡ true
unfolding Failover.stop
stopped none ms h j m e = elim (h j m e) [ inl c ↦ c | inr k ↦ cc ]
stopped (some i) ms h j m e = elim (modify-inv Failover.stop i ms j m e) [
  | inl (k, b, found, l) ↦ rw (← l) refl
  | inr (k, found) ↦ elim (h j m found) [ inl c ↦ c | inr q ↦ absurd (k cc) ]
]

-- the rounds of a monitor change neither of these
monitor_loop-keeps :
    (rounds : List Round) (m : FailoverMonitor)
    → ((monitor_loop rounds m).0.cancelled ≡ m.cancelled) × ((monitor_loop rounds m).0.cfg ≡ m.cfg)
unfolding monitor_loop miss trigger_failover
monitor_loop-keeps [] m = (refl, refl)
monitor_loop-keeps (ended ∷ rounds) m = (refl, refl)
monitor_loop-keeps (tick true now ∷ rounds) m =
    monitor_loop-keeps rounds (record m { missed_beats = 0 })
monitor_loop-keeps (tick false now ∷ rounds) m =
    elim (Bool-cases (leb_ℤ m.cfg.max_missed_beats (pos (m.missed_beats + 1)))) [
      | inl over ↦ rw (over, monitor_loop) (refl, refl)
      | inr under ↦ rw (under, monitor_loop) (monitor_loop-keeps rounds (miss now m))
    ]

become_master-IsWatched : (n : Node) → IsWatched n → IsWatched (become_master n)
unfolding become_master
become_master-IsWatched n w = record {
  role = (refl, refl);
  one_monitor = λ j m e. inl (stopped n.manager.monitor n.monitors w.one_monitor j m e);
}

become_replica-IsWatched :
    (addr : Bytes) (n : Node) → IsWatched n → IsWatched (become_replica addr n)
unfolding become_replica Failover.start new_failover_monitor default_failover_config
become_replica-IsWatched addr n w =
    let ms = stop_monitor n.manager.monitor n.monitors in
    record {
      role = (_, _, refl, get_elem?-snoc ms _, refl);
      one_monitor = λ j m e. elim (get_elem?-unsnoc ms _ j m e) [
        | inl old ↦ inl (stopped n.manager.monitor n.monitors w.one_monitor j m old)
        | inr (k, l) ↦ inr (ap some (sym k))
      ];
    }

-- monitors with the configurations of others
abbrev Keeps : List FailoverMonitor → List FailoverMonitor → Type 0
Keeps ms ms' =
    (j : ℕ) (b : FailoverMonitor)
    → get_elem? ms j ≡ some b
    → (c : FailoverMonitor) × (get_elem? ms' j ≡ some c) × (c.cfg ≡ b.cfg)

RoleIs-Keeps :
    (r : Role) (addr : Bytes) (p : Option ℕ) (ms ms' : List FailoverMonitor)
    → Keeps ms ms'
    → RoleIs r addr p ms
    → RoleIs r addr p ms'
RoleIs-Keeps role_master addr p ms ms' k h = h
RoleIs-Keeps role_replica addr p ms ms' k (i, m, at, found, watches) =
    let (c, found', same) = k i m found in
    (i, c, at, found', ap (λ x. x.master_addr) same ∙ watches)

set-Keeps :
    (ms : List FailoverMonitor) (i : ℕ) (m m' : FailoverMonitor)
    → get_elem? ms i ≡ some m
    → m'.cfg ≡ m.cfg
    → Keeps ms (set ms i m')
set-Keeps ms i m m' e same j b found = elim (Bool-cases (i == j)) [
  | inl eq ↦
      let k : i ≡ j = ground arith in
      let old : m ≡ b = let e' : get_elem? ms j ≡ some m = rw (← k) e in cc in
      (m', rw (← k) (get_elem?-set_self ms i m' m e), same ∙ ap (λ x. x.cfg) old)
  | inr ne ↦ let k : i ≢ j = ground arith in (b, get_elem?-set_ne ms i j m' k ∙ found, refl)
]

rounds-IsWatched :
    (i : ℕ) (m : FailoverMonitor) (rounds : List Round) (n : Node)
    → get_elem? n.monitors i ≡ some m
    → IsWatched n
    → IsWatched (record n { monitors = set n.monitors i (monitor_loop rounds m).0 })
rounds-IsWatched i m rounds n e w =
    let m' = (monitor_loop rounds m).0 in
    let (same, cfg) = monitor_loop-keeps rounds m in
    record {
      role =
          RoleIs-Keeps n.manager.role n.manager.master_addr n.manager.monitor n.monitors
            (set n.monitors i m') (set-Keeps n.monitors i m m' e cfg) w.role;
      one_monitor = λ j b found. elim (get_elem?-unset n.monitors i m' j b found) [
        | inl (k, l) ↦ elim (w.one_monitor i m e) [
          | inl c ↦ inl (ap (λ x. x.cancelled) (sym l) ∙ same ∙ c)
          | inr q ↦ inr (q ∙ ap some k)
        ]
        | inr (k, old) ↦ w.one_monitor j b old
      ];
    }

stop-Keeps : (p : Option ℕ) (ms : List FailoverMonitor) → Keeps ms (stop_monitor p ms)
stop-Keeps none ms = λ j b found. (b, found, refl)
stop-Keeps (some i) ms = elim (Option-cases (get_elem? ms i)) [
  | inl gone ↦ rw (gone, modify) (λ j b found. (b, found, refl))
  | inr (m, e) ↦
      rw (e, modify) (set-Keeps ms i m (Failover.stop m) e (unfold Failover.stop in refl))
]

close-IsWatched : (n : Node) → IsWatched n → IsWatched (close n)
unfolding close
close-IsWatched n w = record {
  role =
      RoleIs-Keeps n.manager.role n.manager.master_addr n.manager.monitor n.monitors _
        (stop-Keeps n.manager.monitor n.monitors) w.role;
  one_monitor = λ j m e. inl (stopped n.manager.monitor n.monitors w.one_monitor j m e);
}

if-IsWatched : (b : Bool) (n p : Node) → IsWatched n → IsWatched p → IsWatched (if b then n else p)
if-IsWatched true n p u v = u
if-IsWatched false n p u v = v

slave_of-IsWatched : (host port : Bytes) (n : Node) → IsWatched n → IsWatched (slave_of host port n)
unfolding slave_of
slave_of-IsWatched host port n w =
    if-IsWatched (is_no_one host port) _ _ (become_master-IsWatched n w)
      (become_replica-IsWatched _ n w)

pub Step-IsWatched : {n p : Node} → Step n p → IsWatched n → IsWatched p
unfolding dial_failed dialed greeted acknowledge disconnect
Step-IsWatched (told host port n) w = slave_of-IsWatched host port n w
Step-IsWatched (dial_fails n g addr e) w = record { role = w.role; one_monitor = w.one_monitor }
Step-IsWatched (dials n g addr e) w = record { role = w.role; one_monitor = w.one_monitor }
Step-IsWatched (greets n g c now e) w = record { role = w.role; one_monitor = w.one_monitor }
Step-IsWatched (acknowledges n g c now e) w = record { role = w.role; one_monitor = w.one_monitor }
Step-IsWatched (disconnects n g c e) w = record { role = w.role; one_monitor = w.one_monitor }
Step-IsWatched (beats n i m rounds e) w =
    let w' = rounds-IsWatched i m rounds n e w in
    rw (run_monitor-some i rounds n m e)
      (if-IsWatched (monitor_loop rounds m).1 _ _ (slave_of-IsWatched _ _ _ w') w')
Step-IsWatched (closes n) w = close-IsWatched n w
