-- ===== src/Shard/View.antt =====
-- What a client can see of a shard (internal/store/shard.go), and what each operation does to it.
use vortex_kv_cache.Base.{
  Option, none, some, Bool, true, false, ◌≡◌, Bytes, arith, ◌≟◌, ≟_iff, if◌then◌else◌, is_some,
  Bool-cases, Option-cases, inl, inr,
}
use vortex_kv_cache.Base.Int.{ℤ, pos, negsuc, ◌≤ℤ◌, eqb_ℤ, sub64}
use vortex_kv_cache.Base.Dict.{Dict, lookup, lookup-insert, lookup-delete}
use vortex_kv_cache.Eviction.{EvictionPolicy}
use vortex_kv_cache.Entry.{Entry, new_entry, deadline, is_expired, remaining_ttl}
use vortex_kv_cache.Entry.Expiry.{is_expired_mono}
use vortex_kv_cache.Shard.{
  Shard, victim, drop, store, make_room, set, get_read, purge_expired, touch_present, get, remove,
  exists, ttl, expire,
}

-- value and deadline of an entry that has not expired
abbrev pub seen : ℤ → Option Entry → Option (Bytes × ℤ)
seen now none = none
seen now (some e) = if is_expired e now then none else some (e.value, e.expires_at)

abbrev pub see_items : ℤ → Dict Entry → Bytes → Option (Bytes × ℤ)
see_items now items k = seen now (lookup k items)

abbrev pub value_of : Option (Bytes × ℤ) → Option Bytes
value_of none = none
value_of (some (v, _)) = some v

-- the lifetime that is left of what is seen, -1 for no end, -2 for nothing
abbrev pub lifetime_of : ℤ → Option (Bytes × ℤ) → ℤ
lifetime_of now none = negsuc 1
lifetime_of now (some (_, d)) = if eqb_ℤ d (pos 0) then negsuc 0 else sub64 d now

abbrev pub is_key : Option Bytes → Bytes → Bool
is_key none j = false
is_key (some i) j = i ≟ j

module _ {P : EvictionPolicy} where
  -- what a client sees of the key at the time `now`
  abbrev pub see : ℤ → Shard P → Bytes → Option (Bytes × ℤ)
  see now s k = see_items now s.items k

  -- the key that `set` evicts
  abbrev pub evicted : Bytes → Shard P → Option Bytes
  evicted k s = elim (lookup k s.items) [ none ↦ victim P s | some _ ↦ none ]

  see-drop :
      (k : Bytes) (later : ℤ) (s : Shard P) (j : Bytes)
      → see later (drop P k s) j ≡ (if k ≟ j then none else see later s j)
  unfolding drop
  see-drop k later s j = ground (arith, lookup-delete k j s.items)

  see-store :
      (k : Bytes) (e : Entry) (later : ℤ) (s : Shard P) (j : Bytes)
      → see later (store P k e s) j ≡ (if k ≟ j then seen later (some e) else see later s j)
  unfolding store
  see-store k e later s j = ground (arith, lookup-insert k j e s.items)

  see-make_room :
      (later : ℤ) (s : Shard P) (j : Bytes)
      → see later (make_room P s) j ≡ (if is_key (victim P s) j then none else see later s j)
  unfolding make_room
  see-make_room later s j = elim (Option-cases (victim P s)) [
    | inl nothing ↦ rw (nothing, make_room)
    | inr (k, chosen) ↦ rw (chosen, make_room) (see-drop k later s j)
  ]

  -- dropping what has expired is invisible from then on
  pub see-drop_expired :
      (k : Bytes) (e : Entry) (now later : ℤ) (s : Shard P) (j : Bytes)
      → now ≤ℤ later
      → lookup k s.items ≡ some e
      → is_expired e now ≡ true
      → see later (drop P k s) j ≡ see later s j
  unfolding drop
  see-drop_expired k e now later s j h hit old =
      ground (arith, lookup-delete k j s.items, ≟_iff k j, is_expired_mono e now later)

  see-purge_expired :
      (k : Bytes) (now later : ℤ) (s : Shard P) (j : Bytes)
      → now ≤ℤ later
      → see later (purge_expired P k now s) j ≡ see later s j
  unfolding purge_expired
  see-purge_expired k now later s j h = elim (Option-cases (lookup k s.items)) [
    | inl miss ↦ rw (miss, purge_expired)
    | inr (e, hit) ↦ elim (Bool-cases (is_expired e now)) [
      | inl old ↦ rw (hit, purge_expired) (rw old (see-drop_expired k e now later s j h hit old))
      | inr live ↦ rw (hit, purge_expired) (rw live)
    ]
  ]

  see-touch_present :
      (k : Bytes) (later : ℤ) (s : Shard P) (j : Bytes)
      → see later (touch_present P k s) j ≡ see later s j
  unfolding touch_present
  see-touch_present k later s j = ground arith

  see-get_read :
      (k : Bytes) (now later : ℤ) (s : Shard P) (j : Bytes)
      → see later (get_read P k now s).0 j ≡ see later s j
  unfolding get_read is_expired
  see-get_read k now later s j = elim (Option-cases (lookup k s.items)) [
    | inl miss ↦ rw (miss, get_read)
    | inr (e, hit) ↦ elim (Bool-cases (is_expired e now)) [
      | inl old ↦ rw (hit, get_read) (rw old)
      | inr live ↦
          rw (hit, get_read)
            (rw live (
              ground
                (arith, ≟_iff k j, lookup-insert k j (record e { accessed_at = now }) s.items)))
    ]
  ]

  get_value : (k : Bytes) (now : ℤ) (s : Shard P) → (get P k now s).1 ≡ value_of (see now s k)
  unfolding get get_read
  get_value k now s = ground arith

  -- `get` returns what is seen at its time, and changes nothing that is seen from then on.
  pub see-get :
      (k : Bytes) (now later : ℤ) (s : Shard P) (j : Bytes)
      → now ≤ℤ later
      → ((get P k now s).1 ≡ value_of (see now s k))
        × (see later (get P k now s).0 j ≡ see later s j)
  unfolding get
  see-get k now later s j h =
      let (s', r) = get_read P k now s in
      (
        get_value k now s,
        ground (
          arith,
          see-get_read k now later s j,
          see-purge_expired k now later s' j h,
          see-touch_present k later s' j,
        ),
      )

  -- `exists` says whether the key is seen, and changes nothing that is seen from then on.
  pub see-exists :
      (k : Bytes) (now later : ℤ) (s : Shard P) (j : Bytes)
      → now ≤ℤ later
      → ((exists P k now s).1 ≡ is_some (see now s k))
        × (see later (exists P k now s).0 j ≡ see later s j)
  unfolding exists
  see-exists k now later s j h = (
    ground arith,
    ground (arith, see-purge_expired k now later s j h, see-touch_present k later s j),
  )

  ttl_value :
      (k : Bytes) (now : ℤ) (s : Shard P)
      → ((ttl P k now s).1 ≡ lifetime_of now (see now s k))
        × ((ttl P k now s).2 ≡ is_some (see now s k))
  unfolding ttl is_expired remaining_ttl
  ttl_value k now s = (ground arith, ground arith)

  -- `ttl` returns the lifetime of what is seen, and changes nothing that is seen from then on.
  pub see-ttl :
      (k : Bytes) (now later : ℤ) (s : Shard P) (j : Bytes)
      → now ≤ℤ later
      → ((ttl P k now s).1 ≡ lifetime_of now (see now s k))
        × ((ttl P k now s).2 ≡ is_some (see now s k))
        × (see later (ttl P k now s).0 j ≡ see later s j)
  unfolding ttl
  see-ttl k now later s j h =
      let (e, f) = ttl_value k now s in (e, f, ground (arith, see-purge_expired k now later s j h))

  -- `set` binds its key to the new entry, hides the key that it evicts, and leaves every other key
  -- as it was.
  pub see-set :
      (k val : Bytes) (life now later : ℤ) (s : Shard P) (j : Bytes)
      → see later (set P k val life now s) j ≡ (
          if k ≟ j
          then seen later (some (new_entry val life now))
          else if is_key (evicted k s) j
          then none
          else see later s j)
  unfolding set
  see-set k val life now later s j = elim (Option-cases (lookup k s.items)) [
    | inl miss ↦
        rw (miss, set)
          (ground (
            arith,
            see-store k (new_entry val life now) later (make_room P s) j,
            see-make_room later s j,
          ))
    | inr (e, hit) ↦
        rw (hit, set) (ground (arith, see-store k (new_entry val life now) later s j, hit))
  ]

  -- `delete` says whether the key was stored, expired or not, and hides it and no other key.
  pub see-remove :
      (k : Bytes) (later : ℤ) (s : Shard P) (j : Bytes)
      → ((remove P k s).1 ≡ is_some (lookup k s.items))
        × (see later (remove P k s).0 j ≡ (if k ≟ j then none else see later s j))
  unfolding remove
  see-remove k later s j = (ground arith, ground (arith, see-drop k later s j, ≟_iff k j))

  expire_view :
      (k : Bytes) (life now later : ℤ) (s : Shard P) (j : Bytes)
      → now ≤ℤ later
      → see later (expire P k life now s).0 j ≡ (
          if k ≟ j
          then elim (see now s k) [
            | none ↦ none
            | some (v, _) ↦ seen later (some (new_entry v life now))
          ]
          else see later s j)
  unfolding expire new_entry is_expired
  expire_view k life now later s j h = elim (Option-cases (lookup k s.items)) [
    | inl miss ↦ rw (miss, expire) (ground (arith, ≟_iff k j))
    | inr (e, hit) ↦ elim (Bool-cases (is_expired e now)) [
      | inl old ↦ rw (hit, expire) (rw old (ground (arith, see-drop k later s j)))
      | inr live ↦
          rw (hit, expire)
            (rw live
              (ground (arith, see-store k (record e { expires_at = deadline life now }) later s j)))
    ]
  ]

  -- `expire` succeeds exactly on the keys that are seen; there it replaces the deadline and keeps
  -- the value, and it changes no other key.
  pub see-expire :
      (k : Bytes) (life now later : ℤ) (s : Shard P) (j : Bytes)
      → now ≤ℤ later
      → ((expire P k life now s).1 ≡ is_some (see now s k))
        × (see later (expire P k life now s).0 j ≡ (
            if k ≟ j
            then elim (see now s k) [
              | none ↦ none
              | some (v, _) ↦ seen later (some (new_entry v life now))
            ]
            else see later s j))
  unfolding expire
  see-expire k life now later s j h = (ground arith, expire_view k life now later s j h)
