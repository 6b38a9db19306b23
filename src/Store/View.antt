-- ===== src/Store/View.antt =====
-- What the methods of a store (internal/store/store.go) do to what its clients see.
use vortex_kv_cache.Base.{
  ℕ, ◌==◌, Option, none, some, Bool, true, false, ◌&&◌, ◌≡◌, ◌∙◌, refl, Bytes, bytes, arith, ◌≟◌,
  ≟_iff, if◌then◌else◌, is_some, get_elem?, set as set_elem,
}
use vortex_kv_cache.Base.Int.{ℤ, pos, ◌≤ℤ◌}
use vortex_kv_cache.Eviction.{EvictionPolicy, PolicyLaws}
use vortex_kv_cache.Entry.{new_entry}
use vortex_kv_cache.Shard
use vortex_kv_cache.Shard.{Shard}
use vortex_kv_cache.Shard.View.{
  see, seen, value_of, evicted, is_key, lifetime_of, see-get, see-set, see-remove, see-exists,
  see-ttl, see-expire,
}
use vortex_kv_cache.Store.{Store, shard_index, notify_write, set, get, delete, exists, ttl, expire}
use vortex_kv_cache.Store.Invariant.{IsValid, Called, at_shard-returns}
use vortex_kv_cache.Store.Seen.{
  Ends, ends, Ends-open, see_at, store_see, store_has, store_evicted, together, if_ap, routed,
  routed_hidden, get_elem?-set,
}

module _ {P : EvictionPolicy} {W : Type 0} (L : PolicyLaws P) (hash : Bytes → ℕ) (key : Bytes)
    (s : Store P W) (v : IsValid L hash s) (open_store : s.closed ≡ false) where
  -- a call on one shard changes what is seen there, and nothing in the other shards
  at_shard_see :
      {A : Type 0} (method : Shard P → Shard P × A) (later : ℤ) (j : Bytes)
      → (c : Called L hash key method s)
      → store_see hash later
          (record s { shards = set_elem s.shards (shard_index P W hash s key) (method c.shd).0 })
          j
        ≡ (if together hash s key j then see later (method c.shd).0 j else store_see hash later s j)
  at_shard_see method later j c =
      let n = shard_index P W hash s key in
      let m = shard_index P W hash s j in
      rw (get_elem?-set s.shards n m (method c.shd).0 c.shd c.found)
        (if_ap (n == m) (λ o. see_at later o j) _ _)

  -- what is seen of a key in the shard that was called
  same_shard :
      {A : Type 0} (method : Shard P → Shard P × A) (later : ℤ) (j : Bytes)
      → (c : Called L hash key method s) → together hash s key j ≡ true
      → store_see hash later s j ≡ see later c.shd j
  same_shard method later j c t =
      let n = shard_index P W hash s key in
      let m = shard_index P W hash s j in let e : n ≡ m = ground arith in rw (← e, c.found)

  -- a key is in the shard of its own
  same_key : (j : Bytes) → (key ≟ j) ≡ true → together hash s key j ≡ true
  same_key j e = ground (arith, ≟_iff key j)

  set_view :
      (val : Bytes) (life now later : ℤ) (j : Bytes) (shd : Shard P)
      → get_elem? s.shards (shard_index P W hash s key) ≡ some shd
      → {x : Option (Bytes × ℤ)}
      → x ≡ (
          if together hash s key j
          then see later (Shard.set P key val life now shd) j
          else store_see hash later s j)
      → (together hash s key j ≡ true → store_see hash later s j ≡ see later shd j)
      → x ≡ (
          if key ≟ j
          then seen later (some (new_entry val life now))
          else if together hash s key j && is_key (store_evicted hash key s) j
          then none
          else store_see hash later s j)
  set_view val life now later j shd found {x} e same =
      rw (e, found)
        (rw (see-set key val life now later shd j) (
          routed_hidden (together hash s key j) (key ≟ j) (is_key (evicted key shd) j) _ _ _ _
            (same_key j) same))

  -- a call that changes nothing seen of its shard changes nothing seen of the store
  unchanged :
      {A : Type 0} (method : Shard P → Shard P × A) (later : ℤ) (j : Bytes)
      → (c : Called L hash key method s) → see later (method c.shd).0 j ≡ see later c.shd j
      → store_see hash later
          (record s { shards = set_elem s.shards (shard_index P W hash s key) (method c.shd).0 })
          j
        ≡ store_see hash later s j
  unchanged method later j c e =
      ground (arith, at_shard_see method later j c, same_shard method later j c)

  -- `Get` returns the value that is shown under the key.
  pub get-Ends :
      (now later : ℤ) (j : Bytes)
      → now ≤ℤ later
      → Ends
          (λ r.
            (r.1 ≡ value_of (store_see hash now s key))
            × (store_see hash later r.0 j ≡ store_see hash later s j))
          (get P W hash key now s)
  unfolding get
  get-Ends now later j h =
      let method = Shard.get P key now in
      let c = at_shard-returns L hash key method s v in
      let (e, f) = see-get key now later c.shd j h in
      Ends-open s.closed _ _ open_store
        (rw c.result (ends _ (rw c.found e, unchanged method later j c f)))

  -- `Exists` returns whether the key is shown.
  pub exists-Ends :
      (now later : ℤ) (j : Bytes)
      → now ≤ℤ later
      → Ends
          (λ r.
            (r.1 ≡ is_some (store_see hash now s key))
            × (store_see hash later r.0 j ≡ store_see hash later s j))
          (exists P W hash key now s)
  unfolding exists
  exists-Ends now later j h =
      let method = Shard.exists P key now in
      let c = at_shard-returns L hash key method s v in
      let (e, f) = see-exists key now later c.shd j h in
      Ends-open s.closed _ _ open_store
        (rw c.result (ends _ (rw c.found e, unchanged method later j c f)))

  -- `TTL` returns the lifetime of what is shown, and whether the key is shown.
  pub ttl-Ends :
      (now later : ℤ) (j : Bytes)
      → now ≤ℤ later
      → Ends
          (λ r.
            (r.1 ≡ lifetime_of now (store_see hash now s key))
            × (r.2 ≡ is_some (store_see hash now s key))
            × (store_see hash later r.0 j ≡ store_see hash later s j))
          (ttl P W hash key now s)
  unfolding ttl
  ttl-Ends now later j h =
      let method : Shard P → Shard P × (ℤ × Bool) =
        λ shd. let (shd', d, b) = Shard.ttl P key now shd in (shd', (d, b)) in
      let c = at_shard-returns L hash key method s v in
      let (e, f, g) = see-ttl key now later c.shd j h in
      Ends-open s.closed _ _ open_store
        (rw c.result (ends _ (rw c.found e, rw c.found f, unchanged method later j c g)))

  -- On a valid store that is open, for a lawful policy, and for what the store shows under the key
  -- at the time of the call: `Get` returns its value or none; `Exists` returns whether there is
  -- one; `TTL` returns its deadline less the time, -1 if it has no deadline, -2 if nothing is
  -- shown, and whether there is one. None of them changes what the store shows from that time on
  -- under any key, although they may purge an expired entry.
  pub reads-Ends :
      (now later : ℤ) (j : Bytes)
      → now ≤ℤ later
      → Ends
          (λ r.
            (r.1 ≡ value_of (store_see hash now s key))
            × (store_see hash later r.0 j ≡ store_see hash later s j))
          (get P W hash key now s)
        × Ends
            (λ r.
              (r.1 ≡ is_some (store_see hash now s key))
              × (store_see hash later r.0 j ≡ store_see hash later s j))
            (exists P W hash key now s)
        × Ends
            (λ r.
              (r.1 ≡ lifetime_of now (store_see hash now s key))
              × (r.2 ≡ is_some (store_see hash now s key))
              × (store_see hash later r.0 j ≡ store_see hash later s j))
            (ttl P W hash key now s)
  reads-Ends now later j h =
      (get-Ends now later j h, exists-Ends now later j h, ttl-Ends now later j h)

  -- On a valid store that is open, for a policy that keeps the laws of eviction policies, `Set`
  -- succeeds and tells the listeners of the write. At any time the store shows under the written
  -- key the new value and its deadline as far as that is not over, nothing under the key that the
  -- called shard evicts to make room, and under any other key what it showed before.
  pub set-Ends :
      (val : Bytes) (life now later : ℤ) (w : W) (j : Bytes)
      → Ends
          (λ r.
            (r.2 ≡ true)
            × (r.1
                ≡ notify_write P W s
                    (record { cmd_name = bytes "SET"; key = key; val = some val; ttl = life })
                    w)
            × (store_see hash later r.0 j ≡ (
                if key ≟ j
                then seen later (some (new_entry val life now))
                else if together hash s key j && is_key (store_evicted hash key s) j
                then none
                else store_see hash later s j)))
          (set P W hash key val life now s w)
  unfolding set notify_write
  set-Ends val life now later w j =
      let method : Shard P → Shard P × Unit {0} = λ shd. (Shard.set P key val life now shd, tt) in
      let c = at_shard-returns L hash key method s v in
      Ends-open s.closed _ _ open_store (
        rw c.result (
          ends _ (
            refl,
            refl,
            set_view val life now later j c.shd c.found (at_shard_see method later j c)
                (same_shard method later j c),
          )))

  -- On a valid store that is open, for a lawful policy, `Delete` reports whether an entry is
  -- stored under the key, expired or not, and tells the listeners exactly then; afterwards the key
  -- is not shown, and every other key is shown as before.
  pub delete-Ends :
      (later : ℤ) (w : W) (j : Bytes)
      → Ends
          (λ r.
            (r.2 ≡ store_has hash s key)
            × (r.1 ≡ (
                if r.2
                then notify_write P W s
                    (record { cmd_name = bytes "DEL"; key = key; val = none; ttl = pos 0 })
                    w
                else w))
            × (store_see hash later r.0 j ≡ (if key ≟ j then none else store_see hash later s j)))
          (delete P W hash key s w)
  unfolding delete notify_write
  delete-Ends later w j =
      let method = Shard.remove P key in
      let c = at_shard-returns L hash key method s v in
      let (e, f) = see-remove key later c.shd j in
      Ends-open s.closed _ _ open_store (
        rw c.result (
          ends _ (
            rw c.found e,
            refl,
            ground (
              arith,
              at_shard_see method later j c,
              same_shard method later j c,
              f,
              ≟_iff key j,
              same_key j,
            ),
          )))

  -- On a valid store that is open, for a lawful policy, `Expire` succeeds exactly if the key is
  -- shown at the time of the call and tells the listeners exactly then. From that time on the key
  -- is shown with its old value and the new deadline if it was shown, and every other key is shown
  -- as before.
  pub expire-Ends :
      (life now later : ℤ) (w : W) (j : Bytes)
      → now ≤ℤ later
      → Ends
          (λ r.
            (r.2 ≡ is_some (store_see hash now s key))
            × (r.1 ≡ (
                if r.2
                then notify_write P W s
                    (record { cmd_name = bytes "EXPIRE"; key = key; val = none; ttl = life })
                    w
                else w))
            × (store_see hash later r.0 j ≡ (
                if key ≟ j
                then elim (store_see hash now s key) [
                  | none ↦ none
                  | some (x, _) ↦ seen later (some (new_entry x life now))
                ]
                else store_see hash later s j)))
          (expire P W hash key life now s w)
  unfolding expire notify_write
  expire-Ends life now later w j h =
      let method = Shard.expire P key life now in
      let c = at_shard-returns L hash key method s v in
      let (e, f) = see-expire key life now later c.shd j h in
      Ends-open s.closed _ _ open_store (
        rw c.result (
          ends _ (
            rw c.found e,
            refl,
            rw c.found (
                at_shard_see method later j c
                ∙ rw f (
                    routed (together hash s key j) (key ≟ j) _ _ _ (same_key j)
                      (same_shard method later j c))),
          )))
