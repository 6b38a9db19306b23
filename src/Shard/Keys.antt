-- ===== src/Shard/Keys.antt =====
-- No operation of a shard (internal/store/shard.go) brings in a key other than its own.
use vortex_kv_cache.Base.{none, false, ◌≡◌, Bytes, arith, ◌≟◌, Option-cases, inl, inr}
use vortex_kv_cache.Base.Int.{ℤ}
use vortex_kv_cache.Base.Dict.{lookup, lookup-insert, lookup-delete}
use vortex_kv_cache.Eviction.{EvictionPolicy}
use vortex_kv_cache.Entry.{Entry, new_entry, deadline}
use vortex_kv_cache.Shard.{
  Shard, victim, drop, store, make_room, set, get_read, purge_expired, touch_present, get, remove,
  exists, ttl, expire,
}

module _ {P : EvictionPolicy} (k j : Bytes) (other : (k ≟ j) ≡ false) (s : Shard P)
    (out : lookup j s.items ≡ none) where
  pub drop-absent : (i : Bytes) → lookup j (drop P i s).items ≡ none
  unfolding drop
  drop-absent i = ground (arith, lookup-delete i j s.items)

  pub store-absent : (e : Entry) → lookup j (store P k e s).items ≡ none
  unfolding store
  store-absent e = ground (arith, lookup-insert k j e s.items)

  pub make_room-absent : lookup j (make_room P s).items ≡ none
  unfolding make_room
  make_room-absent = elim (Option-cases (victim P s)) [
    | inl nothing ↦ rw (nothing, make_room) out
    | inr (i, chosen) ↦ rw (chosen, make_room) (drop-absent i)
  ]

  pub purge_expired-absent : (now : ℤ) → lookup j (purge_expired P k now s).items ≡ none
  unfolding purge_expired
  purge_expired-absent now = ground (arith, out, drop-absent k)

  pub touch_present-absent : lookup j (touch_present P k s).items ≡ none
  unfolding touch_present
  touch_present-absent = ground (arith, out)

  pub get_read-absent : (now : ℤ) → lookup j (get_read P k now s).0.items ≡ none
  unfolding get_read
  get_read-absent now = elim (Option-cases (lookup k s.items)) [
    | inl miss ↦ rw (miss, get_read) out
    | inr (e, hit) ↦
        rw (hit, get_read)
          (ground (arith, out, lookup-insert k j (record e { accessed_at = now }) s.items))
  ]

  pub remove-absent : lookup j (remove P k s).0.items ≡ none
  unfolding remove
  remove-absent = ground (arith, out, drop-absent k)

  pub exists-absent : (now : ℤ) → lookup j (exists P k now s).0.items ≡ none
  unfolding exists
  exists-absent now = ground (arith, out, purge_expired-absent now, touch_present-absent)

  pub ttl-absent : (now : ℤ) → lookup j (ttl P k now s).0.items ≡ none
  unfolding ttl
  ttl-absent now = ground (arith, out, purge_expired-absent now)

  pub expire-absent : (life now : ℤ) → lookup j (expire P k life now s).0.items ≡ none
  unfolding expire
  expire-absent life now = elim (Option-cases (lookup k s.items)) [
    | inl miss ↦ rw (miss, expire) out
    | inr (e, hit) ↦
        rw (hit, expire)
          (ground
            (arith, out, drop-absent k, store-absent (record e { expires_at = deadline life now })))
  ]

module _ {P : EvictionPolicy} (k j : Bytes) (other : (k ≟ j) ≡ false) (s : Shard P)
    (out : lookup j s.items ≡ none) where
  pub set-absent : (val : Bytes) (life now : ℤ) → lookup j (set P k val life now s).items ≡ none
  unfolding set
  set-absent val life now =
      let e = new_entry val life now in
      ground (
        arith,
        store-absent k j other s out e,
        store-absent k j other (make_room P s) (make_room-absent k j other s out) e,
      )

  pub get-absent : (now : ℤ) → lookup j (get P k now s).0.items ≡ none
  unfolding get
  get-absent now =
      let s' = (get_read P k now s).0 in
      let out' = get_read-absent k j other s out now in
      ground (
        arith,
        out',
        purge_expired-absent k j other s' out' now,
        touch_present-absent k j other s' out',
      )
