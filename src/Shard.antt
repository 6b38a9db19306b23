-- ===== src/Shard.antt =====
-- internal/store/shard.go. A method is the sequence of its critical sections, each of which is a
-- function from the state to the new state and a result; the state of the policy is `none` where
-- the field `eviction` is nil.
pub mod Invariant
pub mod Room
pub mod Sections
pub mod Interleaving
pub mod View
pub mod Sweep
pub mod Purge
pub mod Recency
pub mod Keys
pub mod Local
use vortex_kv_cache.Base.{
  ℕ, zero, suc, ◌+◌, ◌==◌, Option, none, some, Bool, true, false, ◌&&◌, List, [], ◌∷◌, Bytes,
  if◌then◌else◌, length, is_some,
}
use vortex_kv_cache.Base.Int.{ℤ, pos, negsuc, ltb_ℤ, leb_ℤ}
use vortex_kv_cache.Base.Dict.{Dict, lookup, insert, delete}
use vortex_kv_cache.Eviction.{EvictionPolicy}
use vortex_kv_cache.Entry.{Entry, new_entry, deadline, is_expired, remaining_ttl}

pub record Shard (P : EvictionPolicy) : Type 0 where
  pub items : Dict Entry
  pub max_keys : ℤ
  pub eviction : Option P.State

-- a call of the policy under `if s.eviction != nil`
abbrev pub notify : {S : Type 0} → (S → S) → Option S → Option S
notify f none = none
notify f (some p) = some (f p)

-- the first section of `get`
pub data Read : Type 0 where
  missing : Read
  stale : Read
  found : Bytes → Read

-- the loop of `len`
unfoldable pub count_live : ℤ → Dict Entry → ℕ
unfolding is_expired
count_live now [] = 0
count_live now ((_, e) ∷ m) = (if is_expired e now then 0 else 1) + count_live now m

module _ (P : EvictionPolicy) where
  -- `factory` says whether there is one
  unfoldable pub new_shard : ℤ → Bool → Shard P
  new_shard max_keys factory = record {
    items = [];
    max_keys = max_keys;
    eviction = if factory then some P.create else none;
  }

  -- `s.maxKeys > 0 && len(s.items) >= s.maxKeys`
  unfoldable pub is_full : Shard P → Bool
  is_full s = ltb_ℤ (pos 0) s.max_keys && leb_ℤ s.max_keys (pos (length s.items))

  -- the key that a full shard gives up for a new one
  unfoldable pub victim : Shard P → Option Bytes
  unfolding is_full
  victim s = if is_full s then elim s.eviction [ none ↦ none | some p ↦ P.select_evict p ] else none

  -- `delete(s.items, key)` and `s.eviction.OnDelete(key)`
  unfoldable pub drop : Bytes → Shard P → Shard P
  unfolding delete
  drop key s = record s {
    items = delete key s.items;
    eviction = notify (P.on_delete key) s.eviction;
  }

  -- `s.items[key] = …` and `s.eviction.OnSet(key)`
  unfoldable pub store : Bytes → Entry → Shard P → Shard P
  unfolding insert
  store key e s = record s {
    items = insert key e s.items;
    eviction = notify (P.on_set key) s.eviction;
  }

  unfoldable pub make_room : Shard P → Shard P
  unfolding victim drop
  make_room s = elim (victim s) [ none ↦ s | some key ↦ drop key s ]

  unfoldable pub set : Bytes → Bytes → ℤ → ℤ → Shard P → Shard P
  unfolding lookup store make_room new_entry
  set key val ttl now s = elim (lookup key s.items) [
    | some _ ↦ store key (new_entry val ttl now) s
    | none ↦ store key (new_entry val ttl now) (make_room s)
  ]

  -- the section under the read lock; the time of access is written to the entry
  unfoldable pub get_read : Bytes → ℤ → Shard P → Shard P × Read
  unfolding lookup is_expired insert
  get_read key now s = elim (lookup key s.items) [
    | none ↦ (s, missing)
    | some e ↦ if is_expired e now then (s, stale) else (
      record s { items = insert key (record e { accessed_at = now }) s.items },
      found e.value,
    )
  ]

  -- the section that looks at the key again and purges it
  unfoldable pub purge_expired : Bytes → ℤ → Shard P → Shard P
  unfolding lookup is_expired drop
  purge_expired key now s = elim (lookup key s.items) [
    | none ↦ s
    | some e ↦ if is_expired e now then drop key s else s
  ]

  -- the section that tells the policy of a read
  unfoldable pub touch_present : Bytes → Shard P → Shard P
  unfolding lookup
  touch_present key s = elim (lookup key s.items) [
    | none ↦ s
    | some _ ↦ record s { eviction = notify (P.on_get key) s.eviction }
  ]

  unfoldable pub get : Bytes → ℤ → Shard P → Shard P × Option Bytes
  unfolding get_read purge_expired touch_present
  get key now s =
      let (s', r) = get_read key now s in
      elim r [
        | missing ↦ (s', none)
        | stale ↦ (purge_expired key now s', none)
        | found v ↦ (touch_present key s', some v)
      ]

  unfoldable pub remove : Bytes → Shard P → Shard P × Bool
  unfolding lookup drop
  remove key s = elim (lookup key s.items) [ none ↦ (s, false) | some _ ↦ (drop key s, true) ]

  unfoldable pub exists : Bytes → ℤ → Shard P → Shard P × Bool
  unfolding lookup is_expired purge_expired touch_present
  exists key now s = elim (lookup key s.items) [
    | none ↦ (s, false)
    | some e ↦
        if is_expired e now then (purge_expired key now s, false) else (touch_present key s, true)
  ]

  -- a missing key has the lifetime -2
  unfoldable pub ttl : Bytes → ℤ → Shard P → Shard P × ℤ × Bool
  unfolding lookup is_expired remaining_ttl purge_expired
  ttl key now s = elim (lookup key s.items) [
    | none ↦ (s, negsuc 1, false)
    | some e ↦
        if is_expired e now
        then (purge_expired key now s, negsuc 1, false)
        else (s, remaining_ttl e now, true)
  ]

  unfoldable pub expire : Bytes → ℤ → ℤ → Shard P → Shard P × Bool
  unfolding lookup is_expired drop store deadline
  expire key ttl now s = elim (lookup key s.items) [
    | none ↦ (s, false)
    | some e ↦
        if is_expired e now
        then (drop key s, false)
        else (store key (record e { expires_at = deadline ttl now }) s, true)
  ]

  unfoldable pub len : ℤ → Shard P → ℕ
  unfolding count_live
  len now s = count_live now s.items

  -- The loop of `activeSweep`. `order` lists the keys as the runtime picks them; a key that is
  -- gone is not visited.
  unfoldable pub sweep_loop : ℤ → ℤ → List Bytes → ℕ → ℕ → Shard P → Shard P × ℕ × ℕ
  unfolding lookup is_expired drop
  sweep_loop sample_size now [] sampled expired s = (s, expired, sampled)
  sweep_loop sample_size now (key ∷ order) sampled expired s =
      elim (leb_ℤ sample_size (pos sampled)) [
        | true ↦ (s, expired, sampled)
        | false ↦ elim (lookup key s.items) [
          | none ↦ sweep_loop sample_size now order sampled expired s
          | some e ↦
              let dead = is_expired e now in
              sweep_loop sample_size now order (sampled + 1) (if dead then expired + 1 else expired)
                (if dead then drop key s else s)
        ]
      ]

  -- the counts of expired and of sampled keys
  unfoldable pub active_sweep : ℤ → ℤ → List Bytes → Shard P → Shard P × ℕ × ℕ
  unfolding sweep_loop
  active_sweep sample_size now order s =
      if length s.items == 0 then (s, 0, 0) else sweep_loop sample_size now order 0 0 s
