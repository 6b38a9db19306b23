-- ===== src/Shard/Local.antt =====
-- What a store relies on in the methods of a shard (internal/store/shard.go): they keep it valid,
-- and bring in no key but their own.
use vortex_kv_cache.Base.{
  none, Bool, false, ◌≡◌, refl, ◌⊎◌, Bytes, ◌≟◌, Option-cases, Bool-cases, inl, inr,
}
use vortex_kv_cache.Base.Int.{ℤ}
use vortex_kv_cache.Base.Dict.{lookup}
use vortex_kv_cache.Eviction.{EvictionPolicy, PolicyLaws}
use vortex_kv_cache.Entry.{is_expired}
use vortex_kv_cache.Shard.{
  Shard, set, get_read, get, remove, exists, ttl, expire, missing, stale, found, Read,
}
use vortex_kv_cache.Shard.Invariant.{IsValid}
use vortex_kv_cache.Shard.Sections.{
  set-IsValid, get_read-IsValid, purge_expired-IsValid, touch_present-IsValid, remove-IsValid,
  expire-IsValid,
}
use vortex_kv_cache.Shard.Keys.{
  set-absent, get-absent, remove-absent, exists-absent, ttl-absent, expire-absent,
}

Read-cases : (r : Read) → (r ≡ missing) ⊎ ((r ≡ stale) ⊎ ((x : Bytes) × (r ≡ found x)))
Read-cases missing = inl refl
Read-cases stale = inr (inl refl)
Read-cases (found x) = inr (inr (x, refl))

module _ {P : EvictionPolicy} (L : PolicyLaws P) where
  -- a method of a shard that brings in no key but its own
  pub record IsLocal {A : Type 0} (key : Bytes) (method : Shard P → Shard P × A) : Type 0 where
    pub keeps : (shd : Shard P) → IsValid L shd → IsValid L (method shd).0
    pub only :
        (shd : Shard P) (j : Bytes)
        → (key ≟ j) ≡ false
        → lookup j shd.items ≡ none
        → lookup j (method shd).0.items ≡ none

  get-IsValid : (k : Bytes) (now : ℤ) (s : Shard P) → IsValid L s → IsValid L (get P k now s).0
  unfolding get
  get-IsValid k now s v =
      let (s', r) = get_read P k now s in
      let u = get_read-IsValid L k now s v in
      elim (Read-cases r) [
        | inl miss ↦ rw (miss, get) u
        | inr rest ↦ elim rest [
          | inl old ↦ rw (old, get) (purge_expired-IsValid L k now s' u)
          | inr (x, hit) ↦ rw (hit, get) (touch_present-IsValid L k s' u)
        ]
      ]

  exists-IsValid :
      (k : Bytes) (now : ℤ) (s : Shard P) → IsValid L s → IsValid L (exists P k now s).0
  unfolding exists
  exists-IsValid k now s v = elim (Option-cases (lookup k s.items)) [
    | inl miss ↦ rw (miss, exists) v
    | inr (e, hit) ↦ elim (Bool-cases (is_expired e now)) [
      | inl old ↦ rw (hit, exists) (rw old (purge_expired-IsValid L k now s v))
      | inr live ↦ rw (hit, exists) (rw live (touch_present-IsValid L k s v))
    ]
  ]

  ttl-IsValid : (k : Bytes) (now : ℤ) (s : Shard P) → IsValid L s → IsValid L (ttl P k now s).0
  unfolding ttl
  ttl-IsValid k now s v = elim (Option-cases (lookup k s.items)) [
    | inl miss ↦ rw (miss, ttl) v
    | inr (e, hit) ↦ elim (Bool-cases (is_expired e now)) [
      | inl old ↦ rw (hit, ttl) (rw old (purge_expired-IsValid L k now s v))
      | inr live ↦ rw (hit, ttl) (rw live v)
    ]
  ]

  module _ (k : Bytes) where
    pub set-IsLocal :
        (val : Bytes) (life now : ℤ) → IsLocal {A = Unit {0}} k (λ s. (set P k val life now s, tt))
    set-IsLocal val life now = record {
      keeps = λ s v. set-IsValid L k val life now s v;
      only = λ s j o m. set-absent k j o s m val life now;
    }

    pub get-IsLocal : (now : ℤ) → IsLocal k (get P k now)
    get-IsLocal now = record {
      keeps = λ s v. get-IsValid k now s v;
      only = λ s j o m. get-absent k j o s m now;
    }

    pub remove-IsLocal : IsLocal k (remove P k)
    remove-IsLocal = record {
      keeps = λ s v. remove-IsValid L k s v;
      only = λ s j o m. remove-absent k j o s m;
    }

    pub exists-IsLocal : (now : ℤ) → IsLocal k (exists P k now)
    exists-IsLocal now = record {
      keeps = λ s v. exists-IsValid k now s v;
      only = λ s j o m. exists-absent k j o s m now;
    }

    pub ttl-IsLocal :
        (now : ℤ) → IsLocal {A = ℤ × Bool} k (λ s. let (s', d, b) = ttl P k now s in (s', (d, b)))
    ttl-IsLocal now = record {
      keeps = λ s v. ttl-IsValid k now s v;
      only = λ s j o m. ttl-absent k j o s m now;
    }

    pub expire-IsLocal : (life now : ℤ) → IsLocal k (expire P k life now)
    expire-IsLocal life now = record {
      keeps = λ s v. expire-IsValid L k life now s v;
      only = λ s j o m. expire-absent k j o s m life now;
    }
