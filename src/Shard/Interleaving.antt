-- ===== src/Shard/Interleaving.antt =====
-- The critical sections of internal/store/shard.go in any order: what concurrent calls on one shard
-- can do to it. Each section runs under the lock of the shard, so a run is a list of sections.
use vortex_kv_cache.Base.{List, [], ◌∷◌, Bytes}
use vortex_kv_cache.Base.Int.{ℤ}
use vortex_kv_cache.Eviction.{EvictionPolicy, PolicyLaws}
use vortex_kv_cache.Shard
use vortex_kv_cache.Shard.{Shard}
use vortex_kv_cache.Shard.Invariant.{IsValid}
use vortex_kv_cache.Shard.Sections.{
  set-IsValid, get_read-IsValid, purge_expired-IsValid, touch_present-IsValid, remove-IsValid,
  expire-IsValid, active_sweep-IsValid,
}

-- The critical sections that change a shard. `exists`, `ttl` and the two reads of `len` have no
-- others.
pub data Section : Type 0 where
  set : Bytes → Bytes → ℤ → ℤ → Section
  get_read purge_expired : Bytes → ℤ → Section
  touch_present remove : Bytes → Section
  expire : Bytes → ℤ → ℤ → Section
  sweep : ℤ → ℤ → List Bytes → Section

module _ (P : EvictionPolicy) where
  unfoldable pub enact : Section → Shard P → Shard P
  unfolding Shard.set Shard.get_read Shard.purge_expired Shard.touch_present Shard.remove
      Shard.expire Shard.active_sweep
  enact (Section.set k val life now) s = Shard.set P k val life now s
  enact (Section.get_read k now) s = (Shard.get_read P k now s).0
  enact (Section.purge_expired k now) s = Shard.purge_expired P k now s
  enact (Section.touch_present k) s = Shard.touch_present P k s
  enact (Section.remove k) s = (Shard.remove P k s).0
  enact (Section.expire k life now) s = (Shard.expire P k life now s).0
  enact (Section.sweep size now order) s = (Shard.active_sweep P size now order s).0

  unfoldable pub enact_all : List Section → Shard P → Shard P
  unfolding enact
  enact_all [] s = s
  enact_all (c ∷ cs) s = enact_all cs (enact c s)

module _ {P : EvictionPolicy} (L : PolicyLaws P) where
  enact-IsValid : (c : Section) (s : Shard P) → IsValid L s → IsValid L (enact P c s)
  unfolding enact
  enact-IsValid (Section.set k val life now) s v = set-IsValid L k val life now s v
  enact-IsValid (Section.get_read k now) s v = get_read-IsValid L k now s v
  enact-IsValid (Section.purge_expired k now) s v = purge_expired-IsValid L k now s v
  enact-IsValid (Section.touch_present k) s v = touch_present-IsValid L k s v
  enact-IsValid (Section.remove k) s v = remove-IsValid L k s v
  enact-IsValid (Section.expire k life now) s v = expire-IsValid L k life now s v
  enact-IsValid (Section.sweep size now order) s v = active_sweep-IsValid L size now order s v

  -- From a valid shard with a lawful policy, the critical sections of its methods, run in any
  -- order and with any times, lead to a valid shard: no key is stored twice, and the policy, if
  -- there is one, holds exactly the stored keys and keeps their number within the bound.
  pub enact_all-IsValid :
      (cs : List Section) (s : Shard P) → IsValid L s → IsValid L (enact_all P cs s)
  unfolding enact_all
  enact_all-IsValid [] s v = v
  enact_all-IsValid (c ∷ cs) s v = enact_all-IsValid cs (enact P c s) (enact-IsValid c s v)
