-- ===== src/Store.antt =====
-- internal/store/store.go: the sharded store. `hash` is `maphash.String` under the seed of the
-- store, `W` is the state that the write listeners change. An access out of the bounds of
-- `s.shards` panics. `now` is the reading of `time.Now().UnixNano()` that a method makes.
pub mod Routing
pub mod Invariant
pub mod Operations
pub mod Runs
pub mod Seen
pub mod View
pub mod Listed
pub mod Cycle
pub mod Pruned
pub mod Sweeper
pub mod Sweeping
use Prim.Native.Nat.{bit_and}
use vortex_kv_cache.Base.{
  ℕ, ◌+◌, ◌-◌, ◌==◌, ltb, Option, none, some, Bool, true, false, ◌&&◌, ◌||◌, not, List, [], ◌∷◌,
  ◌++◌, Bytes, bytes, if◌then◌else◌, replicate, set as set_elem, get_elem?,
}
use vortex_kv_cache.Base.Int.{ℤ, pos, negsuc, pos_part, ltb_ℤ, leb_ℤ}
use vortex_kv_cache.Base.Dict.{Dict}
use vortex_kv_cache.Eviction.{EvictionPolicy}
use vortex_kv_cache.Entry.{Entry, is_expired, remaining_ttl}
use vortex_kv_cache.Shard
use vortex_kv_cache.Shard.{Shard, new_shard}

-- what a panic cuts short
pub data Outcome (A : Type 0) : Type 0 where
  panic : Outcome A
  returns : A → Outcome A

infixl 5 ◌>>=◌
abbrev pub ◌>>=◌ : {A B : Type 0} → Outcome A → (A → Outcome B) → Outcome B
panic >>= f = panic
returns a >>= f = f a

pub record SnapshotEntry : Type 0 where
  pub key : Bytes
  pub value : Bytes
  pub ttl : ℤ

-- the arguments of a `WriteListener`; `none` is a nil value
pub record WriteEvent : Type 0 where
  pub cmd_name : Bytes
  pub key : Bytes
  pub val : Option Bytes
  pub ttl : ℤ

-- `eviction_factory` says whether there is a factory, of the policy that the store is made for
pub record Config : Type 0 where
  pub shard_count : ℤ
  pub max_keys_per_shard : ℤ
  pub eviction_factory : Bool
  pub active_sweep_interval : ℤ
  pub active_sweep_sample_size : ℤ
  pub active_sweep_max_cpu : ℤ

abbrev pub millisecond : ℤ
millisecond = pos 1_000_000

unfoldable pub default_config : Config
default_config = record {
  shard_count = pos 16;
  max_keys_per_shard = pos 0;
  eviction_factory = false;
  active_sweep_interval = pos 100_000_000;
  active_sweep_sample_size = pos 20;
  active_sweep_max_cpu = millisecond;
}

unfoldable pub with_lru_eviction : ℤ → ℤ → Config
unfolding default_config
with_lru_eviction shard_count max_keys = record default_config {
  shard_count = shard_count;
  max_keys_per_shard = max_keys;
  eviction_factory = true;
}

pub record Store (P : EvictionPolicy) (W : Type 0) : Type 0 where
  pub cfg : Config
  pub shards : List (Shard P)
  pub shard_mask : ℕ
  pub closed : Bool
  pub on_write_hooks : List (WriteEvent → W → W)

-- a setting that is not positive gets its default
unfoldable pub or_default : ℤ → ℤ → ℤ
or_default x d = if leb_ℤ x (pos 0) then d else x

-- `cfg.ShardCount <= 0 || cfg.ShardCount & (cfg.ShardCount - 1) != 0`
unfoldable pub bad_shard_count : ℤ → Bool
bad_shard_count (pos n) = (n == 0) || not (bit_and n (n - 1) == 0)
bad_shard_count (negsuc n) = true

-- the loop of `notifyWrite`
unfoldable pub notify_hooks : {W : Type 0} → List (WriteEvent → W → W) → WriteEvent → W → W
notify_hooks [] e w = w
notify_hooks (hook ∷ hooks) e w = notify_hooks hooks e (hook e w)

-- the loop of `Snapshot` over one shard, in the order of the association list
unfoldable pub snapshot_items : ℤ → Dict Entry → List SnapshotEntry
unfolding is_expired remaining_ttl
snapshot_items now [] = []
snapshot_items now ((k, e) ∷ m) =
    let rest = snapshot_items now m in
    if is_expired e now
    then rest
    else record { key = k; value = e.value; ttl = remaining_ttl e now } ∷ rest

module _ (P : EvictionPolicy) (W : Type 0) where
  -- the store that is made, with the defaults of its configuration; the background sweeper starts
  -- with it
  unfoldable pub open_store : Config → Store P W
  unfolding or_default new_shard
  open_store cfg = record {
    cfg = record cfg {
      active_sweep_interval = or_default cfg.active_sweep_interval (pos 100_000_000);
      active_sweep_sample_size = or_default cfg.active_sweep_sample_size (pos 20);
      active_sweep_max_cpu = or_default cfg.active_sweep_max_cpu millisecond;
    };
    shards =
        replicate (pos_part cfg.shard_count)
          (new_shard P cfg.max_keys_per_shard cfg.eviction_factory);
    shard_mask = pos_part cfg.shard_count - 1;
    closed = false;
    on_write_hooks = [];
  }

  -- `none` is `ErrInvalidShardCount`; `make` panics above `shard_limit` pointers.
  unfoldable pub new_store : ℕ → Config → Outcome (Option (Store P W))
  unfolding bad_shard_count open_store
  new_store shard_limit cfg =
      if bad_shard_count cfg.shard_count
      then returns none
      else if ltb shard_limit (pos_part cfg.shard_count)
      then panic
      else returns (some (open_store cfg))

  unfoldable pub on_write : (WriteEvent → W → W) → Store P W → Store P W
  on_write listener s = record s { on_write_hooks = s.on_write_hooks ++ listener ∷ [] }

  unfoldable pub notify_write : Store P W → WriteEvent → W → W
  unfolding notify_hooks
  notify_write s = notify_hooks s.on_write_hooks

  unfoldable pub close : Store P W → Store P W
  close s = record s { closed = true }

  -- the loops over all shards
  unfoldable pub len_shards : ℤ → List (Shard P) → ℕ
  unfolding Shard.len
  len_shards now [] = 0
  len_shards now (shd ∷ shds) = Shard.len P now shd + len_shards now shds

  unfoldable pub len : ℤ → Store P W → ℕ
  unfolding len_shards
  len now s = if s.closed then 0 else len_shards now s.shards

  unfoldable pub snapshot_shards : ℤ → List (Shard P) → List SnapshotEntry
  unfolding snapshot_items
  snapshot_shards now [] = []
  snapshot_shards now (shd ∷ shds) = snapshot_items now shd.items ++ snapshot_shards now shds

  unfoldable pub snapshot : ℤ → Store P W → List SnapshotEntry
  unfolding snapshot_shards
  snapshot now s = if s.closed then [] else snapshot_shards now s.shards

  module _ (hash : Bytes → ℕ) where
    -- `hash & s.shardMask`
    abbrev pub shard_index : Store P W → Bytes → ℕ
    shard_index s key = bit_and (hash key) s.shard_mask

    -- a call of a method of `s.getShard(key)`
    unfoldable pub at_shard :
        {A : Type 0} → Bytes → (Shard P → Shard P × A) → Store P W → Outcome (Store P W × A)
    at_shard key method s = elim (get_elem? s.shards (shard_index s key)) [
      | none ↦ panic
      | some shd ↦
          let (shd', a) = method shd in
          returns (record s { shards = set_elem s.shards (shard_index s key) shd' }, a)
    ]

    -- the result says whether the store was open; `false` is `ErrStoreClosed`
    unfoldable pub set : Bytes → Bytes → ℤ → ℤ → Store P W → W → Outcome (Store P W × W × Bool)
    unfolding at_shard Shard.set notify_write
    set key val ttl now s w = if s.closed then returns (s, w, false) else do
      (s', _) ← at_shard {A = Unit {0}} key (λ shd. (Shard.set P key val ttl now shd, tt)) s
      returns (
        s',
        notify_write s' (record { cmd_name = bytes "SET"; key = key; val = some val; ttl = ttl }) w,
        true,
      )

    unfoldable pub get : Bytes → ℤ → Store P W → Outcome (Store P W × Option Bytes)
    unfolding at_shard Shard.get
    get key now s = if s.closed then returns (s, none) else at_shard key (Shard.get P key now) s

    unfoldable pub delete : Bytes → Store P W → W → Outcome (Store P W × W × Bool)
    unfolding at_shard Shard.remove notify_write
    delete key s w = if s.closed then returns (s, w, false) else do
      (s', deleted) ← at_shard key (Shard.remove P key) s
      returns (
        s',
        (if deleted
            then notify_write s'
                (record { cmd_name = bytes "DEL"; key = key; val = none; ttl = pos 0 }) w
            else w),
        deleted,
      )

    unfoldable pub exists : Bytes → ℤ → Store P W → Outcome (Store P W × Bool)
    unfolding at_shard Shard.exists
    exists key now s =
        if s.closed then returns (s, false) else at_shard key (Shard.exists P key now) s

    -- the lifetime and whether the key was found
    unfoldable pub ttl : Bytes → ℤ → Store P W → Outcome (Store P W × ℤ × Bool)
    unfolding at_shard Shard.ttl
    ttl key now s = if s.closed then returns (s, negsuc 1, false) else do
      (s', r) ←
          at_shard {A = ℤ × Bool} key
            (λ shd. let (shd', d, b) = Shard.ttl P key now shd in (shd', (d, b))) s
      returns (s', r.0, r.1)

    unfoldable pub expire : Bytes → ℤ → ℤ → Store P W → W → Outcome (Store P W × W × Bool)
    unfolding at_shard Shard.expire notify_write
    expire key ttl now s w = if s.closed then returns (s, w, false) else do
      (s', updated) ← at_shard key (Shard.expire P key ttl now) s
      returns (
        s',
        (if updated
            then notify_write s'
                (record { cmd_name = bytes "EXPIRE"; key = key; val = none; ttl = ttl }) w
            else w),
        updated,
      )
