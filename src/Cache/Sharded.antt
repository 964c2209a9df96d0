-- ===== src/Cache/Sharded.antt =====
-- db/tableCache.h: ShardedLRUCache, sixteen caches of which the hash of a key chooses one.
pub mod Bounds
mod Tests
use tiny_leveldb.Prelude.{
  ℕ, zero, suc, ◌+◌, ◌-◌, ◌/◌, ◌^◌, List, [], ◌∷◌, Option, none, some, ◌>>=◌, Bool, true, false,
  u64, ◌>>>◌, get_elem?, store, whole_slice,
}
use tiny_leveldb.Hash.{hash}
use tiny_leveldb.Cache.Lru.{
  LruCache, new_cache, set_capacity, lookup, insert, erase, release, prune, total_charge,
}

-- `kNumShardBits` and `kNumShards`
abbrev pub num_shard_bits : ℕ
num_shard_bits = 4

abbrev pub num_shards : ℕ
num_shards = 16

pub record ShardedLruCache : Type 0 where
  pub shards : List (LruCache)
  pub last_id : ℕ

-- `HashSlice(s)`
unfoldable pub hash_slice : List ℕ → Option ℕ
unfolding whole_slice
hash_slice s = do bytes ← whole_slice s; hash bytes 0

-- `Shard(hash)`
abbrev pub shard : ℕ → ℕ
shard hash = hash >>> (32 - num_shard_bits)

-- The capacity of a shard.
abbrev pub per_shard : ℕ → ℕ
per_shard capacity = u64 (capacity + (num_shards - 1)) / num_shards

-- `n` new caches
abbrev pub fill : ℕ → LruCache → List (LruCache)
fill zero c = []
fill (suc n) c = c ∷ fill n c

-- `ShardedLRUCache(capacity)`, with the rounds for the tables' loops.
unfoldable pub new_sharded : ℕ → ℕ → Option ShardedLruCache
unfolding new_cache set_capacity
new_sharded rounds capacity = do
  c ← new_cache rounds
  some (record { shards = fill num_shards (set_capacity (per_shard capacity) c); last_id = 0 })

-- `Release(handle)`; `hash` is `handle->hash`.
unfoldable pub sharded_release : ℕ → ℕ → ShardedLruCache → Option (ShardedLruCache)
unfolding release
sharded_release handle hash s = do
  c ← get_elem? s.shards (shard hash)
  c ← release handle c
  shards ← store s.shards (shard hash) c
  some (record s { shards = shards })

-- `NewId()`
unfoldable pub new_id : ShardedLruCache → ℕ × ShardedLruCache
new_id s = (u64 (s.last_id + 1), record s { last_id = u64 (s.last_id + 1) })

-- `TotalCharge()`
unfoldable pub charge_loop : List (LruCache) → ℕ → ℕ
charge_loop [] total = total
charge_loop (c ∷ shards) total = charge_loop shards (u64 (total + total_charge c))

unfoldable pub sharded_total_charge : ShardedLruCache → ℕ
unfolding charge_loop
sharded_total_charge s = charge_loop s.shards 0

-- `Insert(key, value, charge, deleter)`; `e` is what malloc returned.
unfoldable pub sharded_insert :
    ℕ → ℕ → List ℕ → ℕ → ℕ → ShardedLruCache → Option (ℕ × ShardedLruCache)
unfolding insert hash_slice
sharded_insert rounds e key value charge s = do
  hash ← hash_slice key
  c ← get_elem? s.shards (shard hash)
  (handle, c) ← insert rounds e key hash value charge c
  shards ← store s.shards (shard hash) c
  some (handle, record s { shards = shards })

-- `Lookup(key)`
unfoldable pub sharded_lookup : ℕ → List ℕ → ShardedLruCache → Option (ℕ × ShardedLruCache)
unfolding lookup hash_slice
sharded_lookup rounds key s = do
  hash ← hash_slice key
  c ← get_elem? s.shards (shard hash)
  (handle, c) ← lookup rounds key hash c
  shards ← store s.shards (shard hash) c
  some (handle, record s { shards = shards })

-- `Erase(key)`
unfoldable pub sharded_erase : ℕ → List ℕ → ShardedLruCache → Option (ShardedLruCache)
unfolding erase hash_slice
sharded_erase rounds key s = do
  hash ← hash_slice key
  c ← get_elem? s.shards (shard hash)
  c ← erase rounds key hash c
  shards ← store s.shards (shard hash) c
  some (record s { shards = shards })

-- The loop of `Prune()` over the shards.
unfoldable pub prune_shards : ℕ → List (LruCache) → Option (List (LruCache))
unfolding prune
prune_shards rounds [] = some []
prune_shards rounds (c ∷ shards) = do
  c ← prune rounds c
  shards ← prune_shards rounds shards
  some (c ∷ shards)

-- `Prune()`
unfoldable pub sharded_prune : ℕ → ShardedLruCache → Option (ShardedLruCache)
unfolding prune_shards
sharded_prune rounds s = do
  shards ← prune_shards rounds s.shards
  some (record s { shards = shards })
