-- ===== src/Cache.antt =====
-- db/tableCache.h: the cache, its hash table (HandleTable), its lists (Lru) and its shards (Sharded). A
-- pointer is an address, 0 is nullptr.
pub mod HandleTable
pub mod Lru
pub mod Faults
pub mod Uncached
pub mod Sharded
mod Tests
use tiny_leveldb.Prelude.{Option, none, some, Bool, true, false}

-- An assertion, or the access of an address.
abbrev pub guard : Bool → Option (Unit {0})
guard true = some tt
guard false = none
