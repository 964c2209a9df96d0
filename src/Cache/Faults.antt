-- ===== src/Cache/Faults.antt =====
-- db/tableCache.h: the methods of LRUCache that use the table of a new cache.
use tiny_leveldb.Prelude.{ℕ, ◌+◌, ◌≡◌, ap, some, ◌>>=◌, true, u32, update}
use tiny_leveldb.Cache.HandleTable.Faults.{fresh_table, new_table_lem}
use tiny_leveldb.Cache.Lru.{LruCache, handles, empty_lists, with_table, new_cache}

-- The cache as its constructor leaves it.
abbrev pub fresh_cache : LruCache
fresh_cache = with_table fresh_table (handles empty_lists) empty_lists

pub new_cache_lem : (rounds : ℕ) → new_cache rounds ≡ some fresh_cache
unfolding new_cache
new_cache_lem rounds =
    ap (λ r. r >>= λ (t, m). some (with_table t m empty_lists))
      (new_table_lem rounds (handles empty_lists))

-- The handle as it joins the list.
abbrev pub marked : ℕ → LruCache → LruCache
marked e c = record c {
  refs = update c.refs e (u32 (c.refs e + 1));
  in_cache = update c.in_cache e true;
}
