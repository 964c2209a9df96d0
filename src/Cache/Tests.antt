-- ===== src/Cache/Tests.antt =====
-- Calls on a new cache.
use tiny_leveldb.Prelude.{List, [], ◌∷◌}
use tiny_leveldb.Cache.Uncached.{Call, inserts, releases, prunes}

-- Two handles; the memory of the first is used again.
abbrev some_calls : List Call
some_calls =
    inserts 5 (66 ∷ []) 9 42 1
    ∷ inserts 6 (66 ∷ []) 9 43 1
    ∷ releases 5
    ∷ prunes
    ∷ inserts 5 (67 ∷ []) 7 44 1
    ∷ releases 6
    ∷ []
