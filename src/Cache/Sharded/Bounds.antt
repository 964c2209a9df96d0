-- ===== src/Cache/Sharded/Bounds.antt =====
-- db/tableCache.h: the capacity of the shards.
