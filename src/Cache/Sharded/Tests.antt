-- ===== src/Cache/Sharded/Tests.antt =====
-- The shards of a capacity of 100.
