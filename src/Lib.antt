-- ===== src/Lib.antt =====
-- TinyLeveldb: a verification library beside the C++ sources in db/.
--
-- The program is a small LevelDB: byte codings (db/coding.h), a hash (Hash in db/tableCache.h), Bloom
-- filters (db/bloom.h) collected in filter blocks (db/filter_block.h, db/filter_block.cpp), data
-- blocks and tables (db/block.h, db/SSTable.h) with checksums (db/crc32c.h, db/crc32c.cpp), a memtable
-- (db/memtable.h) over a skip list (db/skipList.h) and an arena (db/arena.h), a cache
-- (db/tableCache.h) and file access (db/env.h). A table's filter block is written by
-- FilterBlockBuilder, which calls BloomFilterPolicy::CreateFilter, and is read by FilterBlockReader,
-- which calls KeyMayMatch; both hash with Hash, and all integers on disk go through coding.h.
--
-- Files:
-- - Prelude: tests, lists, machine words, memory accesses that can fault, laws of bit operations.
-- - Coding (db/coding.h): encode_fixed32 and its kin on an array with a position; Coding/RoundTrip
--   proves what they write and that it is read back.
-- - Hash (db/tableCache.h, Hash): hash, hash_loop, hash_tail.
-- - Bloom (db/bloom.h): create_filter (CreateFilter), key_may_match (KeyMayMatch) and their loops;
--   Bloom/Bits is about one bit, Bloom/Match about whole filters.
-- - FilterBlock (db/filter_block.h, db/filter_block.cpp): FilterBlockBuilder with generate_filter,
--   start_block, add_key, finish, and FilterBlockReader with block_key_may_match (KeyMayMatch).
--   Segments, Build, Groups and Run follow the builder, Read the reader; Correct joins them, and Safe
--   is the reader on arbitrary contents.
-- - MemTable (db/memtable.h, db/skipList.h): the entry that MemTable::Add builds and
--   SkipList::DecodeEntry and DecodeKey take apart.
-- - Arena (db/arena.h): allocate, allocate_aligned and the private functions below them.
-- - Crc (db/crc32c.h, db/crc32c.cpp): extend (Extend) with its macros step1, step4, step16, step4w,
--   value (Value), mask (Mask), unmask (Unmask); Crc/ByteTable and Crc/StrideTable0 to 3 are the tables.
--   Crc/Polynomial is the definition of the checksum, Tables, Steps, Runs, Swaths and Loops lead from
--   the code to it, Correct has the result.
-- - Block (db/block.h): BlockBuilder with add (Add), finish_block (Finish), reset, and
--   current_size_estimate; Block/Builder is about Add.
-- - Cache/Lru (db/tableCache.h, LRUCache): lru_remove, lru_append (LRU_Remove, LRU_Append), ref, unref,
--   finish_erase (FinishErase), lookup, release, insert, erase, prune, new_cache and destroy (the
--   constructor and the destructor), over HandleTable. Cache/Uncached is about a capacity of 0,
--   Cache/Faults about the calls that reach the table.
-- - Cache/HandleTable (db/tableCache.h, HandleTable): table_lookup, table_insert, table_remove, resize,
--   new_table (the constructor), find_pointer (FindPointer); Faults is about a new table.
-- - Cache/Sharded (db/tableCache.h, ShardedLRUCache): new_sharded, sharded_insert, sharded_lookup and
--   its kin, shard (Shard), hash_slice (HashSlice), which calls Hash; Bounds is about the capacities.
-- - Background (db/env.h, Schedule and BackgroundThreadMain): the shared state Env with the steps of the
--   callers and of the background threads; Order is about what runs in which order, Progress about what
--   can go on.
-- - Writable (db/env.h, db/status.h): WritableFile with append (Append), flush_buffer (FlushBUffer) and
--   write_to_file (WriteToFile); Loop is about the loop over write, Append about one call, Sequence
--   about many.
--
-- Conventions: bytes and machine integers are natural numbers with the casts written out; a pointer
-- into an array is the array and a position; a slice is the list of its bytes; none is undefined
-- behaviour (an access outside an array, a division by zero, a shift that is too wide) or a failed
-- assertion. char is signed, int has 32 bits and size_t and pointers 64, as on x86-64.
-- slice::size() is an int: slice_size is its value as a size_t, and whole_slice the bytes of a slice of
-- that size, none where they are more than the slice has (Prelude/Words, Prelude/Memory).
--
-- Bounds and fuel: the loops recur on the rounds that are left. The loop of StartBlock has the wanted
-- index as its fuel: each round adds one offset, so it reaches the index before the fuel ends
-- (FilterBlock/Run, start_block_loop-Built). The loops of Extend have the length as their fuel and
-- read a byte or more in each round, WriteToFile writes one or more in each, so their fuel is enough
-- (Crc/Loops, Writable/Loop). In the cache rounds are an argument, and the results hold
-- for every number of them (for one at least where FindPointer is called).
--
-- Parameters: what malloc returns to the cache, an address that is not in use; operator new in
-- the arena, with the law that it returns memory outside the live blocks;
-- the system call write, with the law that it appends a part of its bytes (one at least) and does
-- not fail; the floating-point product of BloomFilterPolicy's constructor; which items of the
-- background queue call Schedule, and the first value of the semaphore, 0 in the results. The constructor of std::thread is taken to succeed.
--
-- Not modelled: file access in db/env.h but for WritableFile's buffer, the destructor of env, the
-- iterator and the handle of db/block.h, tables (db/SSTable.h), the search structure of
-- db/skipList.h, whose guards name a variable that is not in scope there, the reference count
-- of the memtable, and main.cpp, which does not use the library.
pub mod Prelude
pub mod Cache
pub mod Background
pub mod Coding
pub mod Hash
pub mod Bloom
pub mod FilterBlock
pub mod MemTable
pub mod Arena
pub mod Crc
pub mod Block
pub mod Writable
