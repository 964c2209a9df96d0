-- ===== src/Cache/Lru.antt =====
-- db/tableCache.h: LRUCache over its hash table. Memory is one map for each field of LRUHandle, from
-- addresses to values; `live` says which addresses hold a handle. `none` is an access through a pointer
-- that is not live, a read outside a slice, or a failed assertion.
use tiny_leveldb.Prelude.{
  ℕ, zero, suc, ◌+◌, ◌-◌, ◌^◌, List, [], ◌∷◌, Option, none, some, ◌>>=◌, ◌>>◌, Bool, true, false,
  ◌&&◌, ◌||◌, not, ◌==◌, ltb, if◌then◌else◌, u32, u64, update, whole_slice,
}
use tiny_leveldb.Cache.{guard}
use tiny_leveldb.Cache.HandleTable.{
  Handles, HandleTable, new_table, table_lookup, table_insert, table_remove,
}

-- The addresses of `lru_` and `in_use_`.
abbrev pub lru : ℕ
lru = 1

abbrev pub in_use : ℕ
in_use = 2

-- `LRUCache` with the memory of its handles. `deleted` lists the handles that were given to their
-- deleter and freed, the last first.
pub record LruCache : Type 0 where
  pub live : ℕ → Bool
  pub next_hash : ℕ → ℕ
  pub next : ℕ → ℕ
  pub prev : ℕ → ℕ
  pub refs : ℕ → ℕ
  pub in_cache : ℕ → Bool
  pub charge : ℕ → ℕ
  pub hash : ℕ → ℕ
  pub key : ℕ → List ℕ
  pub value : ℕ → ℕ
  pub capacity : ℕ
  pub usage : ℕ
  pub table : HandleTable
  pub deleted : List ℕ

-- The fields of the handles that the table reads and writes.
abbrev pub handles : LruCache → Handles
handles c = record {
  live = c.live;
  next_hash = c.next_hash;
  next = c.next;
  hash = c.hash;
  key = c.key;
}

-- The cache with the table as an operation of it leaves it; of the handles it writes `next_hash` only.
abbrev pub with_table : HandleTable → Handles → LruCache → LruCache
with_table table m c = record c { table = table; next_hash = m.next_hash }

-- `LRUCache()`, `lru_` and `in_use_` initialised, and the table still to be constructed.
abbrev pub empty_lists : LruCache
empty_lists = record {
  live = λ a. (a == lru) || (a == in_use);
  next_hash = λ a. 0;
  next = λ a. if a == lru then lru else if a == in_use then in_use else 0;
  prev = λ a. if a == lru then lru else if a == in_use then in_use else 0;
  refs = λ a. 0;
  in_cache = λ a. false;
  charge = λ a. 0;
  hash = λ a. 0;
  key = λ a. [];
  value = λ a. 0;
  capacity = 0;
  usage = 0;
  table = record { len = 0; elems = 0; list = [] };
  deleted = [];
}

-- `LRUCache()`, with the rounds for the table's loops.
unfoldable pub new_cache : ℕ → Option LruCache
unfolding new_table
new_cache rounds = do
  (table, m) ← new_table rounds (handles empty_lists)
  some (with_table table m empty_lists)

-- `SetCapacity(capacity)`
unfoldable pub set_capacity : ℕ → LruCache → LruCache
set_capacity capacity c = record c { capacity = capacity }

-- `LRU_Remove(e)`
unfoldable pub lru_remove : ℕ → LruCache → Option (LruCache)
lru_remove e c = do
  guard (c.live e)
  guard (c.live (c.next e))
  let c = record c { prev = update c.prev (c.next e) (c.prev e) }
  guard (c.live (c.prev e))
  some (record c { next = update c.next (c.prev e) (c.next e) })

-- `LRU_Append(list, e)`
unfoldable pub lru_append : ℕ → ℕ → LruCache → Option (LruCache)
lru_append list e c = do
  guard (c.live e)
  let c = record c { next = update c.next e list }
  guard (c.live list)
  let c = record c { prev = update c.prev e (c.prev list) }
  guard (c.live (c.prev e))
  let c = record c { next = update c.next (c.prev e) e }
  guard (c.live (c.next e))
  some (record c { prev = update c.prev (c.next e) e })

-- From the list that holds `e` to another one.
unfoldable pub lru_move : ℕ → ℕ → LruCache → Option (LruCache)
unfolding lru_remove lru_append
lru_move list e c = do c ← lru_remove e c; lru_append list e c

-- `Ref(e)`
unfoldable pub ref : ℕ → LruCache → Option (LruCache)
unfolding lru_move
ref e c = do
  guard (c.live e)
  c ← if (c.refs e == 1) && c.in_cache e then lru_move in_use e c else some c
  some (record c { refs = update c.refs e (u32 (c.refs e + 1)) })

-- The deleter's call and `free(e)`; `e->key()` asserts that `next` is not `e`.
unfoldable pub free_handle : ℕ → LruCache → Option (LruCache)
free_handle e c = do
  guard (not (c.in_cache e))
  guard (not (c.next e == e))
  some (record c { live = update c.live e false; deleted = e ∷ c.deleted })

-- `Unref(e)` behind `e->refs--`
unfoldable pub unref_rest : ℕ → LruCache → Option (LruCache)
unfolding free_handle lru_move
unref_rest e c =
    if c.refs e == 0
    then free_handle e c
    else if c.in_cache e && (c.refs e == 1)
    then lru_move lru e c
    else some c

-- `Unref(e)`
unfoldable pub unref : ℕ → LruCache → Option (LruCache)
unfolding unref_rest
unref e c = do
  guard (c.live e)
  guard (ltb 0 (c.refs e))
  unref_rest e (record c { refs = update c.refs e (c.refs e - 1) })

-- `FinishErase(e)` for a handle
unfoldable pub finish_erase_handle : ℕ → LruCache → Option (LruCache)
unfolding lru_remove unref
finish_erase_handle e c = do
  guard (c.live e)
  guard (c.in_cache e)
  c ← lru_remove e c
  unref e (record c {
    in_cache = update c.in_cache e false;
    usage = u64 (c.usage + 2 ^ 64 - c.charge e);
  })

-- `FinishErase(e)`
unfoldable pub finish_erase : ℕ → LruCache → Option (Bool × LruCache)
unfolding finish_erase_handle
finish_erase e c =
    if e == 0 then some (false, c) else do c ← finish_erase_handle e c; some (true, c)

-- The handle that `Insert` fills in; `e` is what malloc returned.
unfoldable pub new_handle : ℕ → List ℕ → ℕ → ℕ → ℕ → LruCache → LruCache
new_handle e key hash value charge c = record c {
  live = update c.live e true;
  value = update c.value e value;
  charge = update c.charge e charge;
  hash = update c.hash e hash;
  in_cache = update c.in_cache e false;
  refs = update c.refs e 1;
  key = update c.key e key;
}

-- One round of the loop of `~LRUCache()`
unfoldable pub destroy_handle : ℕ → LruCache → Option (LruCache)
unfolding unref
destroy_handle e c = do
  guard (c.live e)
  guard (c.in_cache e)
  let c = record c { in_cache = update c.in_cache e false }
  guard (c.refs e == 1)
  unref e c

-- `for (LRUHandle* e = ...; e != &lru_;)`, with the rounds that are left.
unfoldable pub destroy_loop : ℕ → ℕ → LruCache → Option (LruCache)
unfolding destroy_handle
destroy_loop zero e c = if e == lru then some c else none
destroy_loop (suc rounds) e c =
    if e == lru then some c else do d ← destroy_handle e c; destroy_loop rounds (c.next e) d

-- `~LRUCache()`
unfoldable pub destroy : ℕ → LruCache → Option (LruCache)
unfolding destroy_loop
destroy rounds c = do guard (c.next in_use == in_use); destroy_loop rounds (c.next lru) c

-- `Release(handle)`
unfoldable pub release : ℕ → LruCache → Option (LruCache)
unfolding unref
release handle c = unref handle c

-- `TotalCharge()`
abbrev pub total_charge : LruCache → ℕ
total_charge c = c.usage

-- `Lookup(key, hash)`, with the rounds for the table's loop.
unfoldable pub lookup : ℕ → List ℕ → ℕ → LruCache → Option (ℕ × LruCache)
unfolding ref table_lookup
lookup rounds key hash c = do
  e ← table_lookup rounds key hash c.table (handles c)
  c ← if e == 0 then some c else ref e c
  some (e, c)

-- `FinishErase(table_.Remove(key, hash))`
unfoldable pub remove_and_finish : ℕ → List ℕ → ℕ → LruCache → Option (Bool × LruCache)
unfolding finish_erase table_remove
remove_and_finish rounds key hash c = do
  (e, table, m) ← table_remove rounds key hash c.table (handles c)
  finish_erase e (with_table table m c)

-- `Erase(key, hash)`
unfoldable pub erase : ℕ → List ℕ → ℕ → LruCache → Option (LruCache)
unfolding remove_and_finish
erase rounds key hash c = do (erased, c) ← remove_and_finish rounds key hash c; some c

-- The body of the loops of `Insert` and `Prune`: the oldest handle that nobody uses goes.
unfoldable pub drop_oldest : ℕ → LruCache → Option (LruCache)
unfolding remove_and_finish
drop_oldest rounds c = do
  let old = c.next lru
  guard (c.live old)
  guard (c.refs old == 1)
  guard (not (c.next old == old))
  (erased, c) ← remove_and_finish rounds (c.key old) (c.hash old) c
  guard erased
  some c

-- `while (usage_ > capacity_ && lru_.next != &lru_)`, with the rounds that are left.
unfoldable pub evict_loop : ℕ → LruCache → Option (LruCache)
unfolding drop_oldest
evict_loop zero c = if ltb c.capacity c.usage && not (c.next lru == lru) then none else some c
evict_loop (suc rounds) c =
    if ltb c.capacity c.usage && not (c.next lru == lru)
    then (do c ← drop_oldest rounds c; evict_loop rounds c)
    else some c

-- `Prune()`, with the rounds that are left.
unfoldable pub prune : ℕ → LruCache → Option (LruCache)
unfolding drop_oldest
prune zero c = if c.next lru == lru then some c else none
prune (suc rounds) c =
    if c.next lru == lru then some c else do c ← drop_oldest rounds c; prune rounds c

-- `Insert` where `capacity_ > 0`: the handle joins the list and the table.
unfoldable pub enter : ℕ → ℕ → LruCache → Option (LruCache)
unfolding lru_append finish_erase table_insert
enter rounds e c = do
  let c = record c {
    refs = update c.refs e (u32 (c.refs e + 1));
    in_cache = update c.in_cache e true;
  }
  c ← lru_append in_use e c
  let c = record c { usage = u64 (c.usage + c.charge e) }
  (old, table, m) ← table_insert rounds e c.table (handles c)
  (erased, c) ← finish_erase old (with_table table m c)
  some c

-- `Insert(key, hash, value, charge, deleter)`; `e` is what malloc returned.
unfoldable pub insert : ℕ → ℕ → List ℕ → ℕ → ℕ → ℕ → LruCache → Option (ℕ × LruCache)
unfolding whole_slice new_handle enter evict_loop
insert rounds e key hash value charge c = do
  key ← whole_slice key
  let c = new_handle e key hash value charge c
  c ← if ltb 0 c.capacity then enter rounds e c else some (record c { next = update c.next e 0 })
  c ← evict_loop rounds c
  some (e, c)
