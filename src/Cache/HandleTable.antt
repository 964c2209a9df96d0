-- ===== src/Cache/HandleTable.antt =====
-- db/tableCache.h: HandleTable, with the fields of LRUHandle that it reads and writes; and the equality
-- of slices (db/env.h). `none` is an access through a pointer that is not live, outside the array of
-- buckets, or a failed assertion.
pub mod Faults
mod Tests
use tiny_leveldb.Prelude.{
  ℕ, zero, suc, ◌+◌, ◌-◌, ◌*◌, ◌^◌, List, [], ◌∷◌, Option, none, some, ◌>>=◌, ◌>>◌, Bool, true,
  false, ◌&&◌, ◌||◌, not, ◌==◌, ltb, if◌then◌else◌, u32, update, bit_and, get_elem?, slice_size,
  slice_at,
}
use tiny_leveldb.Cache.{guard}

-- `memcmp` over two arrays of one size is 0.
abbrev same_bytes : List ℕ → List ℕ → Bool
same_bytes [] ys = true
same_bytes (x ∷ xs) [] = false
same_bytes (x ∷ xs) (y ∷ ys) = (x == y) && same_bytes xs ys

-- `slice::operator==`
unfoldable pub slice_eq : List ℕ → List ℕ → Option Bool
slice_eq xs ys =
    if slice_size xs == slice_size ys
    then (do
      a ← slice_at xs 0 (slice_size xs)
      b ← slice_at ys 0 (slice_size xs)
      some (same_bytes a b))
    else some false

-- The handles in memory.
pub record Handles : Type 0 where
  pub live : ℕ → Bool
  pub next_hash : ℕ → ℕ
  pub next : ℕ → ℕ
  pub hash : ℕ → ℕ
  pub key : ℕ → List ℕ

-- `HandleTable`; `list` are the pointers of the buckets.
pub record HandleTable : Type 0 where
  pub len : ℕ
  pub elems : ℕ
  pub list : List ℕ

-- `n->hash == hash && key == n->key()`; `key()` asserts that `next` is not `n`.
unfoldable pub matches : List ℕ → ℕ → Handles → ℕ → Option Bool
unfolding slice_eq
matches key hash m n =
    if m.hash n == hash
    then (do guard (not (m.next n == n)); slice_eq key (m.key n))
    else some false

-- The loop of `FindPointer`, with the rounds that are left.
unfoldable pub find_loop : ℕ → List ℕ → ℕ → Handles → ℕ → Option ℕ
unfolding matches
find_loop zero key hash m start = none
find_loop (suc rounds) key hash m start = do
  guard (m.live start)
  let n = m.next_hash start
  if n == 0 then some start else do
    guard (m.live n)
    found ← matches key hash m n
    if found then some start else find_loop rounds key hash m n

-- `list_[hash & (length_ - 1)]`
abbrev pub bucket : ℕ → HandleTable → Option ℕ
bucket hash t = get_elem? t.list (bit_and hash (u32 (t.len + 2 ^ 32 - 1)))

-- `FindPointer(key, hash)`
unfoldable pub find_pointer : ℕ → List ℕ → ℕ → HandleTable → Handles → Option ℕ
unfolding find_loop
find_pointer rounds key hash t m = do start ← bucket hash t; find_loop rounds key hash m start

-- `Lookup(key, hash)`
unfoldable pub table_lookup : ℕ → List ℕ → ℕ → HandleTable → Handles → Option ℕ
unfolding find_pointer
table_lookup rounds key hash t m = do
  p ← find_pointer rounds key hash t m
  guard (m.live p)
  some (m.next_hash p)

-- `Remove(key, hash)`
unfoldable pub table_remove :
    ℕ → List ℕ → ℕ → HandleTable → Handles → Option (ℕ × HandleTable × Handles)
unfolding find_pointer
table_remove rounds key hash t m = do
  pre ← find_pointer rounds key hash t m
  guard (m.live pre)
  let result = m.next_hash pre
  if result == 0 then some (result, t, m) else do
    guard (m.live result)
    some (
      result,
      record t { elems = u32 (t.elems + 2 ^ 32 - 1) },
      record m { next_hash = update m.next_hash pre (m.next_hash result) },
    )

-- `while (new_length < elems_) new_length *= 2;`, with the rounds that are left.
unfoldable pub grow : ℕ → ℕ → ℕ → Option ℕ
grow zero elems new_length = if ltb new_length elems then none else some new_length
grow (suc rounds) elems new_length =
    let rest = grow rounds elems (u32 (new_length * 2)) in
    if ltb new_length elems then rest else some new_length

-- `new_list` after `memset`
abbrev pub nulls : ℕ → List ℕ
nulls zero = []
nulls (suc n) = 0 ∷ nulls n

-- The inner loop of `Resize`, which moves the chain behind `h`, with the rounds that are left and
-- `count`.
unfoldable pub move_chain : ℕ → ℕ → List ℕ → ℕ → Handles → ℕ → Option (ℕ × Handles)
move_chain zero new_length new_list h m count = none
move_chain (suc rounds) new_length new_list h m count = do
  guard (m.live h)
  let node = m.next_hash h
  if node == 0 then some (count, m) else do
    guard (m.live node)
    let m = record m { next_hash = update m.next_hash h (m.next_hash node) }
    ptr ← get_elem? new_list (bit_and (m.hash node) (u32 (new_length + 2 ^ 32 - 1)))
    guard (m.live ptr)
    let m = record m { next_hash = update m.next_hash node (m.next ptr) }
    let m = record m { next_hash = update m.next_hash ptr node }
    move_chain rounds new_length new_list h m (u32 (count + 1))

-- The outer loop of `Resize`, over the buckets.
unfoldable pub move_chains : ℕ → ℕ → List ℕ → List ℕ → Handles → ℕ → Option (ℕ × Handles)
unfolding move_chain
move_chains rounds new_length new_list [] m count = some (count, m)
move_chains rounds new_length new_list (h ∷ list) m count = do
  (count, m) ← move_chain rounds new_length new_list h m count
  move_chains rounds new_length new_list list m count

-- `Resize()`
unfoldable pub resize : ℕ → HandleTable → Handles → Option (HandleTable × Handles)
unfolding grow move_chains
resize rounds t m = do
  new_length ← grow 32 t.elems 4
  (count, m) ← move_chains rounds new_length (nulls new_length) t.list m 0
  guard (t.elems == count)
  some (record t { len = new_length; list = nulls new_length }, m)

-- `HandleTable()`
unfoldable pub new_table : ℕ → Handles → Option (HandleTable × Handles)
unfolding resize
new_table rounds m = resize rounds (record { len = 0; elems = 0; list = [] }) m

-- `Insert(h)`
unfoldable pub table_insert : ℕ → ℕ → HandleTable → Handles → Option (ℕ × HandleTable × Handles)
unfolding find_pointer resize
table_insert rounds h t m = do
  guard (m.live h)
  guard (not (m.next h == h))
  pre ← find_pointer rounds (m.key h) (m.hash h) t m
  guard (m.live pre)
  let old = m.next_hash pre
  guard ((old == 0) || m.live old)
  let m = record m { next_hash = update m.next_hash h (if old == 0 then 0 else m.next_hash old) }
  let m = record m { next_hash = update m.next_hash pre h }
  let t' = record t { elems = u32 (t.elems + 1) }
  if old == 0
      then (if ltb t'.len t'.elems
          then (do (t, m) ← resize rounds t' m; some (old, t, m))
          else some (old, t', m))
      else some (old, t, m)
