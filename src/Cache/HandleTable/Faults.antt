-- ===== src/Cache/HandleTable/Faults.antt =====
-- db/tableCache.h: a new HandleTable, whose buckets are null.
use tiny_leveldb.Prelude.{
  ℕ, zero, suc, ◌%◌, ◌<◌, ◌≡◌, ◌≢◌, refl, arith, List, Option, none, some, ◌>>=◌, Bool, true, false,
  not, ◌==◌, get_elem?,
}
use tiny_leveldb.Prelude.Bits.{bit_and-mask}
use tiny_leveldb.Cache.{guard}
use tiny_leveldb.Cache.HandleTable.{
  Handles, HandleTable, bucket, find_loop, find_pointer, table_lookup, table_remove, table_insert,
  new_table, resize, grow, move_chains, nulls,
}

-- The table as the constructor leaves it.
abbrev pub fresh_table : HandleTable
fresh_table = record { len = 4; elems = 0; list = nulls 4 }

pub new_table_lem : (rounds : ℕ) (m : Handles) → new_table rounds m ≡ some (fresh_table, m)
unfolding new_table resize grow move_chains
new_table_lem rounds m = refl

small_bucket : (b : ℕ) → b < 4 → ◌≡◌ {A = Option ℕ} (get_elem? (nulls 4) b) (some 0)
small_bucket zero h = refl
small_bucket (suc zero) h = refl
small_bucket (suc (suc zero)) h = refl
small_bucket (suc (suc (suc zero))) h = refl
small_bucket (suc (suc (suc (suc b)))) h = absurd (omega arith)

pub fresh_bucket : (hash : ℕ) → bucket hash fresh_table ≡ some 0
fresh_bucket hash = rw (bit_and-mask 2 hash) (small_bucket (hash % 4) (omega arith))

pub find_pointer-null :
    (rounds : ℕ) (key : List ℕ) (hash : ℕ) (m : Handles)
    → m.live 0 ≡ false
    → find_pointer rounds key hash fresh_table m ≡ none
unfolding find_pointer find_loop
find_pointer-null zero key hash m null = rw (fresh_bucket hash) refl
find_pointer-null (suc rounds) key hash m null = rw (fresh_bucket hash, null) refl

pub table_insert-null :
    (rounds h : ℕ) (m : Handles) → m.live 0 ≡ false → table_insert rounds h fresh_table m ≡ none
unfolding table_insert
table_insert-null rounds h m null =
    rw (find_pointer-null rounds (m.key h) (m.hash h) m null)
      (guards (m.live h) (not (m.next h == h)))
  where
    guards :
        {A : Type 0} (a b : Bool)
        → ◌≡◌ {A = Option A} (guard a >>= (λ x. guard b >>= (λ y. none))) none
    guards true true = refl
    guards true false = refl
    guards false b = refl

-- On a table as its constructor leaves it the bucket of every hash is a null pointer, so that Lookup,
-- Remove, and Insert of a handle that is live and not its own `next`, all fail; 0 is not a live address.
pub new_table-faults :
    (rounds hash h : ℕ) (key : List ℕ) (m : Handles)
    → m.live 0 ≡ false
    → m.live h ≡ true
    → m.next h ≢ h
    → (t : HandleTable) × (new_table rounds m ≡ some (t, m))
      × (bucket hash t ≡ some 0)
      × (bucket (m.hash h) t ≡ some 0)
      × (table_lookup (suc rounds) key hash t m ≡ none)
      × (table_remove (suc rounds) key hash t m ≡ none)
      × (table_insert (suc rounds) h t m ≡ none)
unfolding table_lookup table_remove
new_table-faults rounds hash h key m null live apart =
    let fault = find_pointer-null (suc rounds) key hash m null in
    (
      fresh_table,
      new_table_lem rounds m,
      fresh_bucket hash,
      fresh_bucket (m.hash h),
      rw fault refl,
      rw fault refl,
      table_insert-null (suc rounds) h m null,
    )
