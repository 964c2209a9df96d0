-- ===== src/Cache/HandleTable/Tests.antt =====
-- A table that was constructed, and one live handle.
use tiny_leveldb.Prelude.{◌≡◌, ◌≢◌, refl, arith, [], ◌∷◌, none, some, ◌==◌}
use tiny_leveldb.Cache.HandleTable.{
  Handles, HandleTable, bucket, table_lookup, table_remove, table_insert, new_table,
}
use tiny_leveldb.Cache.HandleTable.Faults.{new_table-faults}

abbrev one_handle : Handles
one_handle = record {
  live = λ a. a == 7;
  next_hash = λ a. 0;
  next = λ a. 0;
  hash = λ a. 6;
  key = λ a. 66 ∷ [];
}

seven_apart : one_handle.next 7 ≢ 7
seven_apart q = absurd (omega arith)

new_table-faults_example :
    (t : HandleTable) × (new_table 2 one_handle ≡ some (t, one_handle))
    × (bucket 9 t ≡ some 0)
    × (bucket 6 t ≡ some 0)
    × (table_lookup 3 (66 ∷ []) 9 t one_handle ≡ none)
    × (table_remove 3 (66 ∷ []) 9 t one_handle ≡ none)
    × (table_insert 3 7 t one_handle ≡ none)
new_table-faults_example = new_table-faults 2 9 7 (66 ∷ []) one_handle refl refl seven_apart
