-- ===== src/Block/Tests.antt =====
-- The theorems about Block at concrete inputs.
use tiny_leveldb.Prelude.{ℕ, ◌≡◌, refl, arith, [], ◌∷◌, some, false}
use tiny_leveldb.Block.{BlockBuilder, shared_prefix, add}
use tiny_leveldb.Block.Builder.{IsSharedFrom, shared_prefix-IsSharedFrom, add-fields_lost}

abbrev empty_builder : BlockBuilder
empty_builder = record { last_key = []; buffer = []; restarts = []; counter = 0; finished = false }

shared_prefix-IsSharedFrom_example :
    (shared : ℕ) × (shared_prefix (97 ∷ 98 ∷ 99 ∷ []) (97 ∷ 100 ∷ []) ≡ some shared)
    × IsSharedFrom 0 (97 ∷ 98 ∷ 99 ∷ []) (97 ∷ 100 ∷ []) shared
shared_prefix-IsSharedFrom_example =
    shared_prefix-IsSharedFrom (97 ∷ 98 ∷ 99 ∷ []) (97 ∷ 100 ∷ []) (omega arith)

add-fields_lost_example :
    (out : BlockBuilder) × (add empty_builder (97 ∷ 98 ∷ []) (120 ∷ []) ≡ some out)
    × (out.buffer ≡ 2 ∷ 1 ∷ 97 ∷ 98 ∷ 120 ∷ [])
add-fields_lost_example =
    add-fields_lost empty_builder (97 ∷ 98 ∷ []) (120 ∷ []) refl (omega arith) (omega arith)
      (omega arith) (omega arith)
