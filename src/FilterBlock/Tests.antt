-- ===== src/FilterBlock/Tests.antt =====
-- Runs of the filter block on small inputs, and its theorems at them.
use tiny_leveldb.Prelude.{
  ℕ, ◌<◌, ◌≡◌, arith, Bool, true, List, [], ◌∷◌, some, length, get_elem?, All, ◌≤◌, ◌^◌, ◌⊎◌,
}
use tiny_leveldb.Bloom.{BloomFilterPolicy}
use tiny_leveldb.FilterBlock.{
  FilterBlockBuilder, filter_block_builder, finish, FilterBlockReader, filter_block_reader,
  block_key_may_match,
}
use tiny_leveldb.FilterBlock.Correct.{Call, run, added, block_key_may_match-finish}
use tiny_leveldb.FilterBlock.Safe.{block_key_may_match-total}

abbrev ten_bits : BloomFilterPolicy
ten_bits = record { bits_per_key = 10; k = 6 }

-- Two blocks in the first range, one in the third.
abbrev calls : List Call
calls =
    Call.block 100
    ∷ Call.key (102 ∷ [])
    ∷ Call.block 200
    ∷ Call.key (98 ∷ [])
    ∷ Call.block 5000
    ∷ Call.key (104 ∷ [])
    ∷ []

abbrev corrupt : List ℕ
corrupt = 7 ∷ 7 ∷ 1 ∷ 0 ∷ 0 ∷ 0 ∷ 11 ∷ []

block_key_may_match-finish_example :
    (b : FilterBlockBuilder) × (bytes : List ℕ) × (run calls (filter_block_builder ten_bits)
      ≡ some b)
    × (finish b ≡ some bytes)
    × ((2 ^ 31 ≤ length bytes)
        ⊎ ((r : FilterBlockReader) × (filter_block_reader bytes ≡ some r)
            × All (λ e. block_key_may_match r e.0 e.1 ≡ some true) (added 0 calls)))
block_key_may_match-finish_example =
    block_key_may_match-finish ten_bits calls (omega arith) (omega arith)

eleven : (last : ℕ) → get_elem? corrupt 6 ≡ some last → last < 64
eleven last e = ground arith

block_key_may_match-total_example :
    (r : FilterBlockReader) × (filter_block_reader corrupt ≡ some r)
    × (answer : Bool) × (block_key_may_match r 0 (104 ∷ []) ≡ some answer)
block_key_may_match-total_example =
    block_key_may_match-total corrupt 0 (104 ∷ []) (omega arith) (omega arith) eleven
