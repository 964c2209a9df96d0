-- ===== src/FilterBlock.antt =====
-- db/filter_block.h and db/filter_block.cpp: the filter block of a table. The builder collects the
-- keys of each 2 KB range of block offsets and writes a Bloom filter for each range, then an array
-- of the filters' offsets; the reader finds the filter of a block offset and asks it.
pub mod Segments
pub mod Build
pub mod Read
pub mod Groups
pub mod Run
pub mod Correct
pub mod Safe
mod Tests
use tiny_leveldb.Prelude.{
  ℕ, zero, suc, ◌+◌, ◌-◌, ◌*◌, ◌/◌, ◌^◌, ◌%◌, Bool, true, false, ◌&&◌, List, [], ◌∷◌, ◌++◌, Option,
  none, some, ◌>>=◌, length, get_elem?, slice_at, u8, u32, u64, ◌>>>◌, ltb, leb, ◌==◌,
  if◌then◌else◌, char_to_size, int_to_size, slice_size,
}
use tiny_leveldb.Coding.{encode_fixed32, decode_fixed32, fresh_buf}
use tiny_leveldb.Bloom.{BloomFilterPolicy, create_filter, key_may_match}

abbrev pub k_filter_base_lg : ℕ
k_filter_base_lg = 11

abbrev pub k_filter_base : ℕ
k_filter_base = 2 ^ 11

-- `FilterBlockBuilder`. `tmp_keys_` is empty between calls, and is a local of `generate_filter`.
pub record FilterBlockBuilder : Type 0 where
  pub policy : BloomFilterPolicy
  pub keys : List ℕ
  pub start : List ℕ
  pub result : List ℕ
  pub filter_offsets : List ℕ

-- The constructor.
unfoldable pub filter_block_builder : BloomFilterPolicy → FilterBlockBuilder
filter_block_builder policy = record {
  policy = policy;
  keys = [];
  start = [];
  result = [];
  filter_offsets = [];
}

-- The loop that fills `tmp_keys_`: `from` is `start_[i]`, and the list is `start_` from `i + 1` on.
unfoldable pub split_keys : List ℕ → ℕ → List ℕ → Option (List (List ℕ))
split_keys keys from [] = some []
split_keys keys from (next ∷ start) = do
  key ← slice_at keys from (u64 (next + 2 ^ 64 - from))
  rest ← split_keys keys next start
  some (key ∷ rest)

-- `GenerateFilter` behind its fast path, for the first element of `start_` and the others.
unfoldable pub generate_keys : FilterBlockBuilder → ℕ → List ℕ → Option FilterBlockBuilder
unfolding split_keys
generate_keys b first start = do
  tmp_keys ← split_keys b.keys first (start ++ (length b.keys ∷ []))
  result ← create_filter b.policy tmp_keys b.result
  some (record b {
    keys = [];
    start = [];
    result = result;
    filter_offsets = b.filter_offsets ++ (u32 (length b.result) ∷ []);
  })

-- `GenerateFilter()`, by cases on `start_`
unfoldable pub generate_from : FilterBlockBuilder → List ℕ → Option FilterBlockBuilder
unfolding generate_keys
generate_from b [] =
    some (record b { filter_offsets = b.filter_offsets ++ (u32 (length b.result) ∷ []) })
generate_from b (first ∷ start) = generate_keys b first start

unfoldable pub generate_filter : FilterBlockBuilder → Option FilterBlockBuilder
unfolding generate_from
generate_filter b = generate_from b b.start

-- The loop of `StartBlock`. Each round adds one offset, so `filter_index` rounds are enough.
unfoldable pub start_block_loop : ℕ → ℕ → FilterBlockBuilder → Option FilterBlockBuilder
start_block_loop zero filter_index b = some b
start_block_loop (suc fuel) filter_index b =
    let rest = (do b ← generate_filter b; start_block_loop fuel filter_index b) in
    if ltb (length b.filter_offsets) filter_index then rest else some b

-- `StartBlock(block_offset)`. A failed assertion stops the program.
unfoldable pub start_block : ℕ → FilterBlockBuilder → Option FilterBlockBuilder
unfolding start_block_loop
start_block block_offset b =
    let filter_index = block_offset / k_filter_base in
    if leb (length b.filter_offsets) filter_index
    then start_block_loop filter_index filter_index b
    else none

-- `AddKey(key)`, for a key whose length fits the `int` that `size()` returns.
unfoldable pub add_key : List ℕ → FilterBlockBuilder → FilterBlockBuilder
add_key key b = record b { start = b.start ++ (length b.keys ∷ []); keys = b.keys ++ key }

-- The loop of `Finish` over the offsets.
unfoldable pub append_offsets : List ℕ → List ℕ → Option (List ℕ)
append_offsets [] result = some result
append_offsets (offset ∷ offsets) result = do
  buf ← encode_fixed32 (fresh_buf 4) 0 offset
  append_offsets offsets (result ++ buf)

-- `Finish` behind the last filter: the contents of the block.
unfoldable pub finish_offsets : FilterBlockBuilder → Option (List ℕ)
finish_offsets b = do
  let array_offset = u32 (length b.result)
  result ← append_offsets b.filter_offsets b.result
  buf ← encode_fixed32 (fresh_buf 4) 0 array_offset
  some ((result ++ buf) ++ (k_filter_base_lg ∷ []))

abbrev is_empty {ℓ} : {A : Type ℓ} → List A → Bool
is_empty [] = true
is_empty (x ∷ xs) = false

-- `Finish()`
unfoldable pub finish : FilterBlockBuilder → Option (List ℕ)
unfolding finish_offsets
finish b = do b ← if is_empty b.start then some b else generate_filter b; finish_offsets b

-- `FilterBlockReader`: `contents` is what `data_` points to, `none` for the null pointer, and
-- `offset` is `offset_ - data_`.
pub record FilterBlockReader : Type 0 where
  pub contents : Option (List ℕ)
  pub offset : ℕ
  pub num : ℕ
  pub base_lg : ℕ

-- The constructor behind its first guard.
unfoldable pub open_reader : List ℕ → ℕ → Option FilterBlockReader
open_reader contents n = do
  last ← get_elem? contents (n - 1)
  last_word ← decode_fixed32 contents (n - 5)
  some (
      if ltb (n - 5) last_word
      then record { contents = none; offset = 0; num = 0; base_lg = char_to_size last }
      else record {
        contents = some contents;
        offset = last_word;
        num = (n - 5 - last_word) / 4;
        base_lg = char_to_size last;
      })

-- The constructor. Nothing is read of contents of less than five bytes.
unfoldable pub filter_block_reader : List ℕ → Option FilterBlockReader
unfolding open_reader int_to_size
filter_block_reader contents =
    if ltb (slice_size contents) 5
    then some (record { contents = none; offset = 0; num = 0; base_lg = 0 })
    else open_reader contents (slice_size contents)

-- `block_offset >> base_lg_`, which is undefined from 64 on.
abbrev pub shift_right : ℕ → ℕ → Option ℕ
shift_right x k = if ltb k 64 then some (x >>> k) else none

-- The filter between two offsets.
unfoldable pub ask_filter : FilterBlockReader → List ℕ → List ℕ → ℕ → ℕ → Option Bool
ask_filter r contents key start limit =
    let asked = (do filter ← slice_at contents start (limit - start); key_may_match key filter) in
    if leb start limit && leb limit r.offset
    then asked
    else if start == limit
    then some false
    else some true

-- The body of `if (index < num_)`.
unfoldable pub ask_index : FilterBlockReader → ℕ → List ℕ → Option Bool
unfolding ask_filter
ask_index r index key = do
  contents ← r.contents
  start ← decode_fixed32 contents (r.offset + index * 4)
  limit ← decode_fixed32 contents (r.offset + index * 4 + 4)
  ask_filter r contents key start limit

-- `KeyMayMatch(block_offset, key)`
unfoldable pub block_key_may_match : FilterBlockReader → ℕ → List ℕ → Option Bool
unfolding ask_index
block_key_may_match r block_offset key = do
  index ← shift_right block_offset r.base_lg
  let asked = ask_index r index key
  if ltb index r.num then asked else some true
