-- ===== src/FilterBlock/Safe.antt =====
-- The reader on contents that no builder wrote.
use tiny_leveldb.Prelude.{
  ℕ, ◌+◌, ◌-◌, ◌*◌, ◌/◌, ◌^◌, ◌≤◌, ◌<◌, ◌≡◌, refl, arith, List, some, none, length, length-take,
  length-drop, IsShort, int_to_size_lem, get_elem?, get_elem?-lt, slice_at-total, take, drop, Bool,
  true, false, lt→ltb, ltb-ge, leb, inl, inr, Bool-cases, char_to_size, ◌&&◌, ◌==◌,
}
use native.Mathlib.Decide.{dec_lt}
use tiny_leveldb.Coding.RoundTrip.{decode_fixed32-total}
use tiny_leveldb.Bloom.Match.{key_may_match-total}
use tiny_leveldb.FilterBlock.{
  FilterBlockReader, open_reader, filter_block_reader, ask_filter, ask_index, block_key_may_match,
}

-- A reader with entries has an array of offsets, with one word more, inside its contents.
pub data IsSound (bytes : List ℕ) (r : FilterBlockReader) : Type 0 where
  closed : r.num ≡ 0 → IsSound bytes r
  opened : r.contents ≡ some bytes → r.offset + r.num * 4 + 4 ≤ length bytes → IsSound bytes r

-- The shift by the encoding parameter is defined.
abbrev pub GoodShift : List ℕ → Type 0
GoodShift bytes = (last : ℕ) → get_elem? bytes (length bytes - 1) ≡ some last → last < 64

open_reader-IsSound :
    (bytes : List ℕ)
    → 5 ≤ length bytes
    → GoodShift bytes
    → (r : FilterBlockReader) × (open_reader bytes (length bytes) ≡ some r)
      × IsSound bytes r
      × (r.base_lg < 64)
unfolding open_reader
open_reader-IsSound bytes long good =
    let (last, el) = get_elem?-lt bytes (length bytes - 1) (omega arith) in
    let (word, ew) = decode_fixed32-total bytes (length bytes - 5) (omega arith) in
    let small : last < 64 = good last el in
    let shift : char_to_size last < 64 = ground arith in
    elim (dec_lt (length bytes - 5) word) [
      | yes beyond ↦ (
        record { contents = none; offset = 0; num = 0; base_lg = char_to_size last },
        rw (el, ew, lt→ltb _ _ beyond),
        closed refl,
        shift,
      )
      | no inside ↦ (
        record {
          contents = some bytes;
          offset = word;
          num = (length bytes - 5 - word) / 4;
          base_lg = char_to_size last;
        },
        rw (el, ew, ltb-ge (length bytes - 5) word (omega arith)),
        opened refl (omega arith),
        shift,
      )
    ]

filter_block_reader-IsSound :
    (bytes : List ℕ)
    → IsShort bytes
    → GoodShift bytes
    → (r : FilterBlockReader) × (filter_block_reader bytes ≡ some r)
      × IsSound bytes r
      × (r.base_lg < 64)
unfolding filter_block_reader
filter_block_reader-IsSound bytes short good =
    rw (int_to_size_lem (length bytes) short) (elim (dec_lt (length bytes) 5) [
      | yes few ↦ (
        record { contents = none; offset = 0; num = 0; base_lg = 0 },
        rw (lt→ltb _ _ few),
        closed refl,
        omega arith,
      )
      | no long ↦
          rw (ltb-ge (length bytes) 5 (omega arith)) (open_reader-IsSound bytes (omega arith) good)
    ])

ask_filter-total :
    (r : FilterBlockReader) (bytes key : List ℕ) (start limit : ℕ)
    → r.offset ≤ length bytes
    → IsShort bytes
    → IsShort key
    → (answer : Bool) × (ask_filter r bytes key start limit ≡ some answer)
unfolding ask_filter
ask_filter-total r bytes key start limit fits short short_key =
    elim (Bool-cases (leb start limit && leb limit r.offset)) [
      | inl inside ↦
          let (answer, e) =
            key_may_match-total key (take (limit - start) (drop start bytes)) short_key (
              omega (
                arith,
                length-take {0} (limit - start) (drop start bytes),
                length-drop {0} start bytes,
              )) in
          (answer, rw (inside, slice_at-total bytes start (limit - start) (ground arith)) e)
      | inr outside ↦ elim (Bool-cases (start == limit)) [
        | inl same ↦ (false, rw (outside, same))
        | inr apart ↦ (true, rw (outside, apart))
      ]
    ]

ask_index-total :
    (bytes : List ℕ) (r : FilterBlockReader) (index : ℕ) (key : List ℕ)
    → IsSound bytes r
    → IsShort bytes
    → IsShort key
    → index < r.num
    → (answer : Bool) × (ask_index r index key ≡ some answer)
unfolding ask_index
ask_index-total bytes r index key (closed e) short short_key h = absurd (omega arith)
ask_index-total bytes r index key (opened e fits) short short_key h =
    let (start, es) = decode_fixed32-total bytes (r.offset + index * 4) (omega arith) in
    let (limit, el) = decode_fixed32-total bytes (r.offset + index * 4 + 4) (omega arith) in
    rw (e, es, el) (ask_filter-total r bytes key start limit (omega arith) short short_key)

-- On any contents of fewer than 2 ^ 31 bytes, also corrupt ones, whose last byte is a possible shift,
-- the reader is built and answers every question about a key of fewer than 2 ^ 31 bytes: it reads
-- nothing outside the contents and divides by nothing.
pub block_key_may_match-total :
    (bytes : List ℕ) (block_offset : ℕ) (key : List ℕ)
    → IsShort bytes
    → IsShort key
    → GoodShift bytes
    → (r : FilterBlockReader) × (filter_block_reader bytes ≡ some r)
      × (answer : Bool) × (block_key_may_match r block_offset key ≡ some answer)
unfolding block_key_may_match
block_key_may_match-total bytes block_offset key short short_key good =
    let (r, e, sound, shift) = filter_block_reader-IsSound bytes short good in
    let (answer, ea) = answered r sound shift in (r, e, answer, ea)
  where
    answered :
        (r : FilterBlockReader)
        → IsSound bytes r
        → r.base_lg < 64
        → (answer : Bool) × (block_key_may_match r block_offset key ≡ some answer)
    answered r sound shift = elim (dec_lt (block_offset / 2 ^ r.base_lg) r.num) [
      | yes inside ↦
          let (answer, ea) = ask_index-total bytes r _ key sound short short_key inside in
          (answer, rw (lt→ltb r.base_lg 64 shift, lt→ltb _ _ inside) ea)
      | no beyond ↦ (
        true,
        rw (lt→ltb r.base_lg 64 shift, ltb-ge (block_offset / 2 ^ r.base_lg) r.num (omega arith)),
      )
    ]
