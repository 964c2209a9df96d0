-- ===== src/Crc.antt =====
-- db/crc32c.h and db/crc32c.cpp: the checksum CRC-32C. A `uint8_t*` into the buffer is a position in
-- the list of its bytes; the address of the buffer matters only for the alignment.
pub mod ByteTable
pub mod StrideTable0
pub mod StrideTable1
pub mod StrideTable2
pub mod StrideTable3
mod Polynomial
mod Tables
mod Steps
mod Runs
mod Swaths
mod Loops
mod Correct
mod Masking
mod Tests
use tiny_leveldb.Prelude.{
  ℕ, zero, suc, ◌+◌, ◌-◌, ◌*◌, ◌^◌, List, Option, none, some, ◌>>=◌, get_elem?, u32, u64, ◌<<<◌,
  ◌>>>◌, bit_and, bit_or, bit_xor, ltb, leb, ◌==◌, if◌then◌else◌,
}
use tiny_leveldb.Coding.{decode_fixed32}
use ByteTable.{k_byte_extension_table}
use StrideTable0.{k_stride_extension_table_0}
use StrideTable1.{k_stride_extension_table_1}
use StrideTable2.{k_stride_extension_table_2}
use StrideTable3.{k_stride_extension_table_3}

abbrev pub k_crc32_xor : ℕ
k_crc32_xor = 0xffffffff

-- `ReadUint32LE(data + p)`
abbrev pub read_uint32_le : List ℕ → ℕ → Option ℕ
read_uint32_le buf p = decode_fixed32 buf p

-- `RoundUp<N>(pointer)` on 64-bit addresses
abbrev pub round_up : ℕ → ℕ → ℕ
round_up n pointer = bit_and (u64 (pointer + (n - 1))) (2 ^ 64 - 1 - (n - 1))

-- `STEP1` at position `p`, without the step of `p`
unfoldable pub step1 : List ℕ → ℕ → ℕ → Option ℕ
step1 buf p l = do
  byte ← get_elem? buf p
  entry ← get_elem? k_byte_extension_table (bit_xor (bit_and l 0xff) byte)
  some (bit_xor entry (l >>> 8))

-- `while (p != stop) STEP1;`, with the rounds that are left
unfoldable pub step1_loop : List ℕ → ℕ → ℕ → ℕ → ℕ → Option ℕ
unfolding step1
step1_loop buf stop zero p l = if p == stop then some l else none
step1_loop buf stop (suc rounds) p l =
    if p == stop then some l else do l ← step1 buf p l; step1_loop buf stop rounds (p + 1) l

-- `STEP4(s)` at position `p`: the new `crc##s`
unfoldable pub step4 : List ℕ → ℕ → ℕ → ℕ → Option ℕ
step4 buf p s crc = do
  word ← read_uint32_le buf (p + s * 4)
  entry3 ← get_elem? k_stride_extension_table_3 (bit_and crc 0xff)
  entry2 ← get_elem? k_stride_extension_table_2 (bit_and (crc >>> 8) 0xff)
  entry1 ← get_elem? k_stride_extension_table_1 (bit_and (crc >>> 16) 0xff)
  entry0 ← get_elem? k_stride_extension_table_0 (crc >>> 24)
  some (bit_xor (bit_xor (bit_xor (bit_xor word entry3) entry2) entry1) entry0)

-- The four stride partial results.
pub record Strides : Type 0 where
  pub crc0 : ℕ
  pub crc1 : ℕ
  pub crc2 : ℕ
  pub crc3 : ℕ

-- `STEP16` at position `p`, without the step of `p`
unfoldable pub step16 : List ℕ → ℕ → Strides → Option Strides
unfolding step4
step16 buf p crcs = do
  crc0 ← step4 buf p 0 crcs.crc0
  crc1 ← step4 buf p 1 crcs.crc1
  crc2 ← step4 buf p 2 crcs.crc2
  crc3 ← step4 buf p 3 crcs.crc3
  some record { crc0 = crc0; crc1 = crc1; crc2 = crc2; crc3 = crc3 }

-- `while ((e - p) >= 16) STEP16;`
unfoldable pub step16_loop : List ℕ → ℕ → ℕ → ℕ → Strides → Option (ℕ × Strides)
unfolding step16
step16_loop buf e zero p crcs = if ltb (e - p) 16 then some (p, crcs) else none
step16_loop buf e (suc rounds) p crcs =
    if ltb (e - p) 16
    then some (p, crcs)
    else do crcs ← step16 buf p crcs; step16_loop buf e rounds (p + 16) crcs

-- The body of the loop over words: `STEP4(0)` and the turn of the four partial results.
unfoldable pub step_word : List ℕ → ℕ → Strides → Option Strides
unfolding step4
step_word buf p crcs = do
  tmp ← step4 buf p 0 crcs.crc0
  some record { crc0 = crcs.crc1; crc1 = crcs.crc2; crc2 = crcs.crc3; crc3 = tmp }

-- `while ((e - p) >= 4) { ... }`
unfoldable pub word_loop : List ℕ → ℕ → ℕ → ℕ → Strides → Option (ℕ × Strides)
unfolding step_word
word_loop buf e zero p crcs = if ltb (e - p) 4 then some (p, crcs) else none
word_loop buf e (suc rounds) p crcs =
    if ltb (e - p) 4
    then some (p, crcs)
    else do crcs ← step_word buf p crcs; word_loop buf e rounds (p + 4) crcs

-- The loop of `STEP4W`: one byte of the word at a time.
unfoldable pub word_bytes : ℕ → ℕ → Option ℕ
word_bytes zero w = some w
word_bytes (suc rounds) w = do
  entry ← get_elem? k_byte_extension_table (bit_and w 0xff)
  word_bytes rounds (bit_xor (w >>> 8) entry)

-- `STEP4W(w)`: the new `l`
unfoldable pub step4w : ℕ → ℕ → Option ℕ
unfolding word_bytes
step4w w l = word_bytes 4 (bit_xor w l)

-- `l = 0;` and the four STEP4W
unfoldable pub combine_strides : Strides → Option ℕ
unfolding step4w
combine_strides crcs = do
  l ← step4w crcs.crc0 0
  l ← step4w crcs.crc1 l
  l ← step4w crcs.crc2 l
  step4w crcs.crc3 l

-- The two loops over the partial results, and their combination.
unfoldable pub run_strides : List ℕ → ℕ → ℕ → Strides → Option (ℕ × ℕ)
unfolding step16_loop word_loop combine_strides
run_strides buf e p crcs = do
  (p, crcs) ← step16_loop buf e e p crcs
  (p, crcs) ← word_loop buf e e p crcs
  l ← combine_strides crcs
  some (p, l)

-- Load a 16-byte swath into the partial results, and go on from there.
unfoldable pub extend_strides : List ℕ → ℕ → ℕ → ℕ → Option (ℕ × ℕ)
unfolding run_strides
extend_strides buf e p l = do
  word0 ← read_uint32_le buf (p + 0 * 4)
  word1 ← read_uint32_le buf (p + 1 * 4)
  word2 ← read_uint32_le buf (p + 2 * 4)
  word3 ← read_uint32_le buf (p + 3 * 4)
  let crcs : Strides = record { crc0 = bit_xor word0 l; crc1 = word1; crc2 = word2; crc3 = word3 }
  run_strides buf e (p + 16) crcs

-- The bytes before the first aligned address, if that is not past the end.
unfoldable pub extend_head : ℕ → List ℕ → ℕ → ℕ → Option (ℕ × ℕ)
unfolding step1_loop
extend_head address buf n l =
    let x = round_up 4 address in
    let skip = u64 (x + 2 ^ 64 - address) in
    if leb x (address + n)
    then (do l ← step1_loop buf skip skip 0 l; some (skip, l))
    else some (0, l)

-- The words, if 16 bytes are left.
unfoldable pub extend_words : List ℕ → ℕ → ℕ → ℕ → Option (ℕ × ℕ)
unfolding extend_strides
extend_words buf e p l = if leb 16 (e - p) then extend_strides buf e p l else some (p, l)

-- `Extend(crc, data, n)` for a buffer at the address `address`
unfoldable pub extend : ℕ → ℕ → List ℕ → ℕ → Option ℕ
unfolding step1_loop extend_head extend_words
extend address crc buf n = do
  (p, l) ← extend_head address buf n (bit_xor crc k_crc32_xor)
  (p, l) ← extend_words buf n p l
  l ← step1_loop buf n n p l
  some (bit_xor l k_crc32_xor)

-- `Value(data, n)`
unfoldable pub value : ℕ → List ℕ → ℕ → Option ℕ
unfolding extend
value address buf n = extend address 0 buf n

abbrev pub k_mask_delta : ℕ
k_mask_delta = 0xa282ead8

-- `Mask(crc)`
unfoldable pub mask : ℕ → ℕ
mask crc = u32 (bit_or (crc >>> 15) (u32 (crc <<< 17)) + k_mask_delta)

-- `Unmask(masked_crc)`
unfoldable pub unmask : ℕ → ℕ
unmask masked_crc =
    let rot = u32 (masked_crc + 2 ^ 32 - k_mask_delta) in bit_or (rot >>> 17) (u32 (rot <<< 15))
