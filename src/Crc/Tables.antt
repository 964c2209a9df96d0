-- ===== src/Crc/Tables.antt =====
-- What the tables of crc32c.cpp hold: each entry is the register after so many bits.
use tiny_leveldb.Prelude.{
  ℕ, ◌*◌, ◌^◌, ◌≡◌, refl, arith, Bool, true, false, List, none, some, get_elem?, ◌==◌, IsByte,
}
use tiny_leveldb.Prelude.Bits.{every_below, every_below_lem}
use tiny_leveldb.Crc.ByteTable.{k_byte_extension_table}
use tiny_leveldb.Crc.StrideTable0.{k_stride_extension_table_0}
use tiny_leveldb.Crc.StrideTable1.{k_stride_extension_table_1}
use tiny_leveldb.Crc.StrideTable2.{k_stride_extension_table_2}
use tiny_leveldb.Crc.StrideTable3.{k_stride_extension_table_3}
use tiny_leveldb.Crc.Polynomial.{shift_bits}

-- Entry `i` of the table is `i * 2 ^ place` after `n` bits, for each of the 256 entries.
abbrev entry_is : List ℕ → ℕ → ℕ → ℕ → Bool
entry_is table n place i = elim (get_elem? table i) [
  | none ↦ false
  | some entry ↦ entry == shift_bits n (i * 2 ^ place)
]

entry_is_lem :
    (table : List ℕ) (n place : ℕ)
    → every_below (entry_is table n place) 256 ≡ true
    → (i : ℕ) → IsByte i
    → get_elem? table i ≡ some (shift_bits n (i * 2 ^ place))
entry_is_lem table n place h i lt =
    let here = every_below_lem (entry_is table n place) 256 i lt h in ground arith

byte_check : every_below (entry_is k_byte_extension_table 8 0) 256 ≡ true
unfolding every_below shift_bits k_byte_extension_table
byte_check = refl

stride_check_3 : every_below (entry_is k_stride_extension_table_3 128 0) 256 ≡ true
unfolding every_below shift_bits k_stride_extension_table_3
stride_check_3 = refl

stride_check_2 : every_below (entry_is k_stride_extension_table_2 128 8) 256 ≡ true
unfolding every_below shift_bits k_stride_extension_table_2
stride_check_2 = refl

stride_check_1 : every_below (entry_is k_stride_extension_table_1 128 16) 256 ≡ true
unfolding every_below shift_bits k_stride_extension_table_1
stride_check_1 = refl

stride_check_0 : every_below (entry_is k_stride_extension_table_0 128 24) 256 ≡ true
unfolding every_below shift_bits k_stride_extension_table_0
stride_check_0 = refl

pub byte_entry : (i : ℕ) → IsByte i → get_elem? k_byte_extension_table i ≡ some (shift_bits 8 i)
byte_entry i h =
    let e : i * 2 ^ 0 ≡ i = omega arith in
    rw e at (entry_is_lem k_byte_extension_table 8 0 byte_check i h)

pub stride_entry_3 :
    (i : ℕ) → IsByte i → get_elem? k_stride_extension_table_3 i ≡ some (shift_bits 128 i)
stride_entry_3 i h =
    let e : i * 2 ^ 0 ≡ i = omega arith in
    rw e at (entry_is_lem k_stride_extension_table_3 128 0 stride_check_3 i h)

pub stride_entry_2 :
    (i : ℕ) → IsByte i → get_elem? k_stride_extension_table_2 i ≡ some (shift_bits 128 (i * 2 ^ 8))
stride_entry_2 = entry_is_lem k_stride_extension_table_2 128 8 stride_check_2

pub stride_entry_1 :
    (i : ℕ) → IsByte i → get_elem? k_stride_extension_table_1 i ≡ some (shift_bits 128 (i * 2 ^ 16))
stride_entry_1 = entry_is_lem k_stride_extension_table_1 128 16 stride_check_1

pub stride_entry_0 :
    (i : ℕ) → IsByte i → get_elem? k_stride_extension_table_0 i ≡ some (shift_bits 128 (i * 2 ^ 24))
stride_entry_0 = entry_is_lem k_stride_extension_table_0 128 24 stride_check_0
