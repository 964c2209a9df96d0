-- ===== src/Crc/Tests.antt =====
-- Published checksums, and the theorems about Crc at concrete inputs.
use tiny_leveldb.Prelude.{ℕ, ◌≡◌, refl, arith, List, [], ◌∷◌, ◌++◌, some, replicate, take}
use tiny_leveldb.Coding.{decode_fixed32}
use tiny_leveldb.Crc.ByteTable.{k_byte_extension_table}
use tiny_leveldb.Crc.StrideTable0.{k_stride_extension_table_0}
use tiny_leveldb.Crc.StrideTable1.{k_stride_extension_table_1}
use tiny_leveldb.Crc.StrideTable2.{k_stride_extension_table_2}
use tiny_leveldb.Crc.StrideTable3.{k_stride_extension_table_3}
use tiny_leveldb.Crc.{value, extend, mask, unmask}
use tiny_leveldb.Crc.Correct.{crc32c, extend-crc32c, extend-value}
use tiny_leveldb.Crc.Masking.{unmask-mask}

abbrev digits : List ℕ
digits = 0x31 ∷ 0x32 ∷ 0x33 ∷ 0x34 ∷ 0x35 ∷ 0x36 ∷ 0x37 ∷ 0x38 ∷ 0x39 ∷ []

-- The check value of CRC-32C, and the vectors of RFC 3720.
value_digits : value 1001 digits 9 ≡ some 0xe3069283
unfolding value k_byte_extension_table
value_digits = refl

value_zeros : value 1001 (replicate 32 0) 32 ≡ some 0x8a9136aa
unfolding value decode_fixed32 k_byte_extension_table k_stride_extension_table_0
    k_stride_extension_table_1 k_stride_extension_table_2 k_stride_extension_table_3
value_zeros = refl

value_ones : value 4096 (replicate 32 0xff) 32 ≡ some 0x62a8ab43
unfolding value decode_fixed32 k_byte_extension_table k_stride_extension_table_0
    k_stride_extension_table_1 k_stride_extension_table_2 k_stride_extension_table_3
value_ones = refl

abbrev bytes : List ℕ
bytes = digits ++ (digits ++ digits)

extend-crc32c_example : extend 1001 7 bytes 25 ≡ some (crc32c 7 (take 25 bytes))
extend-crc32c_example =
    extend-crc32c 1001 7 bytes 25 (omega arith) (omega arith) (omega arith) (omega arith)

extend-value_example :
    (crc : ℕ) × (value 64 digits 9 ≡ some crc)
    × (extend 1001 crc bytes 27 ≡ value 5 (digits ++ bytes) 36)
extend-value_example =
    extend-value 64 1001 5 digits bytes (omega arith) (omega arith) (omega arith) (omega arith)
      (omega arith)

unmask-mask_example :
    (unmask (mask 0xe3069283) ≡ 0xe3069283) × (mask (unmask 0xe3069283) ≡ 0xe3069283)
unmask-mask_example = unmask-mask 0xe3069283 (omega arith)
