-- ===== src/MemTable.antt =====
-- db/memtable.h, `MemTable::Add`, and db/skipList.h, `DecodeEntry` and `DecodeKey`: the entry of a
-- key, its sequence number, its type and its value in one array of bytes.
pub mod Entry
mod Tests
use tiny_leveldb.Prelude.{
  ℕ, ◌+◌, ◌-◌, ◌*◌, ◌/◌, ◌%◌, ◌^◌, List, Option, none, some, ◌>>=◌, length, memcpy, slice_at, u32,
  u64, ltb, ◌==◌, if◌then◌else◌, ◌<<<◌, ◌>>>◌, bit_or, bit_and, int_to_size, slice_size,
  whole_slice,
}
use tiny_leveldb.Coding.{encode_fixed32, encode_fixed64, decode_fixed32, decode_fixed64}

pub data ValueType : Type 0 where
  k_type_deletion k_type_value : ValueType

abbrev pub code : ValueType → ℕ
code k_type_deletion = 0
code k_type_value = 1

-- An `int` is its bit pattern of 32 bits. Converted to `uint64_t` it is sign-extended.
abbrev pub int_to_u64 : ℕ → ℕ
int_to_u64 x = if ltb x (2 ^ 31) then x else x + 2 ^ 64 - 2 ^ 32

-- `(seq << 8) | type`, computed in `int`
unfoldable pub entry_tag : ℕ → ValueType → ℕ
entry_tag seq type = int_to_u64 (bit_or (u32 (seq <<< 8)) (code type))

abbrev pub encoded_len : List ℕ → List ℕ → ℕ
encoded_len key value = u64 (slice_size key + slice_size value + 8 + 4 + 4)

-- `MemTable::Add` on the array that `Allocate(encoded_len)` returned, up to the call of `insert`:
-- the array that `insert` is given.
unfoldable pub encode_entry : List ℕ → ℕ → ValueType → List ℕ → List ℕ → Option (List ℕ)
unfolding whole_slice int_to_size
encode_entry buf seq type key value = do
  let key_size = slice_size key
  let val_size = slice_size value
  buf ← encode_fixed32 buf 0 (u32 key_size)
  let p : ℕ = 4
  key_bytes ← whole_slice key
  buf ← memcpy buf p key_bytes
  let p = p + key_size
  buf ← encode_fixed64 buf p (entry_tag seq type)
  let p = p + 8
  buf ← encode_fixed32 buf p (u32 val_size)
  let p = p + 4
  value_bytes ← whole_slice value
  buf ← memcpy buf p value_bytes
  if p + val_size == encoded_len key value then some buf else none

pub record Decoded : Type 0 where
  pub seq : ℕ
  pub type_code : ℕ
  pub key : List ℕ
  pub value : List ℕ

-- `DecodeEntry(buf, seq, type, key, value)`, with its assertion. The source declares no `encoded_len`
-- there; it is the argument `len`, the length that the assertion has to mean.
unfoldable pub decode_entry : ℕ → List ℕ → Option Decoded
decode_entry len buf = do
  key_size ← decode_fixed32 buf 0
  let p : ℕ = 4
  key ← slice_at buf p key_size
  let p = p + key_size
  tag ← decode_fixed64 buf p
  let p = p + 8
  val_size ← decode_fixed32 buf p
  let p = p + 4
  value ← slice_at buf p val_size
  if p + val_size == len
      then some
          (record { seq = u32 (tag >>> 8); type_code = bit_and tag 0xff; key = key; value = value })
      else none

-- `DecodeKey(buf)`
unfoldable pub decode_key : List ℕ → Option (List ℕ)
decode_key buf = do key_size ← decode_fixed32 buf 0; slice_at buf 4 key_size
