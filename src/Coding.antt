-- ===== src/Coding.antt =====
-- db/coding.h: fixed-width little-endian integers. A `char*` is an array of bytes with a position
-- in it; an access outside the array is undefined in the source and gives `none` here.
pub mod RoundTrip
mod Tests
use tiny_leveldb.Prelude.{
  ℕ, ◌+◌, ◌*◌, ◌/◌, ◌%◌, ◌^◌, List, [], ◌∷◌, ◌++◌, Option, some, ◌>>=◌, store, get_elem?, replicate,
  u8, u32, u64, ◌<<<◌, ◌>>>◌, bit_or,
}

-- `EncodeFixed32(dst + at, value)`
unfoldable pub encode_fixed32 : List ℕ → ℕ → ℕ → Option (List ℕ)
encode_fixed32 dst at value = do
  dst ← store dst at (u8 value)
  dst ← store dst (at + 1) (u8 (value >>> 8))
  dst ← store dst (at + 2) (u8 (value >>> 16))
  store dst (at + 3) (u8 (value >>> 24))

-- `EncodeFixed64(dst + at, value)`
unfoldable pub encode_fixed64 : List ℕ → ℕ → ℕ → Option (List ℕ)
encode_fixed64 dst at value = do
  dst ← store dst at (u8 value)
  dst ← store dst (at + 1) (u8 (value >>> 8))
  dst ← store dst (at + 2) (u8 (value >>> 16))
  dst ← store dst (at + 3) (u8 (value >>> 24))
  dst ← store dst (at + 4) (u8 (value >>> 32))
  dst ← store dst (at + 5) (u8 (value >>> 40))
  dst ← store dst (at + 6) (u8 (value >>> 48))
  store dst (at + 7) (u8 (value >>> 56))

-- `DecodeFixed32(ptr + at)`
unfoldable pub decode_fixed32 : List ℕ → ℕ → Option ℕ
decode_fixed32 ptr at = do
  b0 ← get_elem? ptr at
  b1 ← get_elem? ptr (at + 1)
  b2 ← get_elem? ptr (at + 2)
  b3 ← get_elem? ptr (at + 3)
  some (bit_or (bit_or (bit_or b0 (u32 (b1 <<< 8))) (u32 (b2 <<< 16))) (u32 (b3 <<< 24)))

-- `DecodeFixed64(ptr + at)`
unfoldable pub decode_fixed64 : List ℕ → ℕ → Option ℕ
decode_fixed64 ptr at = do
  b0 ← get_elem? ptr at
  b1 ← get_elem? ptr (at + 1)
  b2 ← get_elem? ptr (at + 2)
  b3 ← get_elem? ptr (at + 3)
  b4 ← get_elem? ptr (at + 4)
  b5 ← get_elem? ptr (at + 5)
  b6 ← get_elem? ptr (at + 6)
  b7 ← get_elem? ptr (at + 7)
  let low = bit_or (bit_or (bit_or b0 (u64 (b1 <<< 8))) (u64 (b2 <<< 16))) (u64 (b3 <<< 24))
  let mid = bit_or (bit_or low (u64 (b4 <<< 32))) (u64 (b5 <<< 40))
  some (bit_or (bit_or mid (u64 (b6 <<< 48))) (u64 (b7 <<< 56)))

-- The local `buf`, whose bytes are all overwritten before they are read.
abbrev pub fresh_buf : ℕ → List ℕ
fresh_buf n = replicate n 0

-- `PutFixed32(dst, value)`
unfoldable pub put_fixed32 : List ℕ → ℕ → Option (List ℕ)
unfolding encode_fixed32
put_fixed32 dst value = do buf ← encode_fixed32 (fresh_buf 4) 0 value; some (dst ++ buf)

-- `PutFixed64(dst, value)`
unfoldable pub put_fixed64 : List ℕ → ℕ → Option (List ℕ)
unfolding encode_fixed64
put_fixed64 dst value = do buf ← encode_fixed64 (fresh_buf 8) 0 value; some (dst ++ buf)
