-- ===== src/Hash.antt =====
-- db/tableCache.h: `Hash`, the 32-bit hash of byte strings that the cache and the Bloom filter
-- share. The pair `data`, `n` is the list of the bytes, and the pointer's progress what is left of it.
pub mod Laws
mod Tests
use tiny_leveldb.Prelude.{
  ℕ, ◌+◌, ◌*◌, ◌/◌, ◌%◌, ◌^◌, List, [], ◌∷◌, Option, some, ◌>>=◌, length, u32, u64, ◌<<<◌, ◌>>>◌,
  bit_xor,
}
use tiny_leveldb.Coding.{decode_fixed32}

abbrev pub hash_m : ℕ
hash_m = 0xc6a4a793

-- `h ^= (h >> s)`
abbrev fold : ℕ → ℕ → ℕ
fold h s = bit_xor h (h >>> s)

-- `case 1`: the last byte.
unfoldable pub hash_last : ℕ → ℕ → ℕ
hash_last d0 h = fold (u32 (u32 (h + d0) * hash_m)) 24

-- The `switch` on the bytes that are left, with its fall-through.
unfoldable pub hash_tail : List ℕ → ℕ → ℕ
unfolding hash_last
hash_tail [] h = h
hash_tail (d0 ∷ []) h = hash_last d0 h
hash_tail (d0 ∷ d1 ∷ []) h = hash_last d0 (u32 (h + d1 <<< 8))
hash_tail (d0 ∷ d1 ∷ d2 ∷ []) h = hash_last d0 (u32 (u32 (h + d2 <<< 16) + d1 <<< 8))
hash_tail _ h = h

-- The body of the `while` loop: one word of four bytes.
unfoldable pub hash_word : ℕ → ℕ → ℕ
hash_word h w = fold (u32 (u32 (h + w) * hash_m)) 16

-- `while (limit - data >= 4)`, and the `switch` behind it.
unfoldable pub hash_loop : List ℕ → ℕ → Option ℕ
unfolding decode_fixed32 hash_word hash_tail
hash_loop (a ∷ b ∷ c ∷ d ∷ rest) h = do
  w ← decode_fixed32 (a ∷ b ∷ c ∷ d ∷ rest) 0
  hash_loop rest (hash_word h w)
hash_loop rest h = some (hash_tail rest h)

-- `Hash(data, n, seed)`
unfoldable pub hash : List ℕ → ℕ → Option ℕ
unfolding hash_loop
hash str seed = hash_loop str (u32 (bit_xor seed (u64 (length str * hash_m))))
