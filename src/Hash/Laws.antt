-- ===== src/Hash/Laws.antt =====
-- `Hash` reads no byte outside its string and returns a 32-bit number.
use tiny_leveldb.Prelude.{ℕ, ◌≡◌, refl, arith, List, [], ◌∷◌, some, IsU32}
use tiny_leveldb.Prelude.Bits.{bit_xor-lt}
use tiny_leveldb.Hash.{hash_tail, hash_word, hash_loop, hash}

hash_word-IsU32 : (h w : ℕ) → IsU32 (hash_word h w)
unfolding hash_word
hash_word-IsU32 h w = bit_xor-lt 32 _ _ (omega arith) (omega arith)

hash_tail-IsU32 : (str : List ℕ) (h : ℕ) → IsU32 h → IsU32 (hash_tail str h)
unfolding hash_tail
hash_tail-IsU32 [] h p = p
hash_tail-IsU32 (d0 ∷ []) h p = bit_xor-lt 32 _ _ (omega arith) (omega arith)
hash_tail-IsU32 (d0 ∷ d1 ∷ []) h p = bit_xor-lt 32 _ _ (omega arith) (omega arith)
hash_tail-IsU32 (d0 ∷ d1 ∷ d2 ∷ []) h p = bit_xor-lt 32 _ _ (omega arith) (omega arith)
hash_tail-IsU32 (d0 ∷ d1 ∷ d2 ∷ d3 ∷ str) h p = p

hash_loop-IsU32 : (str : List ℕ) (h : ℕ) → IsU32 h → (r : ℕ) × (hash_loop str h ≡ some r) × IsU32 r
unfolding hash_loop
hash_loop-IsU32 [] h p = (_, refl, hash_tail-IsU32 [] h p)
hash_loop-IsU32 (a ∷ []) h p = (_, refl, hash_tail-IsU32 (a ∷ []) h p)
hash_loop-IsU32 (a ∷ b ∷ []) h p = (_, refl, hash_tail-IsU32 (a ∷ b ∷ []) h p)
hash_loop-IsU32 (a ∷ b ∷ c ∷ []) h p = (_, refl, hash_tail-IsU32 (a ∷ b ∷ c ∷ []) h p)
hash_loop-IsU32 (a ∷ b ∷ c ∷ d ∷ rest) h p = hash_loop-IsU32 rest _ (hash_word-IsU32 h _)

-- `Hash` returns on every string, whatever its length, with a value below 2 ^ 32.
pub hash-IsU32 : (str : List ℕ) (seed : ℕ) → (h : ℕ) × (hash str seed ≡ some h) × IsU32 h
unfolding hash
hash-IsU32 str seed = hash_loop-IsU32 str _ (omega arith)
