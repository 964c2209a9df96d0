-- ===== src/Hash/Tests.antt =====
-- `Hash` on small inputs.
use tiny_leveldb.Prelude.{◌≡◌, refl, [], ◌∷◌, some}
use tiny_leveldb.Hash.{hash}

hash_empty : hash [] 0xbc9f1d34 ≡ some 0xbc9f1d34
unfolding hash
hash_empty = refl

-- The values of LevelDB's own test of its hash.
hash_one_byte : hash (0x62 ∷ []) 0xbc9f1d34 ≡ some 0xef1345c4
unfolding hash
hash_one_byte = refl

hash_four_bytes : hash (0xe1 ∷ 0x80 ∷ 0xb9 ∷ 0x32 ∷ []) 0xbc9f1d34 ≡ some 0xed21633a
unfolding hash
hash_four_bytes = refl
