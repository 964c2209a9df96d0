-- ===== src/MemTable/Tests.antt =====
-- Entries of the memtable on small inputs.
use tiny_leveldb.Prelude.{
  ℕ, ◌≡◌, ◌≢◌, refl, arith, inl, List, [], ◌∷◌, some, replicate, length, int_to_size,
}
use tiny_leveldb.MemTable.{k_type_value, encode_entry, Decoded, decode_entry, decode_key}
use tiny_leveldb.MemTable.Entry.{decode_entry-encode_entry, decode_entry-seq_lost}
use tiny_leveldb.Coding.{encode_fixed32, encode_fixed64}
use tiny_leveldb.Prelude.{memcpy}
use tiny_leveldb.MemTable.{entry_tag, encoded_len}

abbrev fresh : List ℕ
fresh = replicate 19 0xcd

abbrev ab : List ℕ
ab = 97 ∷ 98 ∷ []

size : length fresh ≡ encoded_len ab (120 ∷ [])
unfolding int_to_size
size = refl

encode_small :
    encode_entry fresh 5 k_type_value ab (120 ∷ [])
    ≡ some (2 ∷ 0 ∷ 0 ∷ 0 ∷ 97 ∷ 98 ∷ 1 ∷ 5 ∷ 0 ∷ 0 ∷ 0 ∷ 0 ∷ 0 ∷ 0 ∷ 1 ∷ 0 ∷ 0 ∷ 0 ∷ 120 ∷ [])
unfolding encode_entry encode_fixed32 encode_fixed64 memcpy entry_tag
encode_small = refl

decode_entry-encode_entry_example :
    (out : List ℕ) × (encode_entry fresh 5 k_type_value ab (120 ∷ []) ≡ some out)
    × (decode_entry (encoded_len ab (120 ∷ [])) out
        ≡ some (record { seq = 5; type_code = 1; key = ab; value = 120 ∷ [] }))
    × (decode_key out ≡ some ab)
decode_entry-encode_entry_example =
    decode_entry-encode_entry fresh 5 k_type_value ab (120 ∷ []) size (omega arith) (omega arith)
      (omega arith) (inl (omega arith))

decode_entry-seq_lost_example :
    (out : List ℕ) × (d : Decoded) × (encode_entry fresh 0x80_0000 k_type_value ab (120 ∷ [])
      ≡ some out)
    × (decode_entry (encoded_len ab (120 ∷ [])) out ≡ some d)
    × (d.seq ≢ 0x80_0000)
decode_entry-seq_lost_example =
    decode_entry-seq_lost fresh 0x80_0000 k_type_value ab (120 ∷ []) size (omega arith)
      (omega arith) (omega arith) (omega arith)
