-- ===== src/Coding/Tests.antt =====
-- coding.h on small inputs.
use tiny_leveldb.Prelude.{
  ℕ, ◌+◌, ◌≤◌, ◌<◌, ◌≡◌, refl, arith, List, [], ◌∷◌, some, none, length, get_elem?, ◌⊎◌,
}
use tiny_leveldb.Coding.{
  encode_fixed32, encode_fixed64, decode_fixed32, decode_fixed64, put_fixed32,
}
use tiny_leveldb.Coding.RoundTrip.{decode-encode_fixed32, decode-encode_fixed64}

abbrev six : List ℕ
six = 1 ∷ 2 ∷ 3 ∷ 4 ∷ 5 ∷ 6 ∷ []

abbrev ten : List ℕ
ten = 1 ∷ 2 ∷ 3 ∷ 4 ∷ 5 ∷ 6 ∷ 7 ∷ 8 ∷ 9 ∷ 10 ∷ []

encode_inside : encode_fixed32 six 1 0x01020304 ≡ some (1 ∷ 4 ∷ 3 ∷ 2 ∷ 1 ∷ 6 ∷ [])
unfolding encode_fixed32
encode_inside = refl

encode_outside : encode_fixed32 six 3 0x01020304 ≡ none
unfolding encode_fixed32
encode_outside = refl

put_one : put_fixed32 (7 ∷ []) 0x1ff ≡ some (7 ∷ 0xff ∷ 1 ∷ 0 ∷ 0 ∷ [])
unfolding put_fixed32
put_one = refl

decode-encode_fixed32_example :
    (out : List ℕ) × (encode_fixed32 six 1 0xdeadbeef ≡ some out)
    × (decode_fixed32 out 1 ≡ some 0xdeadbeef)
    × (length out ≡ 6)
    × ((j : ℕ) → (j < 1) ⊎ (1 + 4 ≤ j) → get_elem? out j ≡ get_elem? six j)
decode-encode_fixed32_example = decode-encode_fixed32 six 1 0xdeadbeef (omega arith) (omega arith)

decode-encode_fixed64_example :
    (out : List ℕ) × (encode_fixed64 ten 1 0xdeadbeef_00000001 ≡ some out)
    × (decode_fixed64 out 1 ≡ some 0xdeadbeef_00000001)
    × (length out ≡ 10)
    × ((j : ℕ) → (j < 1) ⊎ (1 + 8 ≤ j) → get_elem? out j ≡ get_elem? ten j)
decode-encode_fixed64_example =
    decode-encode_fixed64 ten 1 0xdeadbeef_00000001 (omega arith) (omega arith)
