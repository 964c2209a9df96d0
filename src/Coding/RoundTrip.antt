-- ===== src/Coding/RoundTrip.antt =====
-- What the encoders of coding.h write, and that the decoders read it back.
use tiny_leveldb.Prelude.{
  ℕ, ◌+◌, ◌*◌, ◌^◌, ◌≤◌, ◌<◌, ◌≡◌, refl, ap, ◌∙◌, arith, List, [], ◌∷◌, ◌++◌, some, get_elem?,
  get_elem?-lt, length, u8, u32, u64, ◌<<<◌, ◌>>>◌, bit_or, IsU32, IsU64, IsByte, ◌⊎◌, memcpy,
  Holds, >>=-some, memcpy-Wrote,
}
use native.Mathlib.Nat.{add_assoc}
use tiny_leveldb.Prelude.Bits.{bit_or-eq-add}
use tiny_leveldb.Coding.{
  encode_fixed32, encode_fixed64, decode_fixed32, decode_fixed64, put_fixed32, put_fixed64,
}
use tiny_leveldb.Coding.{fresh_buf}

-- The little-endian bytes of a number.
unfoldable pub fixed32 : ℕ → List ℕ
fixed32 v = u8 v ∷ u8 (v >>> 8) ∷ u8 (v >>> 16) ∷ u8 (v >>> 24) ∷ []

unfoldable pub fixed64 : ℕ → List ℕ
fixed64 v =
    u8 v
    ∷ u8 (v >>> 8)
    ∷ u8 (v >>> 16)
    ∷ u8 (v >>> 24)
    ∷ u8 (v >>> 32)
    ∷ u8 (v >>> 40)
    ∷ u8 (v >>> 48)
    ∷ u8 (v >>> 56)
    ∷ []

-- The number that four bytes stand for.
pub or-four :
    (a b c d : ℕ)
    → IsByte a
    → IsByte b
    → IsByte c
    → IsByte d
    → bit_or (bit_or (bit_or a (u32 (b <<< 8))) (u32 (c <<< 16))) (u32 (d <<< 24))
      ≡ a + b * 2 ^ 8 + c * 2 ^ 16 + d * 2 ^ 24
or-four a b c d ha hb hc hd =
    let eb : u32 (b <<< 8) ≡ b * 2 ^ 8 = omega arith in
    let ec : u32 (c <<< 16) ≡ c * 2 ^ 16 = omega arith in
    let ed : u32 (d <<< 24) ≡ d * 2 ^ 24 = omega arith in
    rw (
      eb,
      ec,
      ed,
      bit_or-eq-add 8 a b (omega arith),
      bit_or-eq-add 16 (a + b * 2 ^ 8) c (omega arith),
      bit_or-eq-add 24 (a + b * 2 ^ 8 + c * 2 ^ 16) d (omega arith),
    )

or-eight :
    (a b c d e f g h : ℕ)
    → IsByte a
    → IsByte b
    → IsByte c
    → IsByte d
    → IsByte e
    → IsByte f
    → IsByte g
    → IsByte h
    → bit_or
        (bit_or
          (bit_or
            (bit_or
              (bit_or (bit_or (bit_or a (u64 (b <<< 8))) (u64 (c <<< 16))) (u64 (d <<< 24)))
              (u64 (e <<< 32)))
            (u64 (f <<< 40)))
          (u64 (g <<< 48)))
        (u64 (h <<< 56))
      ≡ a + b * 2 ^ 8 + c * 2 ^ 16 + d * 2 ^ 24 + e * 2 ^ 32 + f * 2 ^ 40 + g * 2 ^ 48 + h * 2 ^ 56
or-eight a b c d e f g h ha hb hc hd he hf hg hh =
    let eb : u64 (b <<< 8) ≡ b * 2 ^ 8 = omega arith in
    let ec : u64 (c <<< 16) ≡ c * 2 ^ 16 = omega arith in
    let ed : u64 (d <<< 24) ≡ d * 2 ^ 24 = omega arith in
    let ee : u64 (e <<< 32) ≡ e * 2 ^ 32 = omega arith in
    let ef : u64 (f <<< 40) ≡ f * 2 ^ 40 = omega arith in
    let eg : u64 (g <<< 48) ≡ g * 2 ^ 48 = omega arith in
    let eh : u64 (h <<< 56) ≡ h * 2 ^ 56 = omega arith in
    rw (
      eb,
      ec,
      ed,
      ee,
      ef,
      eg,
      eh,
      bit_or-eq-add 8 a b (omega arith),
      bit_or-eq-add 16 (a + b * 2 ^ 8) c (omega arith),
      bit_or-eq-add 24 (a + b * 2 ^ 8 + c * 2 ^ 16) d (omega arith),
      bit_or-eq-add 32 (a + b * 2 ^ 8 + c * 2 ^ 16 + d * 2 ^ 24) e (omega arith),
      bit_or-eq-add 40 (a + b * 2 ^ 8 + c * 2 ^ 16 + d * 2 ^ 24 + e * 2 ^ 32) f (omega arith),
      bit_or-eq-add 48 (a + b * 2 ^ 8 + c * 2 ^ 16 + d * 2 ^ 24 + e * 2 ^ 32 + f * 2 ^ 40) g
          (omega arith),
      bit_or-eq-add 56
          (a + b * 2 ^ 8 + c * 2 ^ 16 + d * 2 ^ 24 + e * 2 ^ 32 + f * 2 ^ 40 + g * 2 ^ 48) h
          (omega arith),
    )

-- Decoding reads the number whose bytes stand at that place.
pub decode_fixed32_lem :
    (buf : List ℕ) (at v : ℕ) → IsU32 v → Holds buf at (fixed32 v) → decode_fixed32 buf at ≡ some v
unfolding decode_fixed32 fixed32
decode_fixed32_lem buf at v hv h =
    rw
      (
        h 0 at (omega arith) (omega arith),
        h 1 (at + 1) refl (omega arith),
        h 2 (at + 2) refl (omega arith),
        h 3 (at + 3) refl (omega arith),
        or-four (u8 v) (u8 (v >>> 8)) (u8 (v >>> 16)) (u8 (v >>> 24)) (omega arith) (omega arith)
            (omega arith) (omega arith),
      )
      (ap some (omega arith))

pub decode_fixed64_lem :
    (buf : List ℕ) (at v : ℕ) → IsU64 v → Holds buf at (fixed64 v) → decode_fixed64 buf at ≡ some v
unfolding decode_fixed64 fixed64
decode_fixed64_lem buf at v hv h =
    rw
      (
        h 0 at (omega arith) (omega arith),
        h 1 (at + 1) refl (omega arith),
        h 2 (at + 2) refl (omega arith),
        h 3 (at + 3) refl (omega arith),
        h 4 (at + 4) refl (omega arith),
        h 5 (at + 5) refl (omega arith),
        h 6 (at + 6) refl (omega arith),
        h 7 (at + 7) refl (omega arith),
        or-eight (u8 v) (u8 (v >>> 8)) (u8 (v >>> 16)) (u8 (v >>> 24)) (u8 (v >>> 32))
            (u8 (v >>> 40)) (u8 (v >>> 48)) (u8 (v >>> 56)) (omega arith) (omega arith)
            (omega arith) (omega arith) (omega arith) (omega arith) (omega arith) (omega arith),
      )
      (ap some (omega arith))

-- `EncodeFixed32` is a `memcpy` of the four bytes.
pub encode_fixed32-eq-memcpy :
    (dst : List ℕ) (at v : ℕ) → encode_fixed32 dst at v ≡ memcpy dst at (fixed32 v)
unfolding encode_fixed32 memcpy fixed32
encode_fixed32-eq-memcpy dst at v = simp (add_assoc, >>=-some)

pub encode_fixed64-eq-memcpy :
    (dst : List ℕ) (at v : ℕ) → encode_fixed64 dst at v ≡ memcpy dst at (fixed64 v)
unfolding encode_fixed64 memcpy fixed64
encode_fixed64-eq-memcpy dst at v = simp (add_assoc, >>=-some)

-- Whatever the array held, after `EncodeFixed32` at a place in range the decoder reads the value
-- there, and the rest of the array is as before.
pub decode-encode_fixed32 :
    (dst : List ℕ) (at v : ℕ)
    → IsU32 v
    → at + 4 ≤ length dst
    → (out : List ℕ) × (encode_fixed32 dst at v ≡ some out)
      × (decode_fixed32 out at ≡ some v)
      × (length out ≡ length dst)
      × ((j : ℕ) → (j < at) ⊎ (at + 4 ≤ j) → get_elem? out j ≡ get_elem? dst j)
unfolding fixed32
decode-encode_fixed32 dst at v hv h =
    let (out, e, w) = memcpy-Wrote dst at (fixed32 v) h in
    (
      out,
      encode_fixed32-eq-memcpy dst at v ∙ e,
      decode_fixed32_lem out at v hv w.inside,
      w.same_length,
      w.outside,
    )

-- EncodeFixed64 at a place with eight bytes of room succeeds, DecodeFixed64 there returns the 64-bit
-- value, and the size and all other bytes of the array are as before.
pub decode-encode_fixed64 :
    (dst : List ℕ) (at v : ℕ)
    → IsU64 v
    → at + 8 ≤ length dst
    → (out : List ℕ) × (encode_fixed64 dst at v ≡ some out)
      × (decode_fixed64 out at ≡ some v)
      × (length out ≡ length dst)
      × ((j : ℕ) → (j < at) ⊎ (at + 8 ≤ j) → get_elem? out j ≡ get_elem? dst j)
unfolding fixed64
decode-encode_fixed64 dst at v hv h =
    let (out, e, w) = memcpy-Wrote dst at (fixed64 v) h in
    (
      out,
      encode_fixed64-eq-memcpy dst at v ∙ e,
      decode_fixed64_lem out at v hv w.inside,
      w.same_length,
      w.outside,
    )

-- `PutFixed32` appends the four bytes of the value.
pub put_fixed32_lem : (dst : List ℕ) (v : ℕ) → put_fixed32 dst v ≡ some (dst ++ fixed32 v)
unfolding put_fixed32 fixed32
put_fixed32_lem dst v = refl

pub put_fixed64_lem : (dst : List ℕ) (v : ℕ) → put_fixed64 dst v ≡ some (dst ++ fixed64 v)
unfolding put_fixed64 fixed64
put_fixed64_lem dst v = refl

-- Four bytes in range can always be decoded.
pub decode_fixed32-total :
    (buf : List ℕ) (at : ℕ) → at + 4 ≤ length buf → (v : ℕ) × (decode_fixed32 buf at ≡ some v)
unfolding decode_fixed32
decode_fixed32-total buf at h =
    let (b0, e0) = get_elem?-lt buf at (omega arith) in
    let (b1, e1) = get_elem?-lt buf (at + 1) (omega arith) in
    let (b2, e2) = get_elem?-lt buf (at + 2) (omega arith) in
    let (b3, e3) = get_elem?-lt buf (at + 3) (omega arith) in
    (
      bit_or (bit_or (bit_or b0 (u32 (b1 <<< 8))) (u32 (b2 <<< 16))) (u32 (b3 <<< 24)),
      rw (e0, e1, e2, e3),
    )

pub length-fixed32 : (v : ℕ) → length (fixed32 v) ≡ 4
unfolding fixed32
length-fixed32 v = refl

-- The source's way to append four bytes: through a local array.
pub encode_fixed32-fresh : (v : ℕ) → encode_fixed32 (fresh_buf 4) 0 v ≡ some (fixed32 v)
unfolding encode_fixed32 fixed32
encode_fixed32-fresh v = refl

pub length-fixed64 : (v : ℕ) → length (fixed64 v) ≡ 8
unfolding fixed64
length-fixed64 v = refl
