-- ===== src/Crc/Steps.antt =====
-- What the macros of Extend compute: STEP1, STEP4W and STEP4 by shifts of whole bytes.
use tiny_leveldb.Prelude.{
  ℕ, zero, suc, ◌+◌, ◌*◌, ◌/◌, ◌%◌, ◌^◌, ◌≡◌, refl, ◌∙◌, ap, sym, arith, List, some, get_elem?,
  bit_and, bit_xor, IsByte, IsU32, ◌>>>◌,
}
use tiny_leveldb.Prelude.Bits.{bit_and-mask, bit_xor-lt}
use tiny_leveldb.Prelude.Bits.Xor.{xor_comm, xor_assoc, xor-parts, bit_xor-eq-add}
use tiny_leveldb.Crc.{read_uint32_le, step1, step4, step4w, word_bytes}
use tiny_leveldb.Crc.Polynomial.{shift_bits, shift_bits-xor, shift_bits-add, shift_bits-high}
use tiny_leveldb.Crc.Tables.{
  byte_entry, stride_entry_0, stride_entry_1, stride_entry_2, stride_entry_3,
}

low_byte : (x : ℕ) → bit_and x 0xff ≡ x % 2 ^ 8
low_byte x = bit_and-mask 8 x

-- A part above the bits that are shifted out comes down unchanged.
pub shift_bits-absorb :
    (n x q : ℕ) → shift_bits n (bit_xor x (q * 2 ^ n)) ≡ bit_xor (shift_bits n x) q
shift_bits-absorb n x q =
    shift_bits-xor n x (q * 2 ^ n) ∙ ap (bit_xor (shift_bits n x)) (shift_bits-high n q)

xor_right_comm : (a b c : ℕ) → bit_xor (bit_xor a b) c ≡ bit_xor (bit_xor a c) b
xor_right_comm a b c = xor_assoc a b c ∙ ap (bit_xor a) (xor_comm b c) ∙ sym (xor_assoc a c b)

-- One look at the byte table is eight bits of the division.
byte_shift :
    (l b : ℕ)
    → bit_xor (shift_bits 8 (bit_xor (l % 2 ^ 8) b)) (l / 2 ^ 8) ≡ shift_bits 8 (bit_xor l b)
byte_shift l b =
    sym (shift_bits-absorb 8 (bit_xor (l % 2 ^ 8) b) (l / 2 ^ 8))
    ∙ ap (shift_bits 8) (
        xor_right_comm (l % 2 ^ 8) b (l / 2 ^ 8 * 2 ^ 8)
        ∙ ap (λ (t : ℕ). bit_xor t b) (xor-parts 8 l))

pub step1_lem :
    (buf : List ℕ) (p l b : ℕ)
    → get_elem? buf p ≡ some b
    → IsByte b
    → step1 buf p l ≡ some (shift_bits 8 (bit_xor l b))
unfolding step1
step1_lem buf p l b e h =
    let lt : IsByte (bit_xor (l % 2 ^ 8) b) = bit_xor-lt 8 (l % 2 ^ 8) b (omega arith) h in
    rw (e, low_byte l, byte_entry (bit_xor (l % 2 ^ 8) b) lt, byte_shift l b)

byte_shift_zero : (w : ℕ) → bit_xor (w / 2 ^ 8) (shift_bits 8 (w % 2 ^ 8)) ≡ shift_bits 8 w
byte_shift_zero w =
    xor_comm (w / 2 ^ 8) (shift_bits 8 (w % 2 ^ 8))
    ∙ sym (shift_bits-absorb 8 (w % 2 ^ 8) (w / 2 ^ 8))
    ∙ ap (shift_bits 8) (xor-parts 8 w)

word_bytes_lem : (n w k : ℕ) → k ≡ n * 8 → word_bytes n w ≡ some (shift_bits k w)
unfolding word_bytes shift_bits
word_bytes_lem zero w k e = let e' : k ≡ 0 = omega arith in rw e'
word_bytes_lem (suc n) w k e =
    let split : k ≡ 8 + n * 8 = omega arith in
    rw (
      low_byte w,
      byte_entry (w % 2 ^ 8) (omega arith),
      byte_shift_zero w,
      word_bytes_lem n (shift_bits 8 w) (n * 8) refl,
      split,
      shift_bits-add 8 (n * 8) w,
    )

pub step4w_lem : (w l : ℕ) → step4w w l ≡ some (shift_bits 32 (bit_xor w l))
unfolding step4w
step4w_lem w l = word_bytes_lem 4 (bit_xor w l) 32 refl

-- A 32-bit number from its bytes.
pub xor-four :
    (a b c d : ℕ)
    → IsByte a
    → IsByte b
    → IsByte c
    → bit_xor (bit_xor (bit_xor a (b * 2 ^ 8)) (c * 2 ^ 16)) (d * 2 ^ 24)
      ≡ a + b * 2 ^ 8 + c * 2 ^ 16 + d * 2 ^ 24
xor-four a b c d ha hb hc = rw (
  bit_xor-eq-add 8 a b (omega arith),
  bit_xor-eq-add 16 (a + b * 2 ^ 8) c (omega arith),
  bit_xor-eq-add 24 (a + b * 2 ^ 8 + c * 2 ^ 16) d (omega arith),
)

word-bytes :
    (x : ℕ)
    → x
      ≡ bit_xor
          (bit_xor (bit_xor (x % 2 ^ 8) (x / 2 ^ 8 % 2 ^ 8 * 2 ^ 8)) (x / 2 ^ 16 % 2 ^ 8 * 2 ^ 16))
          (x / 2 ^ 24 * 2 ^ 24)
word-bytes x =
    let sum =
      xor-four (x % 2 ^ 8) (x / 2 ^ 8 % 2 ^ 8) (x / 2 ^ 16 % 2 ^ 8) (x / 2 ^ 24) (omega arith)
        (omega arith) (omega arith) in
    omega (arith, sum)

shift_bits-four :
    (n a b c d : ℕ)
    → shift_bits n (bit_xor (bit_xor (bit_xor a b) c) d)
      ≡ bit_xor
          (bit_xor (bit_xor (shift_bits n a) (shift_bits n b)) (shift_bits n c))
          (shift_bits n d)
shift_bits-four n a b c d = rw (
  shift_bits-xor n (bit_xor (bit_xor a b) c) d,
  shift_bits-xor n (bit_xor a b) c,
  shift_bits-xor n a b,
)

xor_word :
    (w a b c d : ℕ)
    → bit_xor (bit_xor (bit_xor (bit_xor w a) b) c) d
      ≡ bit_xor w (bit_xor (bit_xor (bit_xor a b) c) d)
xor_word w a b c d =
    rw (xor_assoc w a b, xor_assoc w (bit_xor a b) c, xor_assoc w (bit_xor (bit_xor a b) c) d)

-- Four looks at the stride tables are 128 bits of the division.
pub step4_lem :
    (buf : List ℕ) (p s crc w : ℕ)
    → read_uint32_le buf (p + s * 4) ≡ some w
    → IsU32 crc
    → step4 buf p s crc ≡ some (bit_xor w (shift_bits 128 crc))
unfolding step4
step4_lem buf p s crc w e h =
    let b0 : ℕ = crc % 2 ^ 8 in
    let b1 : ℕ = crc / 2 ^ 8 % 2 ^ 8 in
    let b2 : ℕ = crc / 2 ^ 16 % 2 ^ 8 in
    let b3 : ℕ = crc / 2 ^ 24 in
    let whole =
      ap (shift_bits 128) (word-bytes crc)
      ∙ shift_bits-four 128 b0 (b1 * 2 ^ 8) (b2 * 2 ^ 16) (b3 * 2 ^ 24) in
    rw (
      e,
      low_byte crc,
      low_byte (crc >>> 8),
      low_byte (crc >>> 16),
      stride_entry_3 b0 (omega arith),
      stride_entry_2 b1 (omega arith),
      stride_entry_1 b2 (omega arith),
      stride_entry_0 b3 (omega arith),
      whole,
      xor_word w (shift_bits 128 b0) (shift_bits 128 (b1 * 2 ^ 8)) (shift_bits 128 (b2 * 2 ^ 16))
          (shift_bits 128 (b3 * 2 ^ 24)),
    )
