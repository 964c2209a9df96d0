-- ===== src/Crc/Polynomial.antt =====
-- The checksum from its definition: a division of polynomials over two elements, one bit at a time.
use tiny_leveldb.Prelude.{
  ℕ, zero, suc, ◌+◌, ◌*◌, ◌/◌, ◌%◌, ◌^◌, ◌<◌, ◌≡◌, refl, ◌∙◌, ap, ap₂, arith, List, [], ◌∷◌, ◌++◌,
  bit_xor, IsU32, IsByte, All,
}
use tiny_leveldb.Prelude.Bits.{bit_xor-lt, bit_xor-div, bit_xor-mod}
use tiny_leveldb.Prelude.Bits.Xor.{xor_self, xor_zero, xor_swap}
use Prim.Native.Nat.{differ}
use native.Mathlib.Nat.{pow-suc}
use tiny_leveldb.Prelude.Bits.Digit.{zero-bit_xor}

-- The Castagnoli polynomial, lowest power in the highest bit.
abbrev pub polynomial : ℕ
polynomial = 0x82f63b78

-- One bit of the division.
abbrev pub shift_bit : ℕ → ℕ
shift_bit x = bit_xor (x / 2) (x % 2 * polynomial)

unfoldable pub shift_bits : ℕ → ℕ → ℕ
shift_bits zero x = x
shift_bits (suc n) x = shift_bits n (shift_bit x)

-- The register after a sequence of bytes.
unfoldable pub update : ℕ → List ℕ → ℕ
unfolding shift_bits
update l [] = l
update l (byte ∷ bytes) = update (shift_bits 8 (bit_xor l byte)) bytes

pub update-append : (l : ℕ) (bs cs : List ℕ) → update l (bs ++ cs) ≡ update (update l bs) cs
unfolding update
update-append l [] cs = refl
update-append l (b ∷ bs) cs = update-append (shift_bits 8 (bit_xor l b)) bs cs

differ-mul : (a b p : ℕ) → a < 2 → b < 2 → differ a b * p ≡ bit_xor (a * p) (b * p)
differ-mul zero b p ha hb = let e : 0 * p ≡ 0 = omega arith in rw (e, zero-bit_xor)
differ-mul (suc zero) zero p ha hb = let e : 0 * p ≡ 0 = omega arith in rw (e, xor_zero)
differ-mul (suc zero) (suc zero) p ha hb = let e : 0 * p ≡ 0 = omega arith in rw (xor_self, e)
differ-mul (suc zero) (suc (suc b)) p ha hb = absurd (omega arith)
differ-mul (suc (suc a)) b p ha hb = absurd (omega arith)

-- The division is linear for `^`.
shift_bit-xor : (x y : ℕ) → shift_bit (bit_xor x y) ≡ bit_xor (shift_bit x) (shift_bit y)
shift_bit-xor x y =
    let low : bit_xor x y % 2 * polynomial ≡ bit_xor (x % 2 * polynomial) (y % 2 * polynomial) =
      ap (λ (t : ℕ). t * polynomial) (bit_xor-mod x y)
      ∙ differ-mul (x % 2) (y % 2) polynomial (omega arith) (omega arith) in
    ap₂ bit_xor (bit_xor-div x y) low
    ∙ xor_swap (x / 2) (y / 2) (x % 2 * polynomial) (y % 2 * polynomial)

pub shift_bits-xor :
    (n x y : ℕ) → shift_bits n (bit_xor x y) ≡ bit_xor (shift_bits n x) (shift_bits n y)
unfolding shift_bits
shift_bits-xor zero x y = refl
shift_bits-xor (suc n) x y =
    ap (shift_bits n) (shift_bit-xor x y) ∙ shift_bits-xor n (shift_bit x) (shift_bit y)

pub shift_bits-add : (m n x : ℕ) → shift_bits (m + n) x ≡ shift_bits n (shift_bits m x)
unfolding shift_bits
shift_bits-add zero n x = let e : 0 + n ≡ n = omega arith in rw e
shift_bits-add (suc m) n x =
    let e : suc m + n ≡ suc (m + n) = omega arith in
    ap (λ (k : ℕ). shift_bits k x) e ∙ shift_bits-add m n (shift_bit x)

-- Digits that stand high enough come down unchanged.
shift_bit-double : (q : ℕ) → shift_bit (q * 2) ≡ q
shift_bit-double q =
    let half : q * 2 / 2 ≡ q = omega arith in
    let even : q * 2 % 2 * polynomial ≡ 0 = omega arith in ap₂ bit_xor half even ∙ xor_zero q

pub shift_bits-high : (n q : ℕ) → shift_bits n (q * 2 ^ n) ≡ q
unfolding shift_bits
shift_bits-high zero q = omega arith
shift_bits-high (suc n) q =
    let e : q * 2 ^ suc n ≡ q * 2 ^ n * 2 = omega (arith, ap (λ (t : ℕ). q * t) (pow-suc 2 n)) in
    ap (shift_bits (suc n)) e
    ∙ ap (shift_bits n) (shift_bit-double (q * 2 ^ n))
    ∙ shift_bits-high n q

pub shift_bits-IsU32 : (n x : ℕ) → IsU32 x → IsU32 (shift_bits n x)
unfolding shift_bits
shift_bits-IsU32 zero x h = h
shift_bits-IsU32 (suc n) x h =
    shift_bits-IsU32 n (shift_bit x)
      (bit_xor-lt 32 (x / 2) (x % 2 * polynomial) (omega arith) (omega arith))

pub update-IsU32 : (l : ℕ) (bytes : List ℕ) → IsU32 l → All IsByte bytes → IsU32 (update l bytes)
unfolding update
update-IsU32 l [] h all = h
update-IsU32 l (b ∷ bytes) h all =
    let hb : IsU32 b = omega (arith, all.0) in
    update-IsU32 (shift_bits 8 (bit_xor l b)) bytes
      (shift_bits-IsU32 8 (bit_xor l b) (bit_xor-lt 32 l b h hb)) all.1
