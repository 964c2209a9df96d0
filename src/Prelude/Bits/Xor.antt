-- ===== src/Prelude/Bits/Xor.antt =====
-- The laws of `^` on all numbers, and a number parted into its low digits and the rest.
use tiny_leveldb.Prelude.{
  ℕ, zero, suc, ◌+◌, ◌*◌, ◌/◌, ◌%◌, ◌^◌, ◌<◌, ◌≡◌, refl, ◌∙◌, ap, sym, arith, bit_or, bit_xor,
}
use native.Mathlib.Nat.{pow-suc, div-add-mod', mod-lt, one-le-pow}
use tiny_leveldb.Prelude.Bits.Digit.{bit_xor-half, zero-bit_xor, differ-zero}
use tiny_leveldb.Prelude.Bits.{bit_xor_comm, bit_xor_assoc, bit_xor_self, bit_or-eq-add}

lt-pow : (n : ℕ) → n < 2 ^ n
lt-pow zero = omega arith
lt-pow (suc n) = omega (arith, lt-pow n, pow-suc 2 n)

pow-le-add : (m n : ℕ) → 2 ^ n < 2 ^ (n + m) + 1
pow-le-add zero n = let e : n + 0 ≡ n = omega arith in rw e (omega arith)
pow-le-add (suc m) n =
    let e : n + suc m ≡ suc (n + m) = omega arith in
    rw e (omega (arith, pow-le-add m n, pow-suc 2 (n + m)))

fits : (x y k : ℕ) → k ≡ x + y → x < 2 ^ k
fits x y k e = rw e (omega (arith, lt-pow x, pow-le-add y x))

pub xor_comm : (a b : ℕ) → bit_xor a b ≡ bit_xor b a
xor_comm a b = bit_xor_comm (a + b) a b (fits a b (a + b) refl) (fits b a (a + b) (omega arith))

pub xor_assoc : (a b c : ℕ) → bit_xor (bit_xor a b) c ≡ bit_xor a (bit_xor b c)
xor_assoc a b c =
    bit_xor_assoc (a + b + c) a b c (fits a (b + c) (a + b + c) (omega arith))
      (fits b (a + c) (a + b + c) (omega arith)) (fits c (a + b) (a + b + c) (omega arith))

pub xor_zero : (a : ℕ) → bit_xor a 0 ≡ a
xor_zero a = xor_comm a 0 ∙ zero-bit_xor a

pub xor_self : (a : ℕ) → bit_xor a a ≡ 0
xor_self a = bit_xor_self a a (lt-pow a)

-- The middle two of four change places.
pub xor_swap :
    (a b c d : ℕ) → bit_xor (bit_xor a b) (bit_xor c d) ≡ bit_xor (bit_xor a c) (bit_xor b d)
xor_swap a b c d =
    let inner : bit_xor b (bit_xor c d) ≡ bit_xor c (bit_xor b d) =
      sym (xor_assoc b c d) ∙ ap (λ t. bit_xor t d) (xor_comm b c) ∙ xor_assoc c b d in
    xor_assoc a b (bit_xor c d) ∙ ap (bit_xor a) inner ∙ sym (xor_assoc a c (bit_xor b d))

mul-pow-suc : (q k : ℕ) → q * 2 ^ suc k ≡ q * 2 ^ k * 2
mul-pow-suc q k = omega (arith, ap (λ (t : ℕ). q * t) (pow-suc 2 k))

-- A low part of `k` digits and a part above it: `^` is a sum.
pub bit_xor-eq-add : (k a q : ℕ) → a < 2 ^ k → bit_xor a (q * 2 ^ k) ≡ a + q * 2 ^ k
bit_xor-eq-add zero a q h = let e : a ≡ 0 = omega arith in rw (e, zero-bit_xor) (omega arith)
bit_xor-eq-add (suc k) a q h =
    let even : (q * 2 ^ suc k) % 2 ≡ 0 = omega (arith, mul-pow-suc q k) in
    let half : (q * 2 ^ suc k) / 2 ≡ q * 2 ^ k = omega (arith, mul-pow-suc q k) in
    let step = bit_xor-half a (q * 2 ^ suc k) in
    let parts = rw (even, half, differ-zero (a % 2)) at step in
    omega (arith, parts, mul-pow-suc q k, bit_xor-eq-add k (a / 2) q (omega (arith, pow-suc 2 k)))

pub bit_or-eq-xor : (k a q : ℕ) → a < 2 ^ k → bit_or a (q * 2 ^ k) ≡ bit_xor a (q * 2 ^ k)
bit_or-eq-xor k a q h = bit_or-eq-add k a q h ∙ sym (bit_xor-eq-add k a q h)

-- A number is its `k` low digits `^` the rest.
pub xor-parts : (k a : ℕ) → bit_xor (a % 2 ^ k) (a / 2 ^ k * 2 ^ k) ≡ a
xor-parts k a =
    let pos : 0 < 2 ^ k = one-le-pow k 2 (omega arith) in
    let parts : a / 2 ^ k * 2 ^ k + a % 2 ^ k ≡ a = div-add-mod' a (2 ^ k) in
    bit_xor-eq-add k (a % 2 ^ k) (a / 2 ^ k) (mod-lt a pos) ∙ omega arith
