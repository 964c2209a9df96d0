-- ===== src/Prelude/Bits.antt =====
-- Facts about `bit_and`, `bit_or` and `bit_xor` at variables: one equation for the lowest digit,
-- and the laws that follow from it for numbers of `k` digits.
pub mod Digit
pub mod Xor
use native.Mathlib.Nat.{pow-suc}
use mathlib.Core.Path.{◌≡◌, refl, ap}
use Prim.Native.Nat.{ℕ, zero, suc, ◌+◌, ◌*◌, ◌/◌, ◌%◌, ◌^◌, ◌<◌, bit_and, bit_or, bit_xor, differ}
use mathlib.Core.Bool.{Bool, true, ◌&&◌}
use native.Mathlib.Omega.{arith}
use Digit.{
  bit_or-half, bit_xor-half, bit_and-half, zero-bit_or, differ_comm, differ_assoc, differ_self,
  differ-lt, differ-zero, mod_two-lt,
}
use native.Mathlib.Nat.{one-le-pow}
use mathlib.Core.Path.{◌∙◌}
use Prim.Native.Nat.{◌-◌, ◌≤◌}
use Digit.{zero-bit_and}
use native.Mathlib.Nat.{div-add-mod', mod-lt}

-- The test `p` holds of every number below the bound; decided by evaluation over a small range.
unfoldable pub every_below : (ℕ → Bool) → ℕ → Bool
every_below p zero = true
every_below p (suc bound) = every_below p bound && p bound

pub every_below_lem :
    (p : ℕ → Bool) (bound i : ℕ) → i < bound → every_below p bound ≡ true → p i ≡ true
unfolding every_below
every_below_lem p zero i lt h = elim lt [ ]
every_below_lem p (suc bound) i lt h = ground (arith, every_below_lem p bound i)

bit_and-zero_below : (k x : ℕ) → x ≤ k → bit_and x 0 ≡ 0
bit_and-zero_below k zero h = zero-bit_and 0
bit_and-zero_below zero (suc x) h = elim h [ ]
bit_and-zero_below (suc k) (suc x) h =
    let rest : bit_and (suc x / 2) 0 ≡ 0 = bit_and-zero_below k (suc x / 2) (omega arith) in
    omega (arith, bit_and-half (suc x) 0, rest)

bit_and_zero : (x : ℕ) → bit_and x 0 ≡ 0
bit_and_zero x = bit_and-zero_below x x (omega arith)

pub bit_or-zero_below : (n a : ℕ) → a ≤ n → bit_or a 0 ≡ a
bit_or-zero_below n zero h = zero-bit_or 0
bit_or-zero_below zero (suc a) h = absurd (omega arith)
bit_or-zero_below (suc n) (suc a) h =
    omega (arith, bit_or-half (suc a) 0, bit_or-zero_below n (suc a / 2) (omega arith))

mul-pow-suc : (q k : ℕ) → q * 2 ^ suc k ≡ q * 2 ^ k * 2
mul-pow-suc q k = omega (arith, ap (λ (t : ℕ). q * t) (pow-suc 2 k))

-- A low part of `k` digits and a part above it: `|` is a sum.
pub bit_or-eq-add : (k a q : ℕ) → a < 2 ^ k → bit_or a (q * 2 ^ k) ≡ a + q * 2 ^ k
bit_or-eq-add zero a q h = let e : a ≡ 0 = omega arith in rw (e, zero-bit_or) (omega arith)
bit_or-eq-add (suc k) a q h = ground (
  arith,
  bit_or-half a (q * 2 ^ suc k),
  mul-pow-suc q k,
  pow-suc 2 k,
  bit_or-eq-add k (a / 2) q (omega (arith, pow-suc 2 k)),
)

module _ (k : ℕ) where
  halved : {a : ℕ} → a < 2 ^ suc k → a / 2 < 2 ^ k
  halved h = omega (arith, pow-suc 2 k)

pub bit_xor-lt : (k a b : ℕ) → a < 2 ^ k → b < 2 ^ k → bit_xor a b < 2 ^ k
bit_xor-lt zero a b ha hb =
    let ea : a ≡ 0 = omega arith in let eb : b ≡ 0 = omega arith in rw (ea, eb) (omega arith)
bit_xor-lt (suc k) a b ha hb = omega (
  arith,
  pow-suc 2 k,
  bit_xor-half a b,
  differ-lt (a % 2) (b % 2) (mod_two-lt a) (mod_two-lt b),
  bit_xor-lt k (a / 2) (b / 2) (halved k ha) (halved k hb),
)

-- `^` works digit by digit, so it commutes with the shift by one and with the lowest digit.
pub bit_xor-div : (a b : ℕ) → bit_xor a b / 2 ≡ bit_xor (a / 2) (b / 2)
bit_xor-div a b =
    omega (arith, bit_xor-half a b, differ-lt (a % 2) (b % 2) (mod_two-lt a) (mod_two-lt b))

pub bit_xor-mod : (a b : ℕ) → bit_xor a b % 2 ≡ differ (a % 2) (b % 2)
bit_xor-mod a b =
    omega (arith, bit_xor-half a b, differ-lt (a % 2) (b % 2) (mod_two-lt a) (mod_two-lt b))

pub bit_xor_comm : (k a b : ℕ) → a < 2 ^ k → b < 2 ^ k → bit_xor a b ≡ bit_xor b a
bit_xor_comm zero a b ha hb =
    let ea : a ≡ 0 = omega arith in let eb : b ≡ 0 = omega arith in rw (ea, eb)
bit_xor_comm (suc k) a b ha hb = omega (
  arith,
  bit_xor-half a b,
  bit_xor-half b a,
  differ_comm (a % 2) (b % 2),
  bit_xor_comm k (a / 2) (b / 2) (halved k ha) (halved k hb),
)

pub bit_xor_assoc :
    (k a b c : ℕ)
    → a < 2 ^ k
    → b < 2 ^ k
    → c < 2 ^ k
    → bit_xor (bit_xor a b) c ≡ bit_xor a (bit_xor b c)
bit_xor_assoc zero a b c ha hb hc =
    let ea : a ≡ 0 = omega arith in
    let eb : b ≡ 0 = omega arith in let ec : c ≡ 0 = omega arith in rw (ea, eb, ec)
bit_xor_assoc (suc k) a b c ha hb hc =
    let ma = mod_two-lt a in
    let mb = mod_two-lt b in
    let mc = mod_two-lt c in
    ground (
      arith,
      bit_xor-half (bit_xor a b) c,
      bit_xor-half a (bit_xor b c),
      bit_xor-div a b,
      bit_xor-mod a b,
      bit_xor-div b c,
      bit_xor-mod b c,
      differ_assoc (a % 2) (b % 2) (c % 2) ma mb mc,
      bit_xor_assoc k (a / 2) (b / 2) (c / 2) (halved k ha) (halved k hb) (halved k hc),
    )

pub bit_xor_self : (k a : ℕ) → a < 2 ^ k → bit_xor a a ≡ 0
bit_xor_self zero a h = let e : a ≡ 0 = omega arith in rw e
bit_xor_self (suc k) a h =
    omega (arith, bit_xor-half a a, differ_self (a % 2), bit_xor_self k (a / 2) (halved k h))

bit_and-low : (k q r : ℕ) → r < 2 ^ k → bit_and (q * 2 ^ k + r) (2 ^ k - 1) ≡ r
bit_and-low zero q r h = bit_and_zero (q * 2 ^ 0 + r) ∙ omega arith
bit_and-low (suc k) q r h = ground (
  arith,
  bit_and-half (q * 2 ^ suc k + r) (2 ^ suc k - 1),
  mul-pow-suc q k,
  pow-suc 2 k,
  one-le-pow k 2,
  bit_and-low k q (r / 2) (omega (arith, pow-suc 2 k)),
)

-- A mask of `k` ones is a remainder.
pub bit_and-mask : (k a : ℕ) → bit_and a (2 ^ k - 1) ≡ a % 2 ^ k
bit_and-mask k a =
    let pos : 0 < 2 ^ k = one-le-pow k 2 (omega arith) in
    let parts : a / 2 ^ k * 2 ^ k + a % 2 ^ k ≡ a = div-add-mod' a (2 ^ k) in
    rw parts at (bit_and-low k (a / 2 ^ k) (a % 2 ^ k) (mod-lt a pos))

-- The same sum with the high part first.
pub bit_or-eq-add_high : (k q a : ℕ) → a < 2 ^ k → bit_or (q * 2 ^ k) a ≡ q * 2 ^ k + a
bit_or-eq-add_high zero q a h =
    let e : a ≡ 0 = omega arith in
    rw (e, bit_or-zero_below (q * 2 ^ 0) (q * 2 ^ 0) (omega arith)) (omega arith)
bit_or-eq-add_high (suc k) q a h = ground (
  arith,
  bit_or-half (q * 2 ^ suc k) a,
  mul-pow-suc q k,
  pow-suc 2 k,
  bit_or-eq-add_high k q (a / 2) (omega (arith, pow-suc 2 k)),
)
