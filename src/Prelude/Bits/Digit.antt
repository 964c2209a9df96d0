-- ===== src/Prelude/Bits/Digit.antt =====
-- The native operations stand for a recursion on binary digits with a counter. Here the counter is
-- dropped, and the lowest digit split off.
use Prim.Native.Nat.{
  ℕ, zero, suc, ◌+◌, ◌*◌, ◌/◌, ◌%◌, ◌≤◌, ◌<◌, min, max, bit_and, bit_or, bit_xor, digits, differ,
  bit_and-bitwise, bit_or-bitwise, bit_xor-bitwise,
}
use mathlib.Core.Path.{◌≡◌, refl}
use native.Mathlib.Omega.{arith}

module _ (z : ℕ → ℕ) (f : ℕ → ℕ → ℕ) where
  -- Two counters that both reach the first number leave the same digits.
  counter_free : (x y k l : ℕ) → x ≤ k → x ≤ l → digits z f k x y ≡ digits z f l x y
  counter_free zero y zero zero hk hl = refl
  counter_free zero y zero (suc l) hk hl = refl
  counter_free zero y (suc k) zero hk hl = refl
  counter_free zero y (suc k) (suc l) hk hl = refl
  counter_free (suc x) y zero l hk hl = elim hk [ ]
  counter_free (suc x) y (suc k) zero hk hl = elim hl [ ]
  counter_free (suc x) y (suc k) (suc l) hk hl =
      let hx : suc x / 2 ≤ k = omega arith in
      let hy : suc x / 2 ≤ l = omega arith in
      let rest : digits z f k (suc x / 2) (y / 2) ≡ digits z f l (suc x / 2) (y / 2) =
        counter_free (suc x / 2) (y / 2) k l hx hy in
      omega (arith, rest)

  lowest :
      (x y : ℕ)
      → digits z f (suc x) (suc x) y
        ≡ f (suc x % 2) (y % 2) + 2 * digits z f (suc x / 2) (suc x / 2) (y / 2)
  lowest x y =
      let rest : digits z f x (suc x / 2) (y / 2) ≡ digits z f (suc x / 2) (suc x / 2) (y / 2) =
        counter_free (suc x / 2) (y / 2) x (suc x / 2) (omega arith) (omega arith) in
      omega (arith, rest)

pub zero-bit_and : (y : ℕ) → bit_and 0 y ≡ 0
zero-bit_and y = bit_and-bitwise 0 y

pub zero-bit_or : (y : ℕ) → bit_or 0 y ≡ y
zero-bit_or y = bit_or-bitwise 0 y

pub zero-bit_xor : (y : ℕ) → bit_xor 0 y ≡ y
zero-bit_xor y = bit_xor-bitwise 0 y

pub bit_or-half : (x y : ℕ) → bit_or x y ≡ max (x % 2) (y % 2) + 2 * bit_or (x / 2) (y / 2)
bit_or-half zero y = omega (arith, zero-bit_or y, zero-bit_or (y / 2))
bit_or-half (suc x) y =
    omega
      (arith, lowest (λ y. y) max x y, bit_or-bitwise (suc x) y, bit_or-bitwise (suc x / 2) (y / 2))

pub bit_and-half : (x y : ℕ) → bit_and x y ≡ min (x % 2) (y % 2) + 2 * bit_and (x / 2) (y / 2)
bit_and-half zero y = omega (arith, zero-bit_and y, zero-bit_and (y / 2))
bit_and-half (suc x) y =
    omega (
      arith,
      lowest (λ y. 0) min x y,
      bit_and-bitwise (suc x) y,
      bit_and-bitwise (suc x / 2) (y / 2),
    )

pub bit_xor-half : (x y : ℕ) → bit_xor x y ≡ differ (x % 2) (y % 2) + 2 * bit_xor (x / 2) (y / 2)
bit_xor-half zero y = omega (arith, zero-bit_xor y, zero-bit_xor (y / 2))
bit_xor-half (suc x) y = omega (
  arith,
  lowest (λ y. y) differ x y,
  bit_xor-bitwise (suc x) y,
  bit_xor-bitwise (suc x / 2) (y / 2),
)

pub mod_two-lt : (a : ℕ) → a % 2 < 2
mod_two-lt a = omega arith

-- `differ` on two digits.
pub differ-lt : (x y : ℕ) → x < 2 → y < 2 → differ x y < 2
differ-lt zero y hx hy = hy
differ-lt (suc zero) zero hx hy = hx
differ-lt (suc zero) (suc zero) hx hy = omega arith
differ-lt (suc zero) (suc (suc y)) hx hy = absurd (omega arith)
differ-lt (suc (suc x)) y hx hy = absurd (omega arith)

pub differ-zero : (x : ℕ) → differ x 0 ≡ x
differ-zero zero = refl
differ-zero (suc x) = refl

pub differ_self : (x : ℕ) → differ x x ≡ 0
differ_self zero = refl
differ_self (suc x) = differ_self x

pub differ_comm : (x y : ℕ) → differ x y ≡ differ y x
differ_comm zero zero = refl
differ_comm zero (suc y) = refl
differ_comm (suc x) zero = refl
differ_comm (suc x) (suc y) = differ_comm x y

pub differ_assoc :
    (x y w : ℕ) → x < 2 → y < 2 → w < 2 → differ (differ x y) w ≡ differ x (differ y w)
differ_assoc zero y w hx hy hw = refl
differ_assoc (suc zero) zero w hx hy hw = refl
differ_assoc (suc zero) (suc zero) zero hx hy hw = refl
differ_assoc (suc zero) (suc zero) (suc zero) hx hy hw = refl
differ_assoc (suc zero) (suc zero) (suc (suc w)) hx hy hw = absurd (omega arith)
differ_assoc (suc zero) (suc (suc y)) w hx hy hw = absurd (omega arith)
differ_assoc (suc (suc x)) y w hx hy hw = absurd (omega arith)
