-- ===== src/Prelude/Words.antt =====
-- Machine integers as native numbers: casts, shifts and sums with the wrap-around written out.
use Prim.Native.Nat.{ℕ, ◌+◌, ◌-◌, ◌*◌, ◌/◌, ◌%◌, ◌^◌, ◌<◌}
use mathlib.Core.Path.{◌≡◌}
use mathlib.Core.List.{List}
use native.Mathlib.Omega.{arith}
use tiny_leveldb.Prelude.Lists.{length}
use tiny_leveldb.Prelude.Tests.{ltb, if◌then◌else◌}

-- `static_cast<uint8_t>`, `<uint32_t>` and `<uint64_t>` (also `size_t`).
abbrev pub u8 : ℕ → ℕ
u8 n = n % 2 ^ 8

abbrev pub u32 : ℕ → ℕ
u32 n = n % 2 ^ 32

abbrev pub u64 : ℕ → ℕ
u64 n = n % 2 ^ 64

abbrev pub IsU32 : ℕ → Type 0
IsU32 n = n < 2 ^ 32

abbrev pub IsU64 : ℕ → Type 0
IsU64 n = n < 2 ^ 64

abbrev pub IsByte : ℕ → Type 0
IsByte b = b < 256

infixl 75 ◌<<<◌ ◌>>>◌
abbrev pub ◌<<<◌ : ℕ → ℕ → ℕ
x <<< k = x * 2 ^ k

abbrev pub ◌>>>◌ : ℕ → ℕ → ℕ
x >>> k = x / 2 ^ k

-- A `char` read into a `size_t`: bytes from 128 on are negative and are sign-extended.
abbrev pub char_to_size : ℕ → ℕ
char_to_size c = if ltb c 128 then c else 2 ^ 64 - 256 + c

-- A count converted to `int` and then to `size_t`: from 2 ^ 31 on the `int` is negative and is
-- sign-extended.
unfoldable pub int_to_size : ℕ → ℕ
int_to_size n = if ltb (u32 n) (2 ^ 31) then u32 n else u32 n + 2 ^ 64 - 2 ^ 32

pub int_to_size_lem : (n : ℕ) → n < 2 ^ 31 → int_to_size n ≡ n
unfolding int_to_size
int_to_size_lem n small = ground arith

-- What is counted fits an `int`.
abbrev pub IsShort {ℓ} : {A : Type ℓ} → List A → Type 0
IsShort xs = length xs < 2 ^ 31
