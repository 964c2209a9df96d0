-- ===== src/Prelude/Fault.antt =====
-- Memory accesses that can fail. `none` is undefined behaviour of the source: an access outside
-- the array, through a null pointer, or of freed memory.
use mathlib.Core.Path.{◌≡◌, refl}
use mathlib.Core.List.{List}
use mathlib.Core.Option.{Option, none, some}
use Prim.Native.Nat.{ℕ, ◌<◌}
use native.Mathlib.Omega.{arith}
use tiny_leveldb.Prelude.Tests.{ltb, if◌then◌else◌}
use tiny_leveldb.Prelude.Lists.{length, set}
use tiny_leveldb.Prelude.Lists.{length-append, set-append_right}
use mathlib.Core.Path.{ap, ◌∙◌}
use mathlib.Core.List.{◌++◌}
use Prim.Native.Nat.{◌+◌}

infixl 5 ◌>>=◌ ◌>>◌
abbrev pub ◌>>=◌ {ℓ κ} : {A : Type ℓ} {B : Type κ} → Option A → (A → Option B) → Option B
none >>= f = none
some a >>= f = f a

abbrev pub ◌>>◌ {ℓ} : {B : Type ℓ} → Option (Unit {0}) → Option B → Option B
m >> k = m >>= λ _. k

pub >>=-eq-some {ℓ κ} :
    {A : Type ℓ} {B : Type κ} (m : Option A) (f : A → Option B) {b : B}
    → (m >>= f) ≡ some b
    → (a : A) × (m ≡ some a) × (f a ≡ some b)
>>=-eq-some none f h = cc
>>=-eq-some (some a) f h = (a, refl, h)

pub >>=-some {ℓ} : {A : Type ℓ} (m : Option A) → (m >>= λ a. some a) ≡ m
>>=-some none = refl
>>=-some (some a) = refl

-- `buf[i] = v`
abbrev pub store {ℓ} : {A : Type ℓ} → List A → ℕ → A → Option (List A)
store buf i v = if ltb i (length buf) then some (set buf i v) else none

pub store_lem {ℓ} :
    {A : Type ℓ} (buf : List A) (i : ℕ) (v : A)
    → i < length buf
    → store buf i v ≡ some (set buf i v)
store_lem buf i v h = ground arith

pub store-some {ℓ} :
    {A : Type ℓ} (buf : List A) (i : ℕ) (v : A) {out : List A}
    → store buf i v ≡ some out
    → (i < length buf) × (set buf i v ≡ out)
store-some buf i v h = ground arith

-- A store behind `pre` is a store into what stands there.
pub store-behind {ℓ} :
    {A : Type ℓ} (pre buf : List A) (i j : ℕ) (v : A) {out : List A}
    → j ≡ length pre + i
    → store buf i v ≡ some out
    → store (pre ++ buf) j v ≡ some (pre ++ out)
store-behind pre buf i j v e h =
    let (lt, eq) = store-some buf i v h in
    store_lem (pre ++ buf) j v (omega (arith, length-append {_} pre buf))
    ∙ ap some (set-append_right pre buf i j v e ∙ ap (◌++◌ pre) eq)
