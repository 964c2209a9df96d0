-- ===== src/Prelude/Counts.antt =====
-- How often a number stands in a list, and a function changed at one place.
use Prim.Native.Nat.{ℕ, ◌+◌}
use mathlib.Core.List.{List, [], ◌∷◌}
use tiny_leveldb.Prelude.Tests.{◌==◌, if◌then◌else◌}

abbrev pub count : ℕ → List ℕ → ℕ
count e [] = 0
count e (b ∷ rest) = (if b == e then 1 else 0) + count e rest

module _ {ℓ} {A : Type ℓ} where
  -- `field` with the value `v` at the address `e`.
  abbrev pub update : (ℕ → A) → ℕ → A → ℕ → A
  update field e v b = if e == b then v else field b
