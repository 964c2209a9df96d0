-- ===== src/Prelude/Memory.antt =====
-- Reads and writes of consecutive bytes of an array.
use Prim.Native.Nat.{ℕ, zero, suc, ◌+◌, ◌≤◌, ◌<◌}
use mathlib.Core.Path.{◌≡◌, refl, ◌∙◌}
use mathlib.Core.Logic.{◌⊎◌, inl}
use mathlib.Core.List.{List, [], ◌∷◌, ◌++◌}
use mathlib.Core.Option.{Option, none, some}
use native.Mathlib.Omega.{arith}
use tiny_leveldb.Prelude.Tests.{if◌then◌else◌}
use tiny_leveldb.Prelude.Lists.{
  length, get_elem?, set, length-set, get_elem?-set_self, get_elem?-set_ne, get_elem?-append_left,
  get_elem?-append_right,
}
use tiny_leveldb.Prelude.Fault.{◌>>=◌, store, store_lem}
use tiny_leveldb.Prelude.Lists.{take, drop, take-append, drop-append, length-append}
use tiny_leveldb.Prelude.Tests.{leb}
use tiny_leveldb.Prelude.Fault.{store-behind}
use mathlib.Core.Path.{ap}
use tiny_leveldb.Prelude.Words.{int_to_size, int_to_size_lem, IsShort}
use mathlib.Core.List.{append_assoc, append-nil}

-- `memcpy(buf + at, bytes, n)`, byte by byte.
unfoldable pub memcpy : List ℕ → ℕ → List ℕ → Option (List ℕ)
memcpy buf at [] = some buf
memcpy buf at (b ∷ bs) = do buf ← store buf at b; memcpy buf (at + 1) bs

-- The array `buf` holds the bytes `bs` from position `at` on.
abbrev pub Holds : List ℕ → ℕ → List ℕ → Type 0
Holds buf at bs = (i j : ℕ) → j ≡ at + i → i < length bs → get_elem? buf j ≡ get_elem? bs i

pub Holds-append :
    (pre bs post : List ℕ) (at : ℕ) → at ≡ length pre → Holds (pre ++ (bs ++ post)) at bs
Holds-append pre bs post at e i j ej h =
    get_elem?-append_right pre (bs ++ post) i j (omega arith) ∙ get_elem?-append_left bs post i h

-- `out` is `buf` with the bytes `bs` at position `at`.
pub record Wrote (buf : List ℕ) (at : ℕ) (bs out : List ℕ) : Type 0 where
  pub same_length : length out ≡ length buf
  pub inside : Holds out at bs
  pub outside : (j : ℕ) → (j < at) ⊎ (at + length bs ≤ j) → get_elem? out j ≡ get_elem? buf j

Wrote-cons :
    {buf : List ℕ} {at b : ℕ} {bs out : List ℕ}
    → at < length buf
    → Wrote (set buf at b) (at + 1) bs out
    → Wrote buf at (b ∷ bs) out
Wrote-cons {buf} {at} {b} {bs} {out} h w = record {
  same_length = w.same_length ∙ length-set buf at b;
  inside = inside_cons;
  outside = λ j o. w.outside j (omega arith) ∙ get_elem?-set_ne buf at j b (omega arith);
}
  where
    inside_cons : Holds out at (b ∷ bs)
    inside_cons zero j e p =
        let e' : j ≡ at = omega arith in
        rw e' (w.outside at (inl (omega arith)) ∙ get_elem?-set_self buf at b h)
    inside_cons (suc i) j e p = w.inside i j (omega arith) (omega arith)

-- In range, `memcpy` succeeds and writes just these bytes.
pub memcpy-Wrote :
    (buf : List ℕ) (at : ℕ) (bs : List ℕ)
    → at + length bs ≤ length buf
    → (out : List ℕ) × (memcpy buf at bs ≡ some out) × Wrote buf at bs out
unfolding memcpy
memcpy-Wrote buf at [] h = (
  buf,
  refl,
  record { same_length = refl; inside = λ i j e p. elim p [ ]; outside = λ j o. refl },
)
memcpy-Wrote buf at (b ∷ bs) h =
    let (out, e, w) =
      memcpy-Wrote (set buf at b) (at + 1) bs (omega (arith, length-set {0} buf at b)) in
    (out, rw (store_lem buf at b (omega arith)) e, Wrote-cons (omega arith) w)

-- Later writes elsewhere keep what the array holds.
pub Holds-Wrote :
    {buf : List ℕ} {a : ℕ} (xs : List ℕ) {b : ℕ} {ys out : List ℕ}
    → Holds buf a xs
    → Wrote buf b ys out
    → (a + length xs ≤ b) ⊎ (b + length ys ≤ a)
    → Holds out a xs
Holds-Wrote xs h w apart i j e p = w.outside j (omega arith) ∙ h i j e p

-- An array that holds as many bytes as it has elements is those bytes.
pub Holds-all : (buf bs : List ℕ) → Holds buf 0 bs → length buf ≡ length bs → buf ≡ bs
Holds-all [] [] h e = refl
Holds-all [] (b ∷ bs) h e = absurd (omega arith)
Holds-all (x ∷ buf) [] h e = absurd (omega arith)
Holds-all (x ∷ buf) (b ∷ bs) h e =
    let here : some x ≡ some b = h 0 0 refl (omega arith) in
    let eq : x ≡ b = cc in
    rw (
      eq,
      Holds-all buf bs (λ i j ej p. h (suc i) (suc j) (omega arith) (omega arith)) (omega arith),
    )

-- A `slice` of `n` bytes at `buf + at`: the bytes it stands for, which must lie in the array.
abbrev pub slice_at : List ℕ → ℕ → ℕ → Option (List ℕ)
slice_at buf at n = if leb (at + n) (length buf) then some (take n (drop at buf)) else none

pub slice_at-append :
    (pre bs post : List ℕ) (at n : ℕ)
    → at ≡ length pre
    → n ≡ length bs
    → slice_at (pre ++ (bs ++ post)) at n ≡ some bs
slice_at-append pre bs post at n e en =
    let sizes : at + n ≤ length (pre ++ (bs ++ post)) =
      omega (arith, length-append {0} pre (bs ++ post), length-append {0} bs post) in
    rw (drop-append pre (bs ++ post) at e, take-append bs post n en) (ground arith)

pub slice_at-total :
    (buf : List ℕ) (at n : ℕ)
    → at + n ≤ length buf
    → slice_at buf at n ≡ some (take n (drop at buf))
slice_at-total buf at n h = ground arith

-- `memcpy` behind what is written already, into the rest of the array.
pub memcpy-append :
    (pre rest bs : List ℕ) (at : ℕ)
    → at ≡ length pre
    → length bs ≤ length rest
    → memcpy (pre ++ rest) at bs ≡ some ((pre ++ bs) ++ drop (length bs) rest)
unfolding memcpy
memcpy-append pre rest [] at e h = rw append-nil
memcpy-append pre [] (b ∷ bs) at e h = absurd (omega arith)
memcpy-append pre (x ∷ rest) (b ∷ bs) at e h =
    let here : store (pre ++ (x ∷ rest)) at b ≡ some (pre ++ (b ∷ rest)) =
      store-behind pre (x ∷ rest) 0 at b (omega arith) (store_lem (x ∷ rest) 0 b (omega arith)) in
    let next =
      memcpy-append (pre ++ (b ∷ [])) rest bs (at + 1)
        (omega (arith, length-append {0} pre (b ∷ []))) (omega arith) in
    rw (here, ← append_assoc pre (b ∷ []) rest, next, append_assoc pre (b ∷ []) bs)

pub take_whole {ℓ} : {A : Type ℓ} (xs : List A) → take (length xs) xs ≡ xs
take_whole [] = refl
take_whole (x ∷ xs) = ap (◌∷◌ x) (take_whole xs)

-- `slice::size()`, an `int`, where a `size_t` is wanted.
abbrev pub slice_size : List ℕ → ℕ
slice_size bytes = int_to_size (length bytes)

-- The bytes that a callee reads which is given `data()` and `size()` of a slice.
unfoldable pub whole_slice : List ℕ → Option (List ℕ)
unfolding int_to_size
whole_slice bytes = slice_at bytes 0 (slice_size bytes)

pub whole_slice_lem : (bytes : List ℕ) → IsShort bytes → whole_slice bytes ≡ some bytes
unfolding whole_slice
whole_slice_lem bytes short =
    rw (int_to_size_lem (length bytes) short)
      (slice_at-total bytes 0 (length bytes) (omega arith) ∙ ap some (take_whole bytes))
