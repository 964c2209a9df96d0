-- ===== src/Crc/Correct.antt =====
-- Extend against the checksum's definition, and what that says of concatenation.
use tiny_leveldb.Prelude.{
  ℕ, zero, suc, ◌+◌, ◌-◌, ◌*◌, ◌/◌, ◌%◌, ◌^◌, ◌≤◌, ◌<◌, ◌≡◌, refl, ◌∙◌, ap, sym, arith, List, ◌∷◌,
  ◌++◌, some, length, take, take-append, All, All-append, bit_and, bit_xor, IsByte, IsU32, leb,
  Bool-cases, inl, inr, append-nil, u64, [],
}
use tiny_leveldb.Prelude.Bits.{bit_and-mask, bit_xor-lt}
use tiny_leveldb.Prelude.Bits.Digit.{bit_and-half}
use tiny_leveldb.Prelude.Bits.Xor.{xor_assoc, xor_self, xor_zero}
use tiny_leveldb.Crc.{round_up, step1_loop, extend_head, extend_words, extend, value, k_crc32_xor}
use tiny_leveldb.Crc.Polynomial.{update, update-append, update-IsU32}
use tiny_leveldb.Crc.Runs.{run, run-add, run-zero}
use tiny_leveldb.Crc.Loops.{step1_loop_lem, extend_strides_lem}

-- The checksum from its definition: the register starts and ends inverted.
unfoldable pub crc32c : ℕ → List ℕ → ℕ
unfolding update
crc32c crc bytes = bit_xor (update (bit_xor crc k_crc32_xor) bytes) k_crc32_xor

bit_and-four : (a : ℕ) → bit_and a (2 ^ 64 - 4) ≡ a / 4 % 2 ^ 62 * 4
bit_and-four a = omega (
  arith,
  bit_and-half a (2 ^ 64 - 4),
  bit_and-half (a / 2) (2 ^ 63 - 2),
  bit_and-mask 62 (a / 2 / 2),
)

-- Rounding up gives the next multiple of four.
pub round_up_lem :
    (address : ℕ)
    → address + 3 < 2 ^ 64
    → (skip : ℕ) × (round_up 4 address ≡ address + skip) × (skip < 4) × ((address + skip) % 4 ≡ 0)
round_up_lem address h =
    let masked = bit_and-four (u64 (address + 3)) in
    ((address + 3) / 4 * 4 - address, omega (arith, masked), omega arith, omega arith)

All-take : (n : ℕ) (buf : List ℕ) → All IsByte buf → All IsByte (take n buf)
All-take zero buf all = tt
All-take (suc n) [] all = tt
All-take (suc n) (b ∷ buf) all = (all.0, All-take n buf all.1)

inverted : (crc : ℕ) → IsU32 crc → IsU32 (bit_xor crc k_crc32_xor)
inverted crc h = bit_xor-lt 32 crc k_crc32_xor h (omega arith)

module _ (buf : List ℕ) (all : All IsByte buf) (n : ℕ) (hn : n ≤ length buf) where
  run-IsU32 : (p l : ℕ) → IsU32 l → IsU32 (run buf 0 p l)
  run-IsU32 p l h = update-IsU32 l (take p buf) h (All-take p buf all)

  -- A run from the start, and the run behind it.
  onwards : (p q l : ℕ) → p ≤ q → q ≤ n → run buf p (q - p) (run buf 0 p l) ≡ run buf 0 q l
  onwards p q l h hq =
      let start : 0 + p ≡ p = omega arith in
      sym (rw start at (run-add buf 0 p (q - p) q l (omega arith) (omega arith)))

  extend_head_lem :
      (address l : ℕ)
      → address + n + 3 < 2 ^ 64
      → (p : ℕ) × (extend_head address buf n l ≡ some (p, run buf 0 p l)) × (p ≤ n)
  unfolding extend_head
  extend_head_lem address l h =
      let (skip, eq, few, aligned) = round_up_lem address (omega arith) in
      let back : u64 (address + skip + 2 ^ 64 - address) ≡ skip = omega arith in
      elim (Bool-cases (leb (address + skip) (address + n))) [
        | inl inside ↦
            let room : skip ≤ n = ground arith in
            let loop =
              step1_loop_lem buf all n hn skip skip 0 l skip (omega arith) (omega arith) room in
            (skip, rw (eq, back, inside, loop), room)
        | inr past ↦ (0, rw (eq, back, past, run-zero buf 0 l), omega arith)
      ]

  extend_words_lem :
      (p l : ℕ)
      → p ≤ n
      → IsU32 l
      → (q : ℕ) × (extend_words buf n p (run buf 0 p l) ≡ some (q, run buf 0 q l)) × (q ≤ n)
  unfolding extend_words
  extend_words_lem p l h small = elim (Bool-cases (leb 16 (n - p))) [
    | inl many ↦
        let (q, eq, from, within) =
          extend_strides_lem buf all n hn p (run buf 0 p l) (ground arith) (run-IsU32 p l small) in
        let whole : run buf p (q - p) (run buf 0 p l) ≡ run buf 0 q l = onwards p q l from within in
        (q, rw (many, eq, whole), within)
    | inr few ↦ (p, rw few, h)
  ]

  extend_tail : (p l : ℕ) → p ≤ n → step1_loop buf n n p (run buf 0 p l) ≡ some (run buf 0 n l)
  extend_tail p l h =
      step1_loop_lem buf all n hn n (n - p) p (run buf 0 p l) n (omega arith) (omega arith)
        (omega arith)
      ∙ ap some (onwards p n l h (omega arith))

-- Extend over the first `n` bytes of a buffer, which lies at any address that leaves three more below
-- 2 ^ 64, returns the checksum by its definition: table look-ups, strides and alignment do not show.
-- The buffer has at least `n` bytes, and the given checksum 32 bits.
pub extend-crc32c :
    (address crc : ℕ) (buf : List ℕ) (n : ℕ)
    → address + n + 3 < 2 ^ 64
    → All IsByte buf
    → n ≤ length buf
    → IsU32 crc
    → extend address crc buf n ≡ some (crc32c crc (take n buf))
unfolding extend crc32c
extend-crc32c address crc buf n h all hn small =
    let l : ℕ = bit_xor crc k_crc32_xor in
    let (p, eq1, hp) = extend_head_lem buf all n hn address l h in
    let (q, eq2, hq) = extend_words_lem buf all n hn p l hp (inverted crc small) in
    rw (eq1, eq2, extend_tail buf all n hn q l hq)

crc32c-append : (crc : ℕ) (xs ys : List ℕ) → crc32c crc (xs ++ ys) ≡ crc32c (crc32c crc xs) ys
unfolding crc32c
crc32c-append crc xs ys =
    let l : ℕ = update (bit_xor crc k_crc32_xor) xs in
    let back : bit_xor (bit_xor l k_crc32_xor) k_crc32_xor ≡ l =
      xor_assoc l k_crc32_xor k_crc32_xor ∙ ap (bit_xor l) (xor_self k_crc32_xor) ∙ xor_zero l in
    rw (update-append (bit_xor crc k_crc32_xor) xs ys, back)

crc32c-IsU32 : (crc : ℕ) (xs : List ℕ) → IsU32 crc → All IsByte xs → IsU32 (crc32c crc xs)
unfolding crc32c
crc32c-IsU32 crc xs h all =
    let small = update-IsU32 (bit_xor crc k_crc32_xor) xs (inverted crc h) all in
    bit_xor-lt 32 (update (bit_xor crc k_crc32_xor) xs) k_crc32_xor small (omega arith)

take_whole : (xs : List ℕ) → take (length xs) xs ≡ xs
take_whole xs = rw append-nil at (take-append xs [] (length xs) refl)

extend_whole :
    (address crc : ℕ) (xs : List ℕ)
    → address + length xs + 3 < 2 ^ 64
    → All IsByte xs
    → IsU32 crc
    → extend address crc xs (length xs) ≡ some (crc32c crc xs)
extend_whole address crc xs h all small =
    extend-crc32c address crc xs (length xs) h all (omega arith) small
    ∙ ap (λ (t : List ℕ). some (crc32c crc t)) (take_whole xs)

-- Value returns on `xs`, and Extend of that checksum with `ys` is Value of `xs` and `ys` one behind the
-- other, wherever the three buffers lie; each leaves three more addresses below 2 ^ 64.
pub extend-value :
    (address1 address2 address3 : ℕ) (xs ys : List ℕ)
    → address1 + length xs + 3 < 2 ^ 64
    → address2 + length ys + 3 < 2 ^ 64
    → address3 + length (xs ++ ys) + 3 < 2 ^ 64
    → All IsByte xs
    → All IsByte ys
    → (crc : ℕ) × (value address1 xs (length xs) ≡ some crc)
      × (extend address2 crc ys (length ys) ≡ value address3 (xs ++ ys) (length (xs ++ ys)))
unfolding value
extend-value address1 address2 address3 xs ys h1 h2 h3 all1 all2 =
    let zero_small : IsU32 0 = omega arith in
    (
      crc32c 0 xs,
      extend_whole address1 0 xs h1 all1 zero_small,
      extend_whole address2 (crc32c 0 xs) ys h2 all2 (crc32c-IsU32 0 xs zero_small all1)
          ∙ ap some (sym (crc32c-append 0 xs ys))
          ∙ sym (
              extend_whole address3 0 (xs ++ ys) h3 (All-append xs ys IsByte all1 all2) zero_small),
    )
