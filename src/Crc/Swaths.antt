-- ===== src/Crc/Swaths.antt =====
-- The four stride partial results of Extend stand for one register, and each loop over them for a
-- run through the bytes that it reads.
use tiny_leveldb.Prelude.{
  ℕ, ◌+◌, ◌*◌, ◌≤◌, ◌≡◌, refl, ◌∙◌, ap, sym, arith, List, some, length, bit_xor, All, IsByte, IsU32,
}
use tiny_leveldb.Prelude.Bits.{bit_xor-lt}
use tiny_leveldb.Prelude.Bits.Xor.{xor_comm, xor_assoc, xor_zero}
use tiny_leveldb.Crc.{Strides, step16, step_word}
use tiny_leveldb.Crc.Polynomial.{shift_bits, shift_bits-xor, shift_bits-add, shift_bits-IsU32}
use tiny_leveldb.Crc.Steps.{step4_lem}
use tiny_leveldb.Crc.Runs.{run, run-add, read_word}

-- The register that four partial results stand for: what the four STEP4W make of them.
abbrev pub combine_four : ℕ → ℕ → ℕ → ℕ → ℕ
combine_four c0 c1 c2 c3 = shift_bits 32 (
    bit_xor c3
      (shift_bits 32 (bit_xor c2 (shift_bits 32 (bit_xor c1 (shift_bits 32 (bit_xor c0 0)))))))

abbrev pub combine : Strides → ℕ
combine crcs = combine_four crcs.crc0 crcs.crc1 crcs.crc2 crcs.crc3

pub record Small (crcs : Strides) : Type 0 where
  pub small0 : IsU32 crcs.crc0
  pub small1 : IsU32 crcs.crc1
  pub small2 : IsU32 crcs.crc2
  pub small3 : IsU32 crcs.crc3

-- The partial results after one more word.
abbrev turn : Strides → ℕ → Strides
turn crcs w = record {
  crc0 = crcs.crc1;
  crc1 = crcs.crc2;
  crc2 = crcs.crc3;
  crc3 = bit_xor w (shift_bits 128 crcs.crc0);
}

Small-turn : (crcs : Strides) (w : ℕ) → Small crcs → IsU32 w → Small (turn crcs w)
Small-turn crcs w s h = record {
  small0 = s.small1;
  small1 = s.small2;
  small2 = s.small3;
  small3 = bit_xor-lt 32 w (shift_bits 128 crcs.crc0) h (shift_bits-IsU32 128 crcs.crc0 s.small0);
}

-- A part of the register can be shifted on its own.
shift_part :
    (a x y : ℕ)
    → shift_bits 32 (bit_xor a (bit_xor x y))
      ≡ bit_xor (shift_bits 32 x) (shift_bits 32 (bit_xor a y))
shift_part a x y =
    let order : bit_xor a (bit_xor x y) ≡ bit_xor x (bit_xor a y) =
      sym (xor_assoc a x y) ∙ ap (λ (t : ℕ). bit_xor t y) (xor_comm a x) ∙ xor_assoc x a y in
    ap (shift_bits 32) order ∙ shift_bits-xor 32 x (bit_xor a y)

shift_four :
    (x : ℕ) → shift_bits 32 (shift_bits 32 (shift_bits 32 (shift_bits 32 x))) ≡ shift_bits 128 x
shift_four x = sym (
    shift_bits-add 32 96 x
    ∙ shift_bits-add 32 64 (shift_bits 32 x)
    ∙ shift_bits-add 32 32 (shift_bits 32 (shift_bits 32 x)))

-- The first partial result is 128 bits ahead of the others.
combine-first :
    (c0 c1 c2 c3 : ℕ)
    → combine_four c0 c1 c2 c3
      ≡ bit_xor
          (shift_bits 128 c0)
          (shift_bits 32 (bit_xor c3 (shift_bits 32 (bit_xor c2 (shift_bits 32 (bit_xor c1 0))))))
combine-first c0 c1 c2 c3 =
    let start : shift_bits 32 (bit_xor c0 0) ≡ bit_xor (shift_bits 32 c0) 0 =
      ap (shift_bits 32) (xor_zero c0) ∙ sym (xor_zero (shift_bits 32 c0)) in
    rw (
      start,
      shift_part c1 (shift_bits 32 c0) 0,
      shift_part c2 (shift_bits 32 (shift_bits 32 c0)) (shift_bits 32 (bit_xor c1 0)),
      shift_part c3 (shift_bits 32 (shift_bits 32 (shift_bits 32 c0)))
          (shift_bits 32 (bit_xor c2 (shift_bits 32 (bit_xor c1 0)))),
      shift_four c0,
    )

combine-turn :
    (crcs : Strides) (w : ℕ) → combine (turn crcs w) ≡ shift_bits 32 (bit_xor (combine crcs) w)
combine-turn crcs w =
    let rest : ℕ = shift_bits 32 (
      bit_xor crcs.crc3
        (shift_bits 32 (bit_xor crcs.crc2 (shift_bits 32 (bit_xor crcs.crc1 0))))) in
    ap (shift_bits 32) (
      xor_assoc w (shift_bits 128 crcs.crc0) rest
      ∙ xor_comm w (bit_xor (shift_bits 128 crcs.crc0) rest)
      ∙ ap (λ (t : ℕ). bit_xor t w) (sym (combine-first crcs.crc0 crcs.crc1 crcs.crc2 crcs.crc3)))

-- Four words one behind the other are sixteen bytes.
pub sixteen :
    (buf : List ℕ) (p l : ℕ) {l1 l2 l3 l4 : ℕ}
    → p + 16 ≤ length buf
    → l1 ≡ run buf p 4 l
    → l2 ≡ run buf (p + 1 * 4) 4 l1
    → l3 ≡ run buf (p + 2 * 4) 4 l2
    → l4 ≡ run buf (p + 3 * 4) 4 l3
    → l4 ≡ run buf p 16 l
sixteen buf p l h e1 e2 e3 e4 =
    let q2 : p + 4 + 4 ≡ p + 8 = omega arith in
    let q3 : p + 8 + 4 ≡ p + 12 = omega arith in
    e4
    ∙ rw (
      e3,
      e2,
      e1,
      run-add buf p 4 12 16 l (omega arith) refl,
      run-add buf (p + 4) 4 8 12 (run buf p 4 l) (omega arith) refl,
      q2,
      run-add buf (p + 8) 4 4 8 _ (omega arith) refl,
      q3,
    )

module _ (buf : List ℕ) (all : All IsByte buf) where
  pub step_word_lem :
      (p : ℕ) (crcs : Strides)
      → p + 4 ≤ length buf
      → Small crcs
      → (out : Strides) × (step_word buf p crcs ≡ some out)
        × Small out
        × (combine out ≡ run buf p 4 (combine crcs))
  unfolding step_word
  step_word_lem p crcs h s =
      let (w, read, small, eq) = read_word buf p all h in
      let here : p + 0 * 4 ≡ p = omega arith in
      (
        turn crcs w,
        rw (step4_lem buf p 0 crcs.crc0 w (rw here read) s.small0),
        Small-turn crcs w s small,
        combine-turn crcs w ∙ sym (eq (combine crcs)),
      )

  pub step16_lem :
      (p : ℕ) (crcs : Strides)
      → p + 16 ≤ length buf
      → Small crcs
      → (out : Strides) × (step16 buf p crcs ≡ some out)
        × Small out
        × (combine out ≡ run buf p 16 (combine crcs))
  unfolding step16
  step16_lem p crcs h s =
      let (w0, read0, small0, eq0) = read_word buf (p + 0 * 4) all (omega arith) in
      let (w1, read1, small1, eq1) = read_word buf (p + 1 * 4) all (omega arith) in
      let (w2, read2, small2, eq2) = read_word buf (p + 2 * 4) all (omega arith) in
      let (w3, read3, small3, eq3) = read_word buf (p + 3 * 4) all (omega arith) in
      let t1 : Strides = turn crcs w0 in
      let t2 : Strides = turn t1 w1 in
      let t3 : Strides = turn t2 w2 in
      let s1 : Small t1 = Small-turn crcs w0 s small0 in
      let s2 : Small t2 = Small-turn t1 w1 s1 small1 in
      let s3 : Small t3 = Small-turn t2 w2 s2 small2 in
      let here : p + 0 * 4 ≡ p = omega arith in
      let r0 : combine t1 ≡ run buf p 4 (combine crcs) =
        combine-turn crcs w0 ∙ sym (eq0 (combine crcs)) ∙ rw here in
      let r1 : combine t2 ≡ run buf (p + 1 * 4) 4 (combine t1) =
        combine-turn t1 w1 ∙ sym (eq1 (combine t1)) in
      let r2 : combine t3 ≡ run buf (p + 2 * 4) 4 (combine t2) =
        combine-turn t2 w2 ∙ sym (eq2 (combine t2)) in
      let r3 : combine (turn t3 w3) ≡ run buf (p + 3 * 4) 4 (combine t3) =
        combine-turn t3 w3 ∙ sym (eq3 (combine t3)) in
      (
        turn t3 w3,
        rw (
          step4_lem buf p 0 crcs.crc0 w0 read0 s.small0,
          step4_lem buf p 1 crcs.crc1 w1 read1 s.small1,
          step4_lem buf p 2 crcs.crc2 w2 read2 s.small2,
          step4_lem buf p 3 crcs.crc3 w3 read3 s.small3,
        ),
        Small-turn t3 w3 s3 small3,
        sixteen buf p (combine crcs) (omega arith) r0 r1 r2 r3,
      )
