-- ===== src/Crc/Loops.antt =====
-- The loops of Extend: each ends within its rounds and is a run through the bytes it reads.
use tiny_leveldb.Prelude.{
  ℕ, zero, suc, ◌+◌, ◌-◌, ◌*◌, ◌≤◌, ◌≡◌, ◌∙◌, ap, sym, arith, true, false, List, Option, some,
  length, get_elem?-lt, All-get, bit_xor, All, IsByte, IsU32, ltb, ◌==◌, Bool-cases, inl, inr,
}
use tiny_leveldb.Prelude.Bits.{bit_xor-lt}
use tiny_leveldb.Prelude.Bits.Xor.{xor_comm, xor_zero}
use tiny_leveldb.Crc.{
  Strides, step1_loop, step16_loop, word_loop, combine_strides, run_strides, extend_strides,
}
use tiny_leveldb.Crc.Polynomial.{shift_bits}
use tiny_leveldb.Crc.Steps.{step1_lem, step4w_lem}
use tiny_leveldb.Crc.Runs.{run, run-add, run-zero, run-suc, read_word}
use tiny_leveldb.Crc.Swaths.{combine, Small, sixteen, step_word_lem, step16_lem}

-- A loop over the partial results has stopped at a position up to `e`.
pub record Reached (buf : List ℕ) (e p l : ℕ) (out : Option (ℕ × Strides)) : Type 0 where
  pub stop : ℕ
  pub crcs : Strides
  pub returns : out ≡ some (stop, crcs)
  pub from : p ≤ stop
  pub within : stop ≤ e
  pub small : Small crcs
  pub register : combine crcs ≡ run buf p (stop - p) l

combine_strides_lem : (crcs : Strides) → combine_strides crcs ≡ some (combine crcs)
unfolding combine_strides
combine_strides_lem crcs =
    rw (
      step4w_lem crcs.crc0 0,
      step4w_lem crcs.crc1 _,
      step4w_lem crcs.crc2 _,
      step4w_lem crcs.crc3 _,
    )

module _ (buf : List ℕ) (all : All IsByte buf) (e : ℕ) (he : e ≤ length buf) where
  Reached-here :
      (p : ℕ) (crcs : Strides) {out : Option (ℕ × Strides)}
      → p ≤ e
      → Small crcs
      → out ≡ some (p, crcs)
      → Reached buf e p (combine crcs) out
  Reached-here p crcs h s eq = record {
    stop = p;
    crcs = crcs;
    returns = eq;
    from = omega arith;
    within = h;
    small = s;
    register = let none_left : p - p ≡ 0 = omega arith in rw (none_left, run-zero);
  }

  Reached-behind :
      (p k l : ℕ) {l' : ℕ} {out out' : Option (ℕ × Strides)}
      → l' ≡ run buf p k l
      → out ≡ out'
      → Reached buf e (p + k) l' out'
      → Reached buf e p l out
  Reached-behind p k l el eq r = record {
    stop = r.stop;
    crcs = r.crcs;
    returns = eq ∙ r.returns;
    from = omega (arith, r.from);
    within = r.within;
    small = r.small;
    register =
        r.register
        ∙ ap (run buf (p + k) (r.stop - (p + k))) el
        ∙ sym (
            run-add buf p k (r.stop - (p + k)) (r.stop - p) l (omega (arith, r.from, r.within))
              (omega (arith, r.from)));
  }

  word_loop_lem :
      (rounds p : ℕ) (crcs : Strides)
      → p ≤ e
      → e - p ≤ rounds
      → Small crcs
      → Reached buf e p (combine crcs) (word_loop buf e rounds p crcs)
  unfolding word_loop
  word_loop_lem zero p crcs h enough s =
      let few : ltb (e - p) 4 ≡ true = ground arith in Reached-here p crcs h s (rw few)
  word_loop_lem (suc rounds) p crcs h enough s = elim (Bool-cases (ltb (e - p) 4)) [
    | inl few ↦ Reached-here p crcs h s (rw few)
    | inr many ↦
        let room : p + 4 ≤ e = ground arith in
        let (out, eq, small, run) = step_word_lem buf all p crcs (omega arith) s in
        Reached-behind p 4 (combine crcs) run (rw (many, eq))
          (word_loop_lem rounds (p + 4) out room (omega arith) small)
  ]

  step16_loop_lem :
      (rounds p : ℕ) (crcs : Strides)
      → p ≤ e
      → e - p ≤ rounds
      → Small crcs
      → Reached buf e p (combine crcs) (step16_loop buf e rounds p crcs)
  unfolding step16_loop
  step16_loop_lem zero p crcs h enough s =
      let few : ltb (e - p) 16 ≡ true = ground arith in Reached-here p crcs h s (rw few)
  step16_loop_lem (suc rounds) p crcs h enough s = elim (Bool-cases (ltb (e - p) 16)) [
    | inl few ↦ Reached-here p crcs h s (rw few)
    | inr many ↦
        let room : p + 16 ≤ e = ground arith in
        let (out, eq, small, run) = step16_lem buf all p crcs (omega arith) s in
        Reached-behind p 16 (combine crcs) run (rw (many, eq))
          (step16_loop_lem rounds (p + 16) out room (omega arith) small)
  ]

  pub step1_loop_lem :
      (rounds k p l stop : ℕ)
      → k ≤ rounds
      → stop ≡ p + k
      → stop ≤ e
      → step1_loop buf stop rounds p l ≡ some (run buf p k l)
  unfolding step1_loop
  step1_loop_lem zero zero p l stop h es hs =
      let here : (p == stop) ≡ true = ground arith in rw (here, run-zero)
  step1_loop_lem zero (suc k) p l stop h es hs = absurd (omega arith)
  step1_loop_lem (suc rounds) zero p l stop h es hs =
      let here : (p == stop) ≡ true = ground arith in rw (here, run-zero)
  step1_loop_lem (suc rounds) (suc k) p l stop h es hs =
      let before : (p == stop) ≡ false = ground arith in
      let (b, get) = get_elem?-lt buf p (omega arith) in
      let step = step1_lem buf p l b get (All-get IsByte buf p b all get) in
      rw (before, step, run-suc buf p k l b get)
        (step1_loop_lem rounds k (p + 1) (shift_bits 8 (bit_xor l b)) stop (omega arith)
          (omega arith) hs)

  join :
      {p q r l' : ℕ} (l : ℕ)
      → l' ≡ run buf p (q - p) l
      → p ≤ q
      → q ≤ r
      → q ≤ length buf
      → run buf q (r - q) l' ≡ run buf p (r - p) l
  join {p = p} {q = q} {r = r} l el hp hq h =
      let at : p + (q - p) ≡ q = omega arith in
      ap (run buf q (r - q)) el
      ∙ sym (rw at at (run-add buf p (q - p) (r - q) (r - p) l (omega arith) (omega arith)))

  run_strides_parts :
      (p : ℕ) (crcs : Strides) {q r l : ℕ} {crcs1 crcs2 : Strides}
      → step16_loop buf e e p crcs ≡ some (q, crcs1)
      → word_loop buf e e q crcs1 ≡ some (r, crcs2)
      → combine crcs2 ≡ l
      → run_strides buf e p crcs ≡ some (r, l)
  unfolding run_strides
  run_strides_parts p crcs {crcs2 = crcs2} eq1 eq2 eq3 =
      rw (eq1, eq2, combine_strides_lem crcs2, eq3)

  run_strides_lem :
      (p : ℕ) (crcs : Strides)
      → p ≤ e
      → Small crcs
      → (q : ℕ) × (run_strides buf e p crcs ≡ some (q, run buf p (q - p) (combine crcs)))
        × (p ≤ q)
        × (q ≤ e)
  run_strides_lem p crcs h s =
      let r1 = step16_loop_lem e p crcs h (omega arith) s in
      let r2 = word_loop_lem e r1.stop r1.crcs r1.within (omega arith) r1.small in
      (
        r2.stop,
        run_strides_parts p crcs r1.returns r2.returns (
            r2.register
            ∙ join (combine crcs) r1.register r1.from r2.from (omega (arith, r1.within))),
        omega (arith, r1.from, r2.from),
        r2.within,
      )

  -- From the loads to the combination.
  pub extend_strides_lem :
      (p l : ℕ)
      → p + 16 ≤ e
      → IsU32 l
      → (q : ℕ) × (extend_strides buf e p l ≡ some (q, run buf p (q - p) l)) × (p ≤ q) × (q ≤ e)
  unfolding extend_strides
  extend_strides_lem p l h small =
      let (w0, read0, small0, eq0) = read_word buf (p + 0 * 4) all (omega arith) in
      let (w1, read1, small1, eq1) = read_word buf (p + 1 * 4) all (omega arith) in
      let (w2, read2, small2, eq2) = read_word buf (p + 2 * 4) all (omega arith) in
      let (w3, read3, small3, eq3) = read_word buf (p + 3 * 4) all (omega arith) in
      let crcs : Strides = record { crc0 = bit_xor w0 l; crc1 = w1; crc2 = w2; crc3 = w3 } in
      let s : Small crcs = record {
        small0 = bit_xor-lt 32 w0 l small0 small;
        small1 = small1;
        small2 = small2;
        small3 = small3;
      } in
      let here : p + 0 * 4 ≡ p = omega arith in
      let first : shift_bits 32 (bit_xor (bit_xor w0 l) 0) ≡ run buf p 4 l =
        ap (shift_bits 32) (xor_zero (bit_xor w0 l) ∙ xor_comm w0 l) ∙ sym (eq0 l) ∙ rw here in
      let loaded : combine crcs ≡ run buf p 16 l =
        sixteen buf p l (omega arith) first (ap (shift_bits 32) (xor_comm w1 _) ∙ sym (eq1 _))
          (ap (shift_bits 32) (xor_comm w2 _) ∙ sym (eq2 _))
          (ap (shift_bits 32) (xor_comm w3 _) ∙ sym (eq3 _)) in
      let (q, eq, from, within) = run_strides_lem (p + 16) crcs h s in
      let joined : run buf p (q - p) l ≡ run buf (p + 16) (q - (p + 16)) (combine crcs) =
        run-add buf p 16 (q - (p + 16)) (q - p) l (omega arith) (omega arith)
        ∙ ap (run buf (p + 16) (q - (p + 16))) (sym loaded) in
      (q, rw (read0, read1, read2, read3, eq, joined), omega arith, within)
