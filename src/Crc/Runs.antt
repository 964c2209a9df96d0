-- ===== src/Crc/Runs.antt =====
-- The register after a stretch of the buffer, and what one word of the buffer does to it.
use tiny_leveldb.Prelude.{
  ℕ, zero, suc, ◌+◌, ◌*◌, ◌^◌, ◌≤◌, ◌≡◌, refl, ◌∙◌, ap, sym, arith, List, [], ◌∷◌, some, get_elem?,
  get_elem?-lt, length, take, drop, bit_xor, All, All-get, IsByte, IsU32,
}
use tiny_leveldb.Prelude.Bits.Xor.{xor_assoc}
use tiny_leveldb.Coding.{decode_fixed32}
use tiny_leveldb.Coding.RoundTrip.{or-four}
use tiny_leveldb.Crc.{read_uint32_le}
use tiny_leveldb.Crc.Polynomial.{shift_bits, shift_bits-add, update}
use tiny_leveldb.Crc.Steps.{shift_bits-absorb, xor-four}

-- The register after the `k` bytes from position `p` on.
abbrev pub run : List ℕ → ℕ → ℕ → ℕ → ℕ
run buf p k l = update l (take k (drop p buf))

drop-get : (buf : List ℕ) (p b : ℕ) → get_elem? buf p ≡ some b → drop p buf ≡ b ∷ drop (p + 1) buf
drop-get [] p b e = cc
drop-get (x ∷ buf) zero b e = let e' : x ≡ b = cc in rw e'
drop-get (x ∷ buf) (suc p) b e =
    let next : suc p + 1 ≡ suc (p + 1) = omega arith in rw (next, drop-get buf p b e)

pub run-suc :
    (buf : List ℕ) (p k l b : ℕ)
    → get_elem? buf p ≡ some b
    → run buf p (suc k) l ≡ run buf (p + 1) k (shift_bits 8 (bit_xor l b))
unfolding update
run-suc buf p k l b e = rw (drop-get buf p b e)

pub run-zero : (buf : List ℕ) (p l : ℕ) → run buf p 0 l ≡ l
unfolding update
run-zero buf p l = refl

pub run-add :
    (buf : List ℕ) (p a b k l : ℕ)
    → p + a ≤ length buf
    → k ≡ a + b
    → run buf p k l ≡ run buf (p + a) b (run buf p a l)
run-add buf p zero b k l h e =
    let ek : k ≡ b = omega arith in
    let ep : p + 0 ≡ p = omega arith in rw (ek, ep, run-zero buf p l)
run-add buf p (suc a) b k l h e =
    let (x, get) = get_elem?-lt buf p (omega arith) in
    let ek : k ≡ suc (a + b) = omega arith in
    let ep : p + suc a ≡ p + 1 + a = omega arith in
    rw (ek, ep, run-suc buf p (a + b) l x get, run-suc buf p a l x get)
      (run-add buf (p + 1) a b (a + b) (shift_bits 8 (bit_xor l x)) (omega arith) refl)

-- Four bytes, one at a time, are the word they form and 32 bits of the division.
shift_word :
    (l a b c d : ℕ)
    → shift_bits 8 (
        bit_xor
          (shift_bits 8 (bit_xor (shift_bits 8 (bit_xor (shift_bits 8 (bit_xor l a)) b)) c))
          d)
      ≡ shift_bits 32
          (bit_xor l (bit_xor (bit_xor (bit_xor a (b * 2 ^ 8)) (c * 2 ^ 16)) (d * 2 ^ 24)))
shift_word l a b c d =
    let ec : c * 2 ^ 16 ≡ c * 2 ^ 8 * 2 ^ 8 = omega arith in
    let ed : d * 2 ^ 24 ≡ d * 2 ^ 16 * 2 ^ 8 = omega arith in
    let ed' : d * 2 ^ 16 ≡ d * 2 ^ 8 * 2 ^ 8 = omega arith in
    let x0 : ℕ = bit_xor l a in
    let x1 : ℕ = bit_xor (shift_bits 8 x0) b in
    let x2 : ℕ = bit_xor (shift_bits 8 x1) c in
    let x3 : ℕ = bit_xor (shift_bits 8 x2) d in
    let open0 : shift_bits 8
          (bit_xor l (bit_xor (bit_xor (bit_xor a (b * 2 ^ 8)) (c * 2 ^ 16)) (d * 2 ^ 24)))
        ≡ bit_xor (bit_xor x1 (c * 2 ^ 8)) (d * 2 ^ 16) =
      rw (
        ← xor_assoc l (bit_xor (bit_xor a (b * 2 ^ 8)) (c * 2 ^ 16)) (d * 2 ^ 24),
        ← xor_assoc l (bit_xor a (b * 2 ^ 8)) (c * 2 ^ 16),
        ← xor_assoc l a (b * 2 ^ 8),
        ec,
        ed,
        shift_bits-absorb 8 (bit_xor (bit_xor x0 (b * 2 ^ 8)) (c * 2 ^ 8 * 2 ^ 8)) (d * 2 ^ 16),
        shift_bits-absorb 8 (bit_xor x0 (b * 2 ^ 8)) (c * 2 ^ 8),
        shift_bits-absorb 8 x0 b,
      ) in
    let open1 : shift_bits 8 (bit_xor (bit_xor x1 (c * 2 ^ 8)) (d * 2 ^ 16))
        ≡ bit_xor x2 (d * 2 ^ 8) =
      rw
        (ed', shift_bits-absorb 8 (bit_xor x1 (c * 2 ^ 8)) (d * 2 ^ 8), shift_bits-absorb 8 x1 c) in
    let open2 : shift_bits 8 (bit_xor x2 (d * 2 ^ 8)) ≡ x3 = shift_bits-absorb 8 x2 d in
    sym (
      shift_bits-add 8 24
        (bit_xor l (bit_xor (bit_xor (bit_xor a (b * 2 ^ 8)) (c * 2 ^ 16)) (d * 2 ^ 24)))
      ∙ ap (shift_bits 24) open0
      ∙ shift_bits-add 8 16 (bit_xor (bit_xor x1 (c * 2 ^ 8)) (d * 2 ^ 16))
      ∙ ap (shift_bits 16) open1
      ∙ shift_bits-add 8 8 (bit_xor x2 (d * 2 ^ 8))
      ∙ ap (shift_bits 8) open2)

-- The word at a position, and what it does to the register.
pub read_word :
    (buf : List ℕ) (p : ℕ)
    → All IsByte buf
    → p + 4 ≤ length buf
    → (w : ℕ) × (read_uint32_le buf p ≡ some w)
      × IsU32 w
      × ((l : ℕ) → run buf p 4 l ≡ shift_bits 32 (bit_xor l w))
unfolding decode_fixed32
read_word buf p all h =
    let (a, ga) = get_elem?-lt buf p (omega arith) in
    let (b, gb) = get_elem?-lt buf (p + 1) (omega arith) in
    let (c, gc) = get_elem?-lt buf (p + 2) (omega arith) in
    let (d, gd) = get_elem?-lt buf (p + 3) (omega arith) in
    let ha : IsByte a = All-get IsByte buf p a all ga in
    let hb : IsByte b = All-get IsByte buf (p + 1) b all gb in
    let hc : IsByte c = All-get IsByte buf (p + 2) c all gc in
    let hd : IsByte d = All-get IsByte buf (p + 3) d all gd in
    let p2 : p + 1 + 1 ≡ p + 2 = omega arith in
    let p3 : p + 2 + 1 ≡ p + 3 = omega arith in
    let as_xor = or-four a b c d ha hb hc hd ∙ sym (xor-four a b c d ha hb hc) in
    (
      bit_xor (bit_xor (bit_xor a (b * 2 ^ 8)) (c * 2 ^ 16)) (d * 2 ^ 24),
      rw (ga, gb, gc, gd, as_xor),
      rw (xor-four a b c d ha hb hc) (omega arith),
      λ l.
          rw
            (
              run-suc buf p 3 l a ga,
              run-suc buf (p + 1) 2 (shift_bits 8 (bit_xor l a)) b gb,
              p2,
              run-suc buf (p + 2) 1 _ c gc,
              p3,
              run-suc buf (p + 3) 0 _ d gd,
              run-zero,
            )
            (shift_word l a b c d),
    )
