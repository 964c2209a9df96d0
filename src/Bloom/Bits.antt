-- ===== src/Bloom/Bits.antt =====
-- One bit of a filter: what setting it does to the array.
use tiny_leveldb.Prelude.{
  ℕ, ◌+◌, ◌*◌, ◌/◌, ◌%◌, ◌<◌, ◌≡◌, ◌≢◌, refl, arith, true, List, some, length, get_elem?, set, u8,
  ◌<<<◌, bit_or, bit_and, ◌==◌, All, IsByte, All-get, All-set, length-set, get_elem?-lt,
  get_elem?-set_self, get_elem?-set_ne, ◌&&◌, ◌||◌, not, inl, inr,
}
use native.Mathlib.Decide.{ℕ_discrete}
use native.Mathlib.Nat.{zero-add}
use tiny_leveldb.Prelude.Bits.{every_below, every_below_lem}
use tiny_leveldb.Bloom.{set_bit}
use tiny_leveldb.Prelude.{◌⊎◌, ◌∙◌, store_lem}

abbrev bit_mask : ℕ → ℕ
bit_mask i = 1 <<< i

-- Setting bit `i` of a byte switches it on, and leaves on what was.
or_mask_table :
    every_below
      (λ i.
        every_below
          (λ j.
            every_below
              (λ b.
                not (bit_and (u8 (bit_or b (bit_mask i))) (bit_mask j) == 0)
                || (not (i == j) && (bit_and b (bit_mask j) == 0)))
              256)
          8)
      8
    ≡ true
unfolding every_below
or_mask_table = refl

mask_after :
    (b i j : ℕ)
    → IsByte b
    → i < 8
    → j < 8
    → (i ≡ j) ⊎ (bit_and b (bit_mask j) ≢ 0)
    → bit_and (u8 (bit_or b (bit_mask i))) (bit_mask j) ≢ 0
mask_after b i j hb hi hj on =
    let over_i = every_below_lem _ 8 i hi or_mask_table in
    let over_j = every_below_lem _ 8 j hj over_i in
    let here = every_below_lem _ 256 b hb over_j in ground arith

-- Bit `i` of the array is on.
abbrev pub BitOn : List ℕ → ℕ → Type 0
BitOn array i = (b : ℕ) × (get_elem? array (i / 8) ≡ some b) × (bit_and b (bit_mask (i % 8)) ≢ 0)

-- The array of a filter: so many bytes, and the byte that holds `k` behind them.
pub record IsFilter (bytes k : ℕ) (array : List ℕ) : Type 0 where
  pub size : length array ≡ bytes + 1
  pub all_bytes : All IsByte array
  pub last : get_elem? array bytes ≡ some k

module _ {bytes k : ℕ} (array : List ℕ) (p : ℕ) (f : IsFilter bytes k array)
    (h : p < bytes * 8) where
  -- What `array[p / 8] |= …` does to a byte `b` there.
  abbrev with_bit : ℕ → List ℕ
  with_bit b = set array (p / 8) (u8 (bit_or b (bit_mask (p % 8))))

  in_range : p / 8 < length array
  in_range = omega arith

  with_bit-IsFilter : (b : ℕ) → IsFilter bytes k (with_bit b)
  with_bit-IsFilter b = record {
    size = length-set array _ _ ∙ f.size;
    all_bytes = All-set IsByte array _ _ f.all_bytes (omega arith);
    last = get_elem?-set_ne array (p / 8) bytes _ (omega arith) ∙ f.last;
  }

  with_bit-keeps :
      (b : ℕ) → get_elem? array (p / 8) ≡ some b → (i : ℕ) → BitOn array i → BitOn (with_bit b) i
  with_bit-keeps b e i (c, ec, on) = elim (ℕ_discrete (p / 8) (i / 8)) [
    | yes same ↦
        let eb : get_elem? array (i / 8) ≡ some b = rw (← same) e in
        let ecb : c ≡ b = cc in
        (
          _,
          rw (← same) (get_elem?-set_self array (p / 8) _ in_range),
          mask_after b (p % 8) (i % 8) (All-get IsByte array _ b f.all_bytes e) (omega arith)
              (omega arith) (inr (rw (← ecb) on)),
        )
    | no apart ↦ (c, get_elem?-set_ne array (p / 8) (i / 8) _ apart ∙ ec, on)
  ]

  -- A bit in range can be set: it is on afterwards, and so is every bit that was on before.
  pub set_bit_lem :
      (out : List ℕ) × (set_bit array 0 p ≡ some out)
      × IsFilter bytes k out
      × BitOn out p
      × ((i : ℕ) → BitOn array i → BitOn out i)
  unfolding set_bit
  set_bit_lem =
      let (b, e) = get_elem?-lt array (p / 8) in_range in
      (
        with_bit b,
        rw (zero-add, e) (store_lem array (p / 8) _ in_range),
        with_bit-IsFilter b,
        (
          _,
          get_elem?-set_self array (p / 8) _ in_range,
          mask_after b (p % 8) (p % 8) (All-get IsByte array _ b f.all_bytes e) (omega arith)
              (omega arith) (inl refl),
        ),
        with_bit-keeps b e,
      )
