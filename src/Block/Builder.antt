-- ===== src/Block/Builder.antt =====
-- What Add writes: the shared prefix, and the length fields that come out short.
use tiny_leveldb.Prelude.{
  ℕ, zero, suc, ◌+◌, ◌-◌, ◌^◌, ◌≤◌, ◌<◌, ◌≡◌, ◌≢◌, refl, ◌∙◌, ap, sym, arith, true, false, List, [],
  ◌∷◌, ◌++◌, some, length, get_elem?, get_elem?-lt, drop, min, u32, u8, ◌==◌, append_assoc,
  append-nil, Bool-cases, inl, inr, ◌⊎◌, ◌>>>◌,
}
use tiny_leveldb.Block.{
  BlockBuilder, c_string, append_fixed32, shared_loop, shared_prefix, append_entry, add,
  next_counter,
}

-- A position up to which two keys agree, and behind which they do not or one of them ends.
pub record IsSharedFrom (start : ℕ) (key last_key : List ℕ) (shared : ℕ) : Type 0 where
  pub from : start ≤ shared
  pub within : shared ≤ min (length last_key) (length key)
  pub agrees : (i : ℕ) → start ≤ i → i < shared → get_elem? key i ≡ get_elem? last_key i
  pub stops :
      (shared ≡ min (length last_key) (length key))
      ⊎ (get_elem? key shared ≢ get_elem? last_key shared)

-- A byte that both keys have.
loop_step :
    (rounds : ℕ) (key last_key : List ℕ) (start k l : ℕ)
    → get_elem? key start ≡ some k
    → get_elem? last_key start ≡ some l
    → (k == l) ≡ true
    → u32 (start + 1) ≡ start + 1
    → shared_loop (suc rounds) key last_key start ≡ shared_loop rounds key last_key (start + 1)
unfolding shared_loop
loop_step rounds key last_key start k l get_k get_l same step = rw (get_k, get_l, same, step) refl

shared_loop_lem :
    (rounds : ℕ) (key last_key : List ℕ) (start : ℕ)
    → start + rounds ≡ min (length last_key) (length key)
    → min (length last_key) (length key) < 2 ^ 31
    → (shared : ℕ) × (shared_loop rounds key last_key start ≡ some shared)
      × IsSharedFrom start key last_key shared
unfolding shared_loop
shared_loop_lem zero key last_key start e small = (
  start,
  refl,
  record {
    from = omega arith;
    within = omega arith;
    agrees = λ i lo hi. absurd (omega arith);
    stops = inl (omega arith);
  },
)
shared_loop_lem (suc rounds) key last_key start e small =
    let step : u32 (start + 1) ≡ start + 1 = omega arith in
    let (k, get_k) = get_elem?-lt key start (omega arith) in
    let (l, get_l) = get_elem?-lt last_key start (omega arith) in
    elim (Bool-cases (k == l)) [
      | inl same ↦
          let here : k ≡ l = ground arith in
          let (shared, eq, s) =
            shared_loop_lem rounds key last_key (start + 1) (omega arith) small in
          (
            shared,
            loop_step rounds key last_key start k l get_k get_l same step ∙ eq,
            record {
              from = omega (arith, s.from);
              within = s.within;
              agrees = λ i lo hi. elim (Bool-cases (i == start)) [
                | inl at ↦
                    let e' : i ≡ start = ground arith in rw e' (get_k ∙ ap some here ∙ sym get_l)
                | inr behind ↦ s.agrees i (ground arith) hi
              ];
              stops = s.stops;
            },
          )
      | inr differ ↦ (
        start,
        rw (get_k, get_l, differ),
        record {
          from = omega arith;
          within = omega arith;
          agrees = λ i lo hi. absurd (omega arith);
          stops = inr (λ h. ne k l differ (sym get_k ∙ h ∙ get_l));
        },
      )
    ]
  where
    ne : (k l : ℕ) → (k == l) ≡ false → some k ≢ some l
    ne k l d h = let e' : k ≡ l = cc in absurd (ground arith)

-- The loop of Add returns the length of the longest common prefix of the key and the last key, where
-- the shorter of the two has fewer than 2 ^ 31 bytes.
pub shared_prefix-IsSharedFrom :
    (key last_key : List ℕ)
    → min (length last_key) (length key) < 2 ^ 31
    → (shared : ℕ) × (shared_prefix key last_key ≡ some shared) × IsSharedFrom 0 key last_key shared
unfolding shared_prefix
shared_prefix-IsSharedFrom key last_key small =
    let rounds : u32 (min (length last_key) (length key)) ≡ min (length last_key) (length key) =
      omega arith in
    rw rounds
      (shared_loop_lem (min (length last_key) (length key)) key last_key 0 (omega arith) small)

c_string_small :
    (v : ℕ)
    → 0 < v
    → v < 2 ^ 8
    → c_string (u8 v ∷ u8 (v >>> 8) ∷ u8 (v >>> 16) ∷ u8 (v >>> 24) ∷ []) ≡ some (v ∷ [])
unfolding c_string
c_string_small v pos small =
    let low : u8 v ≡ v = omega arith in
    let nonzero : (v == 0) ≡ false = ground arith in
    let high : u8 (v >>> 8) ≡ 0 = omega arith in rw (low, nonzero, high)

append_fixed32_small :
    (buffer : List ℕ) (v : ℕ)
    → 0 < v
    → v < 2 ^ 8
    → append_fixed32 buffer v ≡ some (buffer ++ (v ∷ []))
unfolding append_fixed32
append_fixed32_small buffer v pos small = rw (c_string_small v pos small)

append_fixed32_zero : (buffer : List ℕ) → append_fixed32 buffer 0 ≡ some buffer
unfolding append_fixed32
append_fixed32_zero buffer = rw append-nil

append_entry_parts :
    (buffer : List ℕ) (shared : ℕ) (key value : List ℕ) {b1 b2 b3 : List ℕ}
    → append_fixed32 buffer shared ≡ some b1
    → append_fixed32 b1 (u32 (length key - shared)) ≡ some b2
    → append_fixed32 b2 (u32 (length value)) ≡ some b3
    → append_entry buffer shared key value ≡ some ((b3 ++ drop shared key) ++ value)
unfolding append_entry
append_entry_parts buffer shared key value e1 e2 e3 = rw (e1, e2, e3)

append_entry_small :
    (buffer key value : List ℕ)
    → 0 < length key
    → length key < 2 ^ 8
    → 0 < length value
    → length value < 2 ^ 8
    → append_entry buffer 0 key value
      ≡ some ((((buffer ++ (length key ∷ [])) ++ (length value ∷ [])) ++ key) ++ value)
append_entry_small buffer key value pos_key small_key pos_value small_value =
    let first : List ℕ = buffer ++ (length key ∷ []) in
    let key_field : u32 (length key - 0) ≡ length key = omega arith in
    let value_field : u32 (length value) ≡ length value = omega arith in
    let key_eq : append_fixed32 buffer (u32 (length key - 0)) ≡ some first =
      rw key_field (append_fixed32_small buffer (length key) pos_key small_key) in
    let value_eq : append_fixed32 first (u32 (length value)) ≡ some (first ++ (length value ∷ [])) =
      rw value_field (append_fixed32_small first (length value) pos_value small_value) in
    append_entry_parts buffer 0 key value (append_fixed32_zero buffer) key_eq value_eq

-- Add at the start of a group, of a key and a value of 1 to 255 bytes, appends two bytes for the
-- three length fields, not twelve: the zero bytes are lost.
pub add-fields_lost :
    (b : BlockBuilder) (key value : List ℕ)
    → b.counter ≡ 0
    → 0 < length key
    → length key < 2 ^ 8
    → 0 < length value
    → length value < 2 ^ 8
    → (out : BlockBuilder) × (add b key value ≡ some out)
      × (out.buffer ≡ b.buffer ++ (length key ∷ (length value ∷ (key ++ value))))
unfolding add
add-fields_lost b key value start pos_key small_key pos_value small_value =
    let first : List ℕ = b.buffer ++ (length key ∷ []) in
    let restart : (b.counter == 0) ≡ true = ground arith in
    (
      record b {
        buffer = ((first ++ (length value ∷ [])) ++ key) ++ value;
        restarts = b.restarts ++ (u32 (length b.buffer) ∷ []);
        last_key = key;
        counter = next_counter b.counter;
      },
      rw (restart, append_entry_small b.buffer key value pos_key small_key pos_value small_value),
      append_assoc (first ++ (length value ∷ [])) key value
          ∙ append_assoc first (length value ∷ []) (key ++ value)
          ∙ append_assoc b.buffer (length key ∷ []) (length value ∷ (key ++ value)),
    )
