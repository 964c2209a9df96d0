-- ===== src/FilterBlock/Segments.antt =====
-- A string that is cut into segments, and the positions of the cuts. The keys of one filter and the
-- filters of one block are both stored so.
use tiny_leveldb.Prelude.{
  ℕ, zero, suc, ◌+◌, ◌-◌, ◌^◌, ◌<◌, ◌≡◌, refl, ap, sym, ◌∙◌, arith, List, [], ◌∷◌, ◌++◌,
  append_assoc, append-nil, some, length, length-append, get_elem?, slice_at, slice_at-append, u64,
}
use tiny_leveldb.FilterBlock.{split_keys}

-- The segments one after the other.
abbrev pub flat : List (List ℕ) → List ℕ
flat [] = []
flat (x ∷ xs) = x ++ flat xs

-- Where each segment starts, for a first one that starts at `n`.
abbrev pub starts : ℕ → List (List ℕ) → List ℕ
starts n [] = []
starts n (x ∷ xs) = n ∷ starts (n + length x) xs

-- The same with the end of the last one.
abbrev pub bounds : ℕ → List (List ℕ) → List ℕ
bounds n [] = n ∷ []
bounds n (x ∷ xs) = n ∷ bounds (n + length x) xs

pub flat-append : (xs ys : List (List ℕ)) → flat (xs ++ ys) ≡ flat xs ++ flat ys
flat-append [] ys = refl
flat-append (x ∷ xs) ys = ap (◌++◌ x) (flat-append xs ys) ∙ sym (append_assoc x (flat xs) (flat ys))

pub flat-snoc : (xs : List (List ℕ)) (y : List ℕ) → flat (xs ++ (y ∷ [])) ≡ flat xs ++ y
flat-snoc xs y = flat-append xs (y ∷ []) ∙ ap (◌++◌ (flat xs)) (append-nil y)

-- A cut behind a new last segment is where the string ended before.
pub starts-snoc :
    (n e : ℕ) (xs : List (List ℕ)) (y : List ℕ)
    → e ≡ n + length (flat xs)
    → starts n (xs ++ (y ∷ [])) ≡ starts n xs ++ (e ∷ [])
starts-snoc n e [] y h = let h' : n ≡ e = omega arith in rw h'
starts-snoc n e (x ∷ xs) y h =
    ap (◌∷◌ n) (starts-snoc (n + length x) e xs y (omega (arith, length-append {0} x (flat xs))))

pub starts-bounds :
    (n e : ℕ) (xs : List (List ℕ))
    → e ≡ n + length (flat xs)
    → starts n xs ++ (e ∷ []) ≡ bounds n xs
starts-bounds n e [] h = let h' : e ≡ n = omega arith in rw h'
starts-bounds n e (x ∷ xs) h =
    ap (◌∷◌ n) (starts-bounds (n + length x) e xs (omega (arith, length-append {0} x (flat xs))))

pub length-starts : (n : ℕ) (xs : List (List ℕ)) → length (starts n xs) ≡ length xs
length-starts n [] = refl
length-starts n (x ∷ xs) = ap suc (length-starts (n + length x) xs)

pub length-bounds : (n : ℕ) (xs : List (List ℕ)) → length (bounds n xs) ≡ length xs + 1
length-bounds n [] = refl
length-bounds n (x ∷ xs) = omega (arith, length-bounds (n + length x) xs)

-- A segment lies between its cut and the next.
pub record Between (n i : ℕ) (xs : List (List ℕ)) (seg : List ℕ) : Type 0 where
  pub before : List ℕ
  pub after : List ℕ
  pub cuts : flat xs ≡ before ++ (seg ++ after)
  pub from : get_elem? (bounds n xs) i ≡ some (n + length before)
  pub to : get_elem? (bounds n xs) (suc i) ≡ some (n + length before + length seg)

first_bound : (n : ℕ) (xs : List (List ℕ)) → get_elem? (bounds n xs) 0 ≡ some n
first_bound n [] = refl
first_bound n (x ∷ xs) = refl

pub segment-Between :
    (n i : ℕ) (xs : List (List ℕ)) {seg : List ℕ} → get_elem? xs i ≡ some seg → Between n i xs seg
segment-Between n i [] e = cc
segment-Between n zero (x ∷ xs) {seg} e =
    let same : x ≡ seg = cc in
    record {
      before = [];
      after = flat xs;
      cuts = rw same;
      from = ap some (omega arith);
      to = rw same (first_bound (n + length seg) xs ∙ ap some (omega arith));
    }
segment-Between n (suc i) (x ∷ xs) {seg} e =
    let b = segment-Between (n + length x) i xs e in
    let size = length-append x b.before in
    record {
      before = x ++ b.before;
      after = b.after;
      cuts = ap (◌++◌ x) b.cuts ∙ sym (append_assoc x b.before (seg ++ b.after));
      from = b.from ∙ ap some (omega (arith, size));
      to = b.to ∙ ap some (omega (arith, size));
    }

cut_segment :
    (before x more : List ℕ) (n : ℕ)
    → n ≡ length before
    → length (before ++ (x ++ more)) < 2 ^ 64
    → slice_at (before ++ (x ++ more)) n (u64 (n + length x + 2 ^ 64 - n)) ≡ some x
cut_segment before x more n e small =
    slice_at-append before x more n _ e
      (omega (arith, length-append {0} before (x ++ more), length-append {0} x more))

-- `GenerateFilter` cuts the flattened keys into the keys again.
pub split_keys-bounds :
    (before : List ℕ) (n : ℕ) (x : List ℕ) (xs : List (List ℕ))
    → n ≡ length before
    → length (before ++ (x ++ flat xs)) < 2 ^ 64
    → split_keys (before ++ (x ++ flat xs)) n (bounds (n + length x) xs) ≡ some (x ∷ xs)
unfolding split_keys
split_keys-bounds before n x [] e small = rw (cut_segment before x [] n e small)
split_keys-bounds before n x (y ∷ ys) e small =
    let regroup = append_assoc before x (y ++ flat ys) in
    let rest =
      split_keys-bounds (before ++ x) (n + length x) y ys
        (omega (arith, length-append {0} before x)) (rw regroup small) in
    rw (cut_segment before x (y ++ flat ys) n e small, rw regroup at rest)
