-- ===== src/FilterBlock/Build.antt =====
-- The builder as cut strings: what each operation does to the keys that wait and to the filters
-- that are written.
use tiny_leveldb.Prelude.{
  ℕ, ◌+◌, ◌^◌, ◌<◌, ◌≡◌, refl, ap, sym, ◌∙◌, arith, List, [], ◌∷◌, ◌++◌, map, append-nil, some,
  length, length-append, u32, All, true, IsShort,
}
use mathlib.Core.List.{map-append}
use tiny_leveldb.Bloom.{BloomFilterPolicy, key_may_match}
use tiny_leveldb.Bloom.Match.{Fits, create_filter-key_may_match}
use tiny_leveldb.FilterBlock.{FilterBlockBuilder, generate_filter, add_key}
use tiny_leveldb.FilterBlock.Segments.{
  flat, starts, flat-snoc, starts-snoc, starts-bounds, split_keys-bounds,
}

-- The builder whose `keys_` are cut into `pending` and whose `result_` is cut into `filters`.
abbrev pub layout : BloomFilterPolicy → List (List ℕ) → List (List ℕ) → FilterBlockBuilder
layout p pending filters = record {
  policy = p;
  keys = flat pending;
  start = starts 0 pending;
  result = flat filters;
  filter_offsets = map u32 (starts 0 filters);
}

-- The filter matches every key of the group.
abbrev pub Covered : List (List ℕ) → List ℕ → Type 0
Covered group filter = All (λ key. key_may_match key filter ≡ some true) group

-- The waiting keys can be counted in the types of the source.
abbrev pub Small : BloomFilterPolicy → List (List ℕ) → Type 0
Small p pending = Fits p (length pending) × (length (flat pending) < 2 ^ 31)

flat-IsShort : (keys : List (List ℕ)) → length (flat keys) < 2 ^ 31 → All IsShort keys
flat-IsShort [] small = tt
flat-IsShort (x ∷ xs) small = (
  omega (arith, length-append {0} x (flat xs)),
  flat-IsShort xs (omega (arith, length-append {0} x (flat xs))),
)

next_offset :
    (filters : List (List ℕ)) (filter : List ℕ)
    → map u32 (starts 0 filters) ++ (u32 (length (flat filters)) ∷ [])
      ≡ map u32 (starts 0 (filters ++ (filter ∷ [])))
next_offset filters filter =
    sym (map-append u32 (starts 0 filters) (length (flat filters) ∷ []))
    ∙ ap (map u32) (sym (starts-snoc 0 (length (flat filters)) filters filter (omega arith)))

-- `GenerateFilter` turns the waiting keys into one more filter, which covers them.
pub generate_filter-layout :
    (p : BloomFilterPolicy) (pending filters : List (List ℕ))
    → Small p pending
    → (filter : List ℕ) × (generate_filter (layout p pending filters)
        ≡ some (layout p [] (filters ++ (filter ∷ []))))
      × Covered pending filter
unfolding generate_filter
generate_filter-layout p [] filters small =
    ([], rw (next_offset filters [], flat-snoc filters [], append-nil), tt)
generate_filter-layout p (x ∷ xs) filters small =
    let (filter, made, _, _, covered) =
      create_filter-key_may_match p (x ∷ xs) (flat filters) small.0
        (flat-IsShort (x ∷ xs) small.1) in
    let cuts = split_keys-bounds [] 0 x xs refl (omega arith) in
    let ends =
      starts-bounds (0 + length x) (length (x ++ flat xs)) xs
        (omega (arith, length-append {0} x (flat xs))) in
    (filter, rw (ends, cuts, made, next_offset filters filter, flat-snoc filters filter), covered)

-- `AddKey` is one more waiting key.
pub add_key-layout :
    (p : BloomFilterPolicy) (pending filters : List (List ℕ)) (key : List ℕ)
    → add_key key (layout p pending filters) ≡ layout p (pending ++ (key ∷ [])) filters
unfolding add_key
add_key-layout p pending filters key =
    rw (flat-snoc pending key, starts-snoc 0 (length (flat pending)) pending key (omega arith))
