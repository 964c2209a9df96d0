-- ===== src/FilterBlock/Read.antt =====
-- What `Finish` writes, and that the reader finds each filter in it.
use tiny_leveldb.Prelude.{
  ℕ, zero, suc, ◌+◌, ◌-◌, ◌*◌, ◌/◌, ◌≤◌, ◌≡◌, refl, ap, sym, ◌∙◌, arith, List, [], ◌∷◌, ◌++◌, map,
  append_assoc, append-nil, some, length, length-append, get_elem?, get_elem?-append_right,
  get_elem?-some, slice_at, slice_at-append, u32, IsU32, Holds-append, true, false, ltb, lt→ltb,
  ltb-ge,
}
use tiny_leveldb.Coding.{decode_fixed32}
use tiny_leveldb.Coding.RoundTrip.{fixed32, decode_fixed32_lem}
use tiny_leveldb.Bloom.{BloomFilterPolicy, key_may_match}
use tiny_leveldb.FilterBlock.{
  append_offsets, finish_offsets, k_filter_base, k_filter_base_lg, FilterBlockReader,
  filter_block_reader, ask_filter, ask_index, block_key_may_match,
}
use tiny_leveldb.FilterBlock.Segments.{
  flat, starts, bounds, starts-bounds, length-bounds, segment-Between,
}
use tiny_leveldb.FilterBlock.Build.{layout}
use tiny_leveldb.Coding.RoundTrip.{length-fixed32, encode_fixed32-fresh}
use tiny_leveldb.Prelude.{le→leb, IsShort, int_to_size_lem}

-- The offsets of a list of numbers, four bytes each.
unfoldable pub words : List ℕ → List ℕ
words [] = []
words (n ∷ ns) = fixed32 (u32 n) ++ words ns

words-append : (ms ns : List ℕ) → words (ms ++ ns) ≡ words ms ++ words ns
unfolding words
words-append [] ns = refl
words-append (m ∷ ms) ns =
    ap (◌++◌ (fixed32 (u32 m))) (words-append ms ns)
    ∙ sym (append_assoc (fixed32 (u32 m)) (words ms) (words ns))

pub length-words : (ns : List ℕ) → length (words ns) ≡ 4 * length ns
unfolding words fixed32
length-words [] = refl
length-words (n ∷ ns) = omega (arith, length-words ns)

-- The block with the given filters: the filters, their bounds, and the encoding parameter.
abbrev pub contents : List (List ℕ) → List ℕ
contents filters = flat filters ++ (words (bounds 0 filters) ++ (k_filter_base_lg ∷ []))

append_offsets-words :
    (ns result : List ℕ) → append_offsets (map u32 ns) result ≡ some (result ++ words ns)
unfolding append_offsets words
append_offsets-words [] result = ap some (sym (append-nil result))
append_offsets-words (n ∷ ns) result =
    rw (encode_fixed32-fresh (u32 n), append_offsets-words ns (result ++ fixed32 (u32 n)))
      (ap some (append_assoc result (fixed32 (u32 n)) (words ns)))

last_word : (n : ℕ) → words (n ∷ []) ≡ fixed32 (u32 n)
unfolding words
last_word n = append-nil (fixed32 (u32 n))

pub finish_offsets-contents :
    (p : BloomFilterPolicy) (pending filters : List (List ℕ))
    → finish_offsets (layout p pending filters) ≡ some (contents filters)
unfolding finish_offsets
finish_offsets-contents p pending filters =
    let size = length (flat filters) in
    rw
      (
        append_offsets-words (starts 0 filters) (flat filters),
        encode_fixed32-fresh (u32 size),
        ← starts-bounds 0 size filters (omega arith),
        words-append (starts 0 filters) (size ∷ []),
        last_word size,
      )
      (simp append_assoc)

-- The word at place `i` behind `before`.
pub decode-words :
    (before ns after : List ℕ) (i at n : ℕ)
    → get_elem? ns i ≡ some n
    → at ≡ length before + i * 4
    → IsU32 n
    → decode_fixed32 (before ++ (words ns ++ after)) at ≡ some n
unfolding words
decode-words before [] after i at n e h small = cc
decode-words before (m ∷ ns) after zero at n e h small =
    let same : u32 m ≡ n = let eq : m ≡ n = cc in omega arith in
    rw (same, append_assoc (fixed32 n) (words ns) after)
      (decode_fixed32_lem _ at n small
        (Holds-append before (fixed32 n) (words ns ++ after) at (omega arith)))
decode-words before (m ∷ ns) after (suc i) at n e h small =
    let word = fixed32 (u32 m) in
    rw (append_assoc word (words ns) after, ← append_assoc before word (words ns ++ after))
      (decode-words (before ++ word) ns after i at n e
        (omega (arith, length-append {0} before word, length-fixed32 (u32 m))) small)

bound-last :
    (n : ℕ) (xs : List (List ℕ)) → get_elem? (bounds n xs) (length xs) ≡ some (n + length (flat xs))
bound-last n [] = ap some (omega arith)
bound-last n (x ∷ xs) =
    bound-last (n + length x) xs ∙ ap some (omega (arith, length-append {0} x (flat xs)))

ask_filter-found :
    (r : FilterBlockReader) (bytes key : List ℕ) (start limit : ℕ) {filter : List ℕ}
    → start ≤ limit
    → limit ≤ r.offset
    → slice_at bytes start (limit - start) ≡ some filter
    → ask_filter r bytes key start limit ≡ key_may_match key filter
unfolding ask_filter
ask_filter-found r bytes key start limit h h' found =
    rw (found, le→leb start limit h, le→leb limit r.offset h')

module _ (filters : List (List ℕ)) (short : IsShort (contents filters)) where
  -- What the reader makes of the block.
  abbrev pub reader : FilterBlockReader
  reader = record {
    contents = some (contents filters);
    offset = length (flat filters);
    num = length filters;
    base_lg = k_filter_base_lg;
  }

  contents-length : length (contents filters) ≡ length (flat filters) + 4 * (length filters + 1) + 1
  contents-length = omega (
    arith,
    length-append {0} (flat filters) (words (bounds 0 filters) ++ (k_filter_base_lg ∷ [])),
    length-append {0} (words (bounds 0 filters)) (k_filter_base_lg ∷ []),
    length-words (bounds 0 filters),
    length-bounds 0 filters,
  )

  small : IsU32 (length (flat filters))
  small = omega (arith, contents-length)

  last_byte : get_elem? (contents filters) (length (contents filters) - 1) ≡ some k_filter_base_lg
  last_byte =
      get_elem?-append_right (flat filters) _ (4 * (length filters + 1)) _
        (omega (arith, contents-length))
      ∙ get_elem?-append_right (words (bounds 0 filters)) (k_filter_base_lg ∷ []) 0 _
          (omega (arith, length-words (bounds 0 filters), length-bounds 0 filters))

  array_offset :
      decode_fixed32 (contents filters) (length (contents filters) - 5)
      ≡ some (length (flat filters))
  array_offset =
      decode-words (flat filters) (bounds 0 filters) (k_filter_base_lg ∷ []) (length filters) _
        (length (flat filters)) (bound-last 0 filters ∙ ap some (omega arith))
        (omega (arith, contents-length)) small

  -- The reader opens a block that `Finish` wrote.
  pub filter_block_reader-contents : filter_block_reader (contents filters) ≡ some reader
  unfolding filter_block_reader
  filter_block_reader-contents =
      let n = int_to_size_lem (length (contents filters)) short in
      let long : ltb (length (contents filters)) 5 ≡ false =
        ltb-ge _ 5 (omega (arith, contents-length)) in
      let inside : ltb (length (contents filters) - 5) (length (flat filters)) ≡ false =
        ltb-ge _ _ (omega (arith, contents-length)) in
      let count : (length (contents filters) - 5 - length (flat filters)) / 4 ≡ length filters =
        omega (arith, contents-length) in
      rw (n, long, last_byte, array_offset, inside, count)

  ask_index-filter :
      (i : ℕ) (key filter : List ℕ)
      → get_elem? filters i ≡ some filter
      → ask_index reader i key ≡ key_may_match key filter
  unfolding ask_index
  ask_index-filter i key filter e =
      let b = segment-Between 0 i filters e in
      let flat_small : IsU32 (length (flat filters)) = small in
      let total : length (flat filters) ≡ length b.before + length filter + length b.after = omega (
        arith,
        ap length b.cuts,
        length-append {0} b.before (filter ++ b.after),
        length-append {0} filter b.after,
      ) in
      let from =
        decode-words (flat filters) (bounds 0 filters) (k_filter_base_lg ∷ []) i
          (length (flat filters) + i * 4) (0 + length b.before) b.from refl (omega arith) in
      let to =
        decode-words (flat filters) (bounds 0 filters) (k_filter_base_lg ∷ []) (suc i)
          (length (flat filters) + i * 4 + 4) (0 + length b.before + length filter) b.to
          (omega arith) (omega arith) in
      let found : slice_at (contents filters) (0 + length b.before)
            (0 + length b.before + length filter - (0 + length b.before))
          ≡ some filter =
        rw (b.cuts, append_assoc b.before, append_assoc filter)
          (slice_at-append b.before filter _ _ _ (omega arith) (omega arith)) in
      rw (from, to) (ask_filter-found reader _ key _ _ (omega arith) (omega arith) found)

  -- Asked for a block offset, the reader asks the filter of its 2 KB range, and says yes beyond the
  -- last filter.
  pub block_key_may_match-filter :
      (block_offset : ℕ) (key filter : List ℕ)
      → get_elem? filters (block_offset / k_filter_base) ≡ some filter
      → block_key_may_match reader block_offset key ≡ key_may_match key filter
  unfolding block_key_may_match
  block_key_may_match-filter block_offset key filter e =
      let inside = lt→ltb _ _ (get_elem?-some filters (block_offset / k_filter_base) e) in
      rw (inside, ask_index-filter (block_offset / k_filter_base) key filter e)

  pub block_key_may_match-beyond :
      (block_offset : ℕ) (key : List ℕ)
      → length filters ≤ block_offset / k_filter_base
      → block_key_may_match reader block_offset key ≡ some true
  unfolding block_key_may_match
  block_key_may_match-beyond block_offset key h = rw (ltb-ge _ _ h)
