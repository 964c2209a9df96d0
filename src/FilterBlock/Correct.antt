-- ===== src/FilterBlock/Correct.antt =====
-- The filter block as a whole: what is read back of a block after any run of the builder, and the
-- reader on contents that no builder wrote.
use tiny_leveldb.Prelude.{
  ℕ, zero, suc, ◌+◌, ◌*◌, ◌/◌, ◌≤◌, ◌≡◌, refl, ◌∙◌, arith, List, [], ◌∷◌, ◌++◌, some, Option, ◌>>=◌,
  length, get_elem?, IsShort, ◌⊎◌, inl, inr, ltb, Bool-cases, ◌^◌, All, All-map, true,
}
use tiny_leveldb.Bloom.{BloomFilterPolicy, key_may_match}
use tiny_leveldb.FilterBlock.{
  FilterBlockBuilder, filter_block_builder, start_block, add_key, finish, k_filter_base,
  FilterBlockReader, filter_block_reader, block_key_may_match,
}
use tiny_leveldb.FilterBlock.Build.{layout, generate_filter-layout}
use tiny_leveldb.FilterBlock.Read.{
  contents, finish_offsets-contents, filter_block_reader-contents, block_key_may_match-filter,
}
use tiny_leveldb.FilterBlock.Groups.{Groups, Has, Extends, Built, Covers, Covers-Has, Covers-snoc}
use tiny_leveldb.FilterBlock.Run.{Room, Built-Small, start_block-Built, add_key-Built}
use native.Mathlib.Nat.{mul-le-mul_right, add-zero}
use native.Mathlib.Nat.{zero-add}
use tiny_leveldb.FilterBlock.Build.{Small}
use tiny_leveldb.FilterBlock.Read.{reader}

-- The calls of a client, `(StartBlock AddKey*)*`.
pub data Call : Type 0 where
  block : ℕ → Call
  key : List ℕ → Call

unfoldable pub run : List Call → FilterBlockBuilder → Option FilterBlockBuilder
run [] b = some b
run (block block_offset ∷ calls) b = do b ← start_block block_offset b; run calls b
run (key k ∷ calls) b = run calls (add_key k b)

-- The keys that are added, each with the block offset that was started last.
abbrev pub added : ℕ → List Call → List (ℕ × List ℕ)
added block_offset [] = []
added block_offset (block next ∷ calls) = added next calls
added block_offset (key k ∷ calls) = (block_offset, k) ∷ added block_offset calls

-- The block offsets do not fall.
abbrev pub Ascending : ℕ → List Call → Type 0
Ascending block_offset [] = Unit {0}
Ascending block_offset (block next ∷ calls) = (block_offset ≤ next) × Ascending next calls
Ascending block_offset (key k ∷ calls) = Ascending block_offset calls

abbrev pub key_count : List Call → ℕ
key_count [] = 0
key_count (block next ∷ calls) = key_count calls
key_count (key k ∷ calls) = key_count calls + 1

abbrev pub key_bytes : List Call → ℕ
key_bytes [] = 0
key_bytes (block next ∷ calls) = key_bytes calls
key_bytes (key k ∷ calls) = key_bytes calls + length k

Room-le : (p : BloomFilterPolicy) {n w m v : ℕ} → Room p n w → m ≤ n → v ≤ w → Room p m v
Room-le p {n} {m = m} r h h' =
    let few : m * p.bits_per_key ≤ n * p.bits_per_key = mul-le-mul_right p.bits_per_key h in
    ((r.0.0, omega arith, omega arith), omega arith)

-- An empty last group has no key.
Has-empty_last : (done : Groups) (i : ℕ) (k : List ℕ) → Has (done ++ ([] ∷ [])) i k → Has done i k
Has-empty_last [] zero k h = absurd h
Has-empty_last [] (suc i) k h = absurd h
Has-empty_last (g ∷ done) zero k h = h
Has-empty_last (g ∷ done) (suc i) k h = Has-empty_last done i k h

-- Some filter matches each key of each group.
abbrev Matches : Groups → List (List ℕ) → Type 0
Matches groups filters =
    (i : ℕ) (k : List ℕ)
    → Has groups i k
    → (f : List ℕ) × (get_elem? filters i ≡ some f) × (key_may_match k f ≡ some true)

module _ (p : BloomFilterPolicy) where
  run-Built :
      (calls : List Call) (block_offset n w : ℕ) {b : FilterBlockBuilder} {groups : Groups}
      → Built p b (block_offset / k_filter_base) n w groups
      → Ascending block_offset calls
      → Room p (n + key_count calls) (w + key_bytes calls)
      → (b' : FilterBlockBuilder) × (index : ℕ) × (groups' : Groups) × (run calls b ≡ some b')
        × Built p b' index (n + key_count calls) (w + key_bytes calls) groups'
        × Extends groups groups'
        × All (λ e. Has groups' (e.0 / k_filter_base) e.1) (added block_offset calls)
  unfolding run
  run-Built [] block_offset n w {b} {groups} h asc room =
      (b, block_offset / k_filter_base, groups, refl, rw (add-zero, add-zero) h, λ i k has. has, tt)
  run-Built (block next ∷ calls) block_offset n w h asc room =
      let (b1, groups1, e1, h1, ext1) =
        start_block-Built next h (Room-le p room (omega arith) (omega arith)) (omega arith) in
      let (b2, index, groups2, e2, h2, ext2, all) = run-Built calls next n w h1 asc.1 room in
      (b2, index, groups2, rw e1 e2, h2, λ i k has. ext2 i k (ext1 i k has), all)
  run-Built (key k ∷ calls) block_offset n w h asc room =
      let (groups1, h1, ext1, has) = add_key-Built k h in
      let en : n + 1 + key_count calls ≡ n + (key_count calls + 1) = omega arith in
      let ew : w + length k + key_bytes calls ≡ w + (key_bytes calls + length k) = omega arith in
      let (b2, index, groups2, e2, h2, ext2, all) =
        run-Built calls block_offset (n + 1) (w + length k) h1 asc (rw (en, ew) room) in
      (
        b2,
        index,
        groups2,
        e2,
        rw (en, ew) at h2,
        λ i k has. ext2 i k (ext1 i k has),
        (ext2 _ k has, all),
      )

  finish-layout :
      (done : Groups) (pending filters : List (List ℕ))
      → Covers done filters
      → Small p pending
      → (filters' : List (List ℕ)) × (finish (layout p pending filters) ≡ some (contents filters'))
        × Matches (done ++ (pending ∷ [])) filters'
  unfolding finish
  finish-layout done [] filters covers small = (
    filters,
    finish_offsets-contents p [] filters,
    λ i k has. Covers-Has done filters i k covers (Has-empty_last done i k has),
  )
  finish-layout done (x ∷ xs) filters covers small =
      let (filter, made, covered) = generate_filter-layout p (x ∷ xs) filters small in
      (
        filters ++ (filter ∷ []),
        rw made (finish_offsets-contents p [] (filters ++ (filter ∷ []))),
        λ i k has. Covers-Has _ _ i k (Covers-snoc done filters (x ∷ xs) filter covers covered) has,
      )

  -- `Finish` writes the filters of all groups; a last group with no key has none.
  finish-Built :
      {b : FilterBlockBuilder} {index n w : ℕ} {groups : Groups}
      → Built p b index n w groups
      → Room p n w
      → (filters : List (List ℕ)) × (finish b ≡ some (contents filters)) × Matches groups filters
  finish-Built h room =
      rw (h.shape, h.parts) (finish-layout h.done h.pending h.filters h.covers (Built-Small h room))

empty-Built :
    (p : BloomFilterPolicy) → Built p (filter_block_builder p) (0 / k_filter_base) 0 0 ([] ∷ [])
unfolding filter_block_builder
empty-Built p = record {
  done = [];
  pending = [];
  filters = [];
  shape = refl;
  covers = tt;
  at_index = refl;
  parts = refl;
  counted = omega arith;
  sized = omega arith;
}

read_back :
    (filters : List (List ℕ)) (groups : Groups)
    → Matches groups filters
    → IsShort (contents filters)
    → (entries : List (ℕ × List ℕ)) → All (λ e. Has groups (e.0 / k_filter_base) e.1) entries
    → (r : FilterBlockReader) × (filter_block_reader (contents filters) ≡ some r)
      × All (λ e. block_key_may_match r e.0 e.1 ≡ some true) entries
read_back filters groups found small entries all = (
  reader filters small,
  filter_block_reader-contents filters small,
  All-map (λ e has. answer e (found _ e.1 has)) entries all,
)
  where
    answer :
        (e : ℕ × List ℕ)
        → ((f : List ℕ) × (get_elem? filters (e.0 / k_filter_base) ≡ some f)
            × (key_may_match e.1 f ≡ some true))
        → block_key_may_match (reader filters small) e.0 e.1 ≡ some true
    answer e (f, at, yes_) = block_key_may_match-filter filters small e.0 e.1 f at ∙ yes_

-- After any run of `StartBlock` and `AddKey` calls with block offsets that do not fall, `Finish`
-- returns a block. It has 2 ^ 31 bytes or more, or a reader opens it, and answers yes for every key
-- that was added, asked with the block offset under which it was added. The policy has at most 30
-- probes, and the number of all keys, the bytes of all keys and the bytes of one filter of all of them
-- fit an `int`.
pub block_key_may_match-finish :
    (p : BloomFilterPolicy) (calls : List Call)
    → Ascending 0 calls
    → Room p (key_count calls) (key_bytes calls)
    → (b : FilterBlockBuilder) × (bytes : List ℕ) × (run calls (filter_block_builder p) ≡ some b)
      × (finish b ≡ some bytes)
      × ((2 ^ 31 ≤ length bytes)
          ⊎ ((r : FilterBlockReader) × (filter_block_reader bytes ≡ some r)
              × All (λ e. block_key_may_match r e.0 e.1 ≡ some true) (added 0 calls)))
block_key_may_match-finish p calls asc room =
    let full : Room p (0 + key_count calls) (0 + key_bytes calls) = rw (zero-add, zero-add) room in
    let (b, index, groups, made, built, _, all) =
      run-Built p calls 0 0 0 (empty-Built p) asc full in
    let (filters, written, found) = finish-Built p built full in
    (
      b,
      contents filters,
      made,
      written,
      elim (Bool-cases (ltb (length (contents filters)) (2 ^ 31))) [
        | inl short ↦ inr (read_back filters groups found (ground arith) (added 0 calls) all)
        | inr long ↦ inl (ground arith)
      ],
    )
