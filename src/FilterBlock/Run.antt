-- ===== src/FilterBlock/Run.antt =====
-- Each operation of the builder, and every run of operations, keeps `Built`.
use tiny_leveldb.Prelude.{
  ℕ, zero, suc, ◌+◌, ◌*◌, ◌/◌, ◌^◌, ◌≤◌, ◌<◌, ◌≡◌, refl, ap, ◌∙◌, arith, List, [], ◌∷◌, ◌++◌, map,
  some, length, length-append, u32, lt→ltb, ltb-ge, le→leb,
}
use native.Mathlib.Decide.{dec_lt}
use tiny_leveldb.Bloom.{BloomFilterPolicy}
use tiny_leveldb.Bloom.Match.{Fits}
use tiny_leveldb.FilterBlock.{
  FilterBlockBuilder, generate_filter, start_block_loop, start_block, add_key, k_filter_base,
}
use tiny_leveldb.FilterBlock.Segments.{flat, flat-snoc, starts, length-starts}
use tiny_leveldb.FilterBlock.Build.{layout, Small, generate_filter-layout, add_key-layout}
use tiny_leveldb.FilterBlock.Groups.{
  Groups, Has, Extends, Built, In-snoc, Extends-new, Extends-key, Has-last, Covers-snoc,
  Covers-length,
}
use native.Mathlib.Nat.{mul-le-mul_right}

abbrev pub Room : BloomFilterPolicy → ℕ → ℕ → Type 0
Room p count bytes = Fits p count × (bytes < 2 ^ 31)

length-map-u32 : (ns : List ℕ) → length (map u32 ns) ≡ length ns
length-map-u32 [] = refl
length-map-u32 (n ∷ ns) = ap suc (length-map-u32 ns)

module _ {p : BloomFilterPolicy} {count bytes : ℕ} where
  pub Built-offsets :
      {b : FilterBlockBuilder} {index : ℕ} {groups : Groups}
      → Built p b index count bytes groups
      → length b.filter_offsets ≡ index
  Built-offsets h =
      rw h.shape (length-map-u32 (starts 0 h.filters) ∙ length-starts 0 h.filters ∙ h.at_index)

  pub Built-Small :
      {b : FilterBlockBuilder} {index : ℕ} {groups : Groups}
      (h : Built p b index count bytes groups)
      → Room p count bytes
      → Small p h.pending
  Built-Small h room =
      let few : length h.pending * p.bits_per_key ≤ count * p.bits_per_key =
        mul-le-mul_right p.bits_per_key h.counted in
      ((room.0.0, omega arith, omega arith), omega arith)

  -- `GenerateFilter` opens a new, empty group.
  pub generate_filter-Built :
      {b : FilterBlockBuilder} {index : ℕ} {groups : Groups}
      → Built p b index count bytes groups
      → Room p count bytes
      → (b' : FilterBlockBuilder) × (generate_filter b ≡ some b')
        × Built p b' (index + 1) count bytes (groups ++ ([] ∷ []))
        × Extends groups (groups ++ ([] ∷ []))
  generate_filter-Built h room =
      let (filter, made, covered) =
        generate_filter-layout p h.pending h.filters (Built-Small h room) in
      (
        layout p [] (h.filters ++ (filter ∷ [])),
        rw h.shape made,
        record {
          done = h.done ++ (h.pending ∷ []);
          pending = [];
          filters = h.filters ++ (filter ∷ []);
          shape = refl;
          covers = Covers-snoc h.done h.filters h.pending filter h.covers covered;
          at_index = omega (arith, length-append {0} h.filters (filter ∷ []), h.at_index);
          parts = rw h.parts;
          counted = omega arith;
          sized = omega arith;
        },
        rw h.parts (Extends-new h.done h.pending),
      )

  -- The loop of `StartBlock` reaches the wanted index.
  pub start_block_loop-Built :
      (fuel target : ℕ) {b : FilterBlockBuilder} {index : ℕ} {groups : Groups}
      → Built p b index count bytes groups
      → Room p count bytes
      → index ≤ target
      → target ≤ index + fuel
      → (b' : FilterBlockBuilder) × (groups' : Groups) × (start_block_loop fuel target b ≡ some b')
        × Built p b' target count bytes groups'
        × Extends groups groups'
  unfolding start_block_loop
  start_block_loop-Built zero target {b} {index} {groups} h room lo hi =
      let same : index ≡ target = omega arith in (b, groups, refl, rw (← same) h, λ i key has. has)
  start_block_loop-Built (suc fuel) target {b} {index} {groups} h room lo hi =
      elim (dec_lt index target) [
        | yes more ↦
            let (b1, made, h1, ext1) = generate_filter-Built h room in
            let (b2, groups2, made2, h2, ext2) =
              start_block_loop-Built fuel target h1 room (omega arith) (omega arith) in
            (
              b2,
              groups2,
              rw (Built-offsets h, lt→ltb index target more, made) made2,
              h2,
              λ i key has. ext2 i key (ext1 i key has),
            )
        | no done ↦
            let same : index ≡ target = omega arith in
            (
              b,
              groups,
              rw (Built-offsets h, ltb-ge index target (omega arith)),
              rw (← same) h,
              λ i key has. has,
            )
      ]

  pub start_block-Built :
      (block_offset : ℕ) {b : FilterBlockBuilder} {index : ℕ} {groups : Groups}
      → Built p b index count bytes groups
      → Room p count bytes
      → index ≤ block_offset / k_filter_base
      → (b' : FilterBlockBuilder) × (groups' : Groups) × (start_block block_offset b ≡ some b')
        × Built p b' (block_offset / k_filter_base) count bytes groups'
        × Extends groups groups'
  unfolding start_block
  start_block-Built block_offset {b} {index} h room lo =
      let target = block_offset / k_filter_base in
      let (b', groups', e, h', ext) =
        start_block_loop-Built target target h room lo (omega arith) in
      (b', groups', rw (Built-offsets h, le→leb index target lo) e, h', ext)

  -- `AddKey` puts the key into the waiting group.
  pub add_key-Built :
      (key : List ℕ) {b : FilterBlockBuilder} {index : ℕ} {groups : Groups}
      → Built p b index count bytes groups
      → (groups' : Groups) × Built p (add_key key b) index (count + 1) (bytes + length key) groups'
        × Extends groups groups'
        × Has groups' index key
  add_key-Built key {index = index} h = (
    h.done ++ ((h.pending ++ (key ∷ [])) ∷ []),
    record {
      done = h.done;
      pending = h.pending ++ (key ∷ []);
      filters = h.filters;
      shape = rw h.shape (add_key-layout p h.pending h.filters key);
      covers = h.covers;
      at_index = h.at_index;
      parts = refl;
      counted = omega (arith, length-append {0} h.pending (key ∷ []), h.counted);
      sized =
          rw (flat-snoc h.pending key)
            (omega (arith, length-append {0} (flat h.pending) key, h.sized));
    },
    rw h.parts (Extends-key h.done h.pending key),
    Has-last h.done (h.pending ++ (key ∷ [])) key index
        (omega (arith, h.at_index, Covers-length h.done h.filters h.covers))
        (In-snoc key h.pending),
  )
