-- ===== src/Arena/Valid.antt =====
-- The arena's invariant: what callers hold lies inside the blocks and does not overlap, and the free
-- stretch is clear of it. Both `Allocate` functions keep it.
use tiny_leveldb.Prelude.{
  ℕ, ◌+◌, ◌-◌, ◌/◌, ◌≤◌, ◌<◌, ◌≡◌, refl, arith, ◌⊎◌, inl, inr, List, [], ◌∷◌, ◌++◌, lt→ltb, ltb-ge,
  u64, All, All-map,
}
use native.Mathlib.Decide.{dec_lt}
use tiny_leveldb.Arena.{
  Region, Arena, Allocated, max_size, pointer_size, alloc_new_block, alloc_fallback_block,
  allocate_size,
}

abbrev pub Inside : Region → Region → Type 0
Inside r b = (b.base ≤ r.base) × (r.base + r.size ≤ b.base + b.size)

abbrev pub Apart : Region → Region → Type 0
Apart r s = (r.base + r.size ≤ s.base) ⊎ (s.base + s.size ≤ r.base)

abbrev pub InSome : Region → List Region → Type 0
InSome r [] = ⊥
InSome r (b ∷ bs) = Inside r b ⊎ InSome r bs

abbrev pub PairsApart : List Region → Type 0
PairsApart [] = Unit {0}
PairsApart (r ∷ rs) = All (Apart r) rs × PairsApart rs

-- The bytes of the blocks, with a pointer for each.
abbrev pub block_bytes : List Region → ℕ
block_bytes [] = 0
block_bytes (b ∷ bs) = block_bytes bs + (b.size + pointer_size)

-- The stretch that the next small request is served from.
abbrev pub free_region : Arena → Region
free_region a = record { base = a.alloc_ptr; size = a.alloc_ptr_remain }

-- `held` are the regions that callers were given.
pub record IsValid (a : Arena) (held : List Region) : Type 0 where
  pub free_inside : (a.alloc_ptr_remain ≡ 0) ⊎ InSome (free_region a) a.block
  pub free_apart : (a.alloc_ptr_remain ≡ 0) ⊎ All (Apart (free_region a)) held
  pub held_inside : All (λ r. InSome r a.block) held
  pub held_apart : PairsApart held
  pub usage : a.using_block ≡ u64 (block_bytes a.block)

InSome-append_left : (r : Region) (bs cs : List Region) → InSome r bs → InSome r (bs ++ cs)
InSome-append_left r [] cs h = absurd h
InSome-append_left r (b ∷ bs) cs (inl h) = inl h
InSome-append_left r (b ∷ bs) cs (inr h) = inr (InSome-append_left r bs cs h)

InSome-snoc : (r b : Region) (bs : List Region) → Inside r b → InSome r (bs ++ (b ∷ []))
InSome-snoc r b [] h = inl h
InSome-snoc r b (c ∷ bs) h = inr (InSome-snoc r b bs h)

block_bytes-snoc :
    (bs : List Region) (b : Region)
    → block_bytes (bs ++ (b ∷ [])) ≡ block_bytes bs + (b.size + pointer_size)
block_bytes-snoc [] b = refl
block_bytes-snoc (c ∷ bs) b = omega (arith, block_bytes-snoc bs b)

-- A part of a new block is apart from all that lies in the old ones.
Apart-new :
    (s b r : Region) (bs : List Region) → Inside s b → All (Apart b) bs → InSome r bs → Apart s r
Apart-new s b r [] h apart i = absurd i
Apart-new s b r (c ∷ bs) h (inl lo, apart) (inl i) = inl (omega arith)
Apart-new s b r (c ∷ bs) h (inr hi, apart) (inl i) = inr (omega arith)
Apart-new s b r (c ∷ bs) h apart (inr i) = Apart-new s b r bs h apart.1 i

Apart-All :
    (s b : Region) (bs held : List Region)
    → Inside s b
    → All (Apart b) bs
    → All (λ r. InSome r bs) held
    → All (Apart s) held
Apart-All s b bs held h apart = All-map (λ r. Apart-new s b r bs h apart) held

-- A part of the free stretch is apart from what callers hold.
pub Apart-part : (s f r : Region) → Inside s f → Apart f r → Apart s r
Apart-part s f r h (inl lo) = inl (omega arith)
Apart-part s f r h (inr hi) = inr (omega arith)

pub InSome-part : (s f : Region) (bs : List Region) → Inside s f → InSome f bs → InSome s bs
InSome-part s f [] h i = absurd i
InSome-part s f (b ∷ bs) h (inl i) = inl (omega arith)
InSome-part s f (b ∷ bs) h (inr i) = inr (InSome-part s f bs h i)

pub Apart-sym : (r s : Region) → Apart r s → Apart s r
Apart-sym r s (inl h) = inr h
Apart-sym r s (inr h) = inl h

-- `new` returns memory outside the live blocks.
abbrev pub NewIsApart : (List Region → ℕ → ℕ) → Type 0
NewIsApart new =
    (bs : List Region) (size : ℕ) → All (Apart (record { base = new bs size; size = size })) bs

module _ (new : List Region → ℕ → ℕ) (apart : NewIsApart new) where
  abbrev handed : ℕ → Allocated → Region
  handed need r = record { base = r.result; size = need }

  -- The held regions stay inside when a block is added.
  held-more :
      (bs held : List Region) (b : Region)
      → All (λ r. InSome r bs) held
      → All (λ r. InSome r (bs ++ (b ∷ []))) held
  held-more bs held b = All-map (λ r. InSome-append_left r bs (b ∷ [])) held

  -- A request of its own block.
  large-IsValid :
      (need : ℕ) (a : Arena) (held : List Region)
      → IsValid a held
      → IsValid (alloc_new_block new need a).arena (handed need (alloc_new_block new need a) ∷ held)
  unfolding alloc_new_block
  large-IsValid need a held v =
      let b : Region = record { base = new a.block need; size = need } in
      record {
        free_inside = elim (v.free_inside) [
          | inl e ↦ inl e
          | inr i ↦ inr (InSome-append_left _ a.block _ i)
        ];
        free_apart = elim (v.free_apart) [
          | inl e ↦ inl e
          | inr f ↦ elim (v.free_inside) [
            | inl e ↦ inl e
            | inr i ↦ inr (
              Apart-sym b (free_region a)
                  (Apart-new b b (free_region a) a.block (omega arith) (apart a.block need) i),
              f,
            )
          ]
        ];
        held_inside =
            (InSome-snoc b b a.block (omega arith), held-more a.block held b v.held_inside);
        held_apart = (
          Apart-All b b a.block held (omega arith) (apart a.block need) v.held_inside,
          v.held_apart,
        );
        usage = omega (arith, block_bytes-snoc a.block b, v.usage);
      }

  -- A request that starts a new common block.
  small-IsValid :
      (need : ℕ) (a : Arena) (held : List Region)
      → need ≤ max_size / 4
      → IsValid a held
      → IsValid
          (alloc_fallback_block new need a).arena
          (handed need (alloc_fallback_block new need a) ∷ held)
  unfolding alloc_fallback_block
  small-IsValid need a held small v =
      let b : Region = record { base = new a.block max_size; size = max_size } in
      let part : Region = record { base = b.base; size = need } in
      let rest : Region = record { base = b.base + need; size = max_size - need } in
      rw (ltb-ge (max_size / 4) need small) (record {
        free_inside = inr (InSome-snoc rest b a.block (omega arith));
        free_apart = inr (
          inr (omega arith),
          Apart-All rest b a.block held (omega arith) (apart a.block max_size) v.held_inside,
        );
        held_inside =
            (InSome-snoc part b a.block (omega arith), held-more a.block held b v.held_inside);
        held_apart = (
          Apart-All part b a.block held (omega arith) (apart a.block max_size) v.held_inside,
          v.held_apart,
        );
        usage = omega (arith, block_bytes-snoc a.block b, v.usage);
      })

  fallback-IsValid :
      (need : ℕ) (a : Arena) (held : List Region)
      → IsValid a held
      → IsValid
          (alloc_fallback_block new need a).arena
          (handed need (alloc_fallback_block new need a) ∷ held)
  fallback-IsValid need a held v = elim (dec_lt (max_size / 4) need) [
    | yes big ↦ unfold alloc_fallback_block in rw (lt→ltb _ _ big) (large-IsValid need a held v)
    | no little ↦ small-IsValid need a held (omega arith) v
  ]

  -- A request that the free stretch serves.
  served-IsValid :
      (need : ℕ) (a : Arena) (held : List Region)
      → need < a.alloc_ptr_remain
      → IsValid a held
      → IsValid
          (record a {
            alloc_ptr = a.alloc_ptr + need;
            alloc_ptr_remain = a.alloc_ptr_remain - need;
          })
          (record { base = a.alloc_ptr; size = need } ∷ held)
  served-IsValid need a held room v =
      let part : Region = record { base = a.alloc_ptr; size = need } in
      let rest : Region = record { base = a.alloc_ptr + need; size = a.alloc_ptr_remain - need } in
      let inside : InSome (free_region a) a.block = elim (v.free_inside) [
        | inl e ↦ absurd (omega arith)
        | inr i ↦ i
      ] in
      let clear : All (Apart (free_region a)) held = elim (v.free_apart) [
        | inl e ↦ absurd (omega arith)
        | inr f ↦ f
      ] in
      record {
        free_inside = inr (InSome-part rest (free_region a) a.block (omega arith) inside);
        free_apart = inr (
          inr (omega arith),
          All-map (λ r. Apart-part rest (free_region a) r (omega arith)) held clear,
        );
        held_inside =
            (InSome-part part (free_region a) a.block (omega arith) inside, v.held_inside);
        held_apart = (
          All-map (λ r. Apart-part part (free_region a) r (omega arith)) held clear,
          v.held_apart,
        );
        usage = v.usage;
      }

  pub allocate_size-IsValid :
      (need : ℕ) (a : Arena) (held : List Region)
      → IsValid a held
      → IsValid (allocate_size new need a).arena (handed need (allocate_size new need a) ∷ held)
  unfolding allocate_size
  allocate_size-IsValid need a held v = elim (dec_lt need a.alloc_ptr_remain) [
    | yes room ↦ rw (lt→ltb need a.alloc_ptr_remain room) (served-IsValid need a held room v)
    | no full ↦ rw (ltb-ge need a.alloc_ptr_remain (omega arith)) (fallback-IsValid need a held v)
  ]
