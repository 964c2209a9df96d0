-- ===== src/Arena/Requests.antt =====
-- Sequences of requests, and the alignment of what `AllocateAligned` returns.
use tiny_leveldb.Prelude.{
  ℕ, ◌+◌, ◌%◌, ◌<◌, ◌≡◌, refl, arith, List, [], ◌∷◌, lt→ltb, ◌^◌, ◌≤◌, All, All-map, inl, inr,
}
use tiny_leveldb.Prelude.Bits.{bit_and-mask}
use tiny_leveldb.Arena.{Region, Arena, Allocated, allocate, allocate_aligned, aligned_need}
use tiny_leveldb.Arena.Valid.{
  IsValid, NewIsApart, allocate_size-IsValid, Inside, Apart-sym, Apart-part, InSome-part,
  free_region,
}
use tiny_leveldb.Arena.{allocate_size}

-- `Allocate(n)` and `AllocateAligned(n)`
pub data Request : Type 0 where
  plain : ℕ → Request
  aligned : ℕ → Request

-- The bytes that a caller asks for.
abbrev pub asked : Request → ℕ
asked (plain n) = n
asked (aligned n) = n

-- The size with any padding is still a `size_t`.
abbrev pub HasRoom : Request → Type 0
HasRoom q = asked q + 7 < 2 ^ 64

-- The arena behind some requests, and the regions that callers then hold, the last first.
pub record Served : Type 0 where
  pub arena : Arena
  pub held : List Region

module _ (new : List Region → ℕ → ℕ) where
  unfoldable pub perform : Request → Arena → Allocated
  unfolding allocate allocate_aligned
  perform (plain n) a = allocate new n a
  perform (aligned n) a = allocate_aligned new n a

  unfoldable pub serve : List Request → Arena → List Region → Served
  unfolding perform
  serve [] a held = record { arena = a; held = held }
  serve (q ∷ qs) a held =
      let r = perform q a in serve qs r.arena (record { base = r.result; size = asked q } ∷ held)

-- The padded size is not below the size that is asked for.
aligned_need-le : (n : ℕ) (a : Arena) → n + 7 < 2 ^ 64 → n ≤ aligned_need n a
unfolding aligned_need
aligned_need-le n a room = ground (arith, bit_and-mask 3 a.alloc_ptr)

-- A caller that uses a part of its region.
IsValid-part :
    (s r : Region) (a : Arena) (held : List Region)
    → Inside s r
    → IsValid a (r ∷ held)
    → IsValid a (s ∷ held)
IsValid-part s r a held part v = record {
  free_inside = v.free_inside;
  free_apart = elim (v.free_apart) [
    | inl e ↦ inl e
    | inr (f, fs) ↦ inr (
      Apart-sym s (free_region a)
          (Apart-part s r (free_region a) part (Apart-sym (free_region a) r f)),
      fs,
    )
  ];
  held_inside = (InSome-part s r a.block part v.held_inside.0, v.held_inside.1);
  held_apart = (All-map (λ x. Apart-part s r x part) held v.held_apart.0, v.held_apart.1);
  usage = v.usage;
}

module _ (new : List Region → ℕ → ℕ) (apart : NewIsApart new) where
  perform-IsValid :
      (q : Request) (a : Arena) (held : List Region)
      → HasRoom q
      → IsValid a held
      → IsValid
          (perform new q a).arena
          (record { base = (perform new q a).result; size = asked q } ∷ held)
  unfolding perform
  perform-IsValid (plain n) a held room v = allocate_size-IsValid new apart n a held v
  perform-IsValid (aligned n) a held room v =
      let r = allocate_size new (aligned_need n a) a in
      IsValid-part (record { base = r.result; size = n })
        (record { base = r.result; size = aligned_need n a }) r.arena held
        (omega arith, omega (arith, aligned_need-le n a room))
        (allocate_size-IsValid new apart (aligned_need n a) a held v)

  -- Every sequence of `Allocate` and `AllocateAligned` keeps the invariant: the regions of the sizes
  -- that callers asked for, which are below 2 ^ 64 - 7, lie in the arena's blocks and do not overlap
  -- one another or the free stretch, and the reported usage is the bytes of all blocks with a pointer
  -- for each, modulo 2 ^ 64.
  pub serve-IsValid :
      (qs : List Request) (a : Arena) (held : List Region)
      → All HasRoom qs
      → IsValid a held
      → let s = serve new qs a held in IsValid s.arena s.held
  unfolding serve
  serve-IsValid [] a held room v = v
  serve-IsValid (q ∷ qs) a held room v =
      serve-IsValid qs _ _ room.1 (perform-IsValid q a held room.0 v)

-- Where the free stretch has room, `AllocateAligned` returns an aligned pointer only if the arena's
-- pointer was aligned already: it skips the padding behind the result and not before it.
pub allocate_aligned-mod :
    (new : List Region → ℕ → ℕ) (need_size : ℕ) (a : Arena)
    → aligned_need need_size a < a.alloc_ptr_remain
    → let r = allocate_aligned new need_size a in
      (r.result % 8 ≡ a.alloc_ptr % 8) × (need_size % 8 ≡ 0 → r.arena.alloc_ptr % 8 ≡ 0)
unfolding allocate_aligned
allocate_aligned-mod new need_size a room = rw (lt→ltb _ _ room) (refl, λ e. padded e)
  where
    padded : need_size % 8 ≡ 0 → (a.alloc_ptr + aligned_need need_size a) % 8 ≡ 0
    padded e = unfold aligned_need in ground (arith, bit_and-mask 3 a.alloc_ptr)
