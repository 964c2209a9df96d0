-- ===== src/Arena/Tests.antt =====
-- The arena on small inputs. The allocator of the tests places a block behind all others.
use tiny_leveldb.Prelude.{ℕ, ◌+◌, ◌%◌, ◌≤◌, ◌<◌, ◌≡◌, refl, arith, inl, inr, List, [], ◌∷◌, All}
use tiny_leveldb.Arena.{Region, Arena, aligned_need, allocate_aligned}
use tiny_leveldb.Arena.Valid.{IsValid, NewIsApart, Apart}
use tiny_leveldb.Arena.Requests.{Request, serve, serve-IsValid, allocate_aligned-mod}

-- The end of the blocks.
abbrev end_of : List Region → ℕ
end_of [] = 0x1000
end_of (b ∷ bs) = end_of bs + (b.base + b.size)

abbrev new_behind : List Region → ℕ → ℕ
new_behind bs size = end_of bs

Apart-from :
    (at size : ℕ) (bs : List Region)
    → end_of bs ≤ at
    → All (Apart (record { base = at; size = size })) bs
Apart-from at size [] h = tt
Apart-from at size (b ∷ bs) h = (inr (omega arith), Apart-from at size bs (omega arith))

new_behind-IsApart : NewIsApart new_behind
new_behind-IsApart bs size = Apart-from (end_of bs) size bs (omega arith)

abbrev empty : Arena
empty = record { block = []; alloc_ptr = 0; alloc_ptr_remain = 0; using_block = 0 }

empty-IsValid : IsValid empty []
empty-IsValid = record {
  free_inside = inl refl;
  free_apart = inl refl;
  held_inside = tt;
  held_apart = tt;
  usage = refl;
}

abbrev requests : List Request
requests = Request.plain 10 ∷ Request.aligned 16 ∷ Request.plain 5000 ∷ Request.plain 3 ∷ []

served_regions :
    (serve new_behind requests empty []).held
    ≡ record { base = 0x1020; size = 3 }
      ∷ record { base = 0x3000; size = 5000 }
      ∷ record { base = 0x100a; size = 16 }
      ∷ record { base = 0x1000; size = 10 }
      ∷ []
unfolding serve
served_regions = refl

serve-IsValid_example : let s = serve new_behind requests empty [] in IsValid s.arena s.held
serve-IsValid_example =
    serve-IsValid new_behind new_behind-IsApart requests empty []
      (omega arith, (omega arith, (omega arith, (omega arith, tt)))) empty-IsValid

abbrev odd : Arena
odd = record { block = []; alloc_ptr = 0x100a; alloc_ptr_remain = 100; using_block = 0 }

fits : aligned_need 16 odd < 100
unfolding aligned_need
fits = omega arith

allocate_aligned-mod_example :
    let r = allocate_aligned new_behind 16 odd in
    (r.result % 8 ≡ 0x100a % 8) × (16 % 8 ≡ 0 → r.arena.alloc_ptr % 8 ≡ 0)
allocate_aligned-mod_example = allocate_aligned-mod new_behind 16 odd fits
