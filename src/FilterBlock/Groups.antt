-- ===== src/FilterBlock/Groups.antt =====
-- A run of the builder: the keys of each 2 KB range form a group, and the last group waits.
use tiny_leveldb.Prelude.{
  ℕ, zero, suc, ◌≤◌, ◌≡◌, refl, ap, arith, List, [], ◌∷◌, ◌++◌, some, length, get_elem?, true, ◌⊎◌,
  inl, inr,
}
use tiny_leveldb.Bloom.{BloomFilterPolicy, key_may_match}
use tiny_leveldb.FilterBlock.{FilterBlockBuilder}
use tiny_leveldb.FilterBlock.Segments.{flat}
use tiny_leveldb.FilterBlock.Build.{layout, Covered}

-- The key is in the list, and in group `i`.
abbrev pub In : List ℕ → List (List ℕ) → Type 0
In key [] = ⊥
In key (x ∷ xs) = (x ≡ key) ⊎ In key xs

abbrev pub Groups : Type 0
Groups = List (List (List ℕ))

abbrev pub Has : Groups → ℕ → List ℕ → Type 0
Has [] i key = ⊥
Has (g ∷ gs) zero key = In key g
Has (g ∷ gs) (suc i) key = Has gs i key

abbrev pub Extends : Groups → Groups → Type 0
Extends gs hs = (i : ℕ) (key : List ℕ) → Has gs i key → Has hs i key

pub In-append_left : (key : List ℕ) (xs ys : List (List ℕ)) → In key xs → In key (xs ++ ys)
In-append_left key [] ys h = absurd h
In-append_left key (x ∷ xs) ys (inl e) = inl e
In-append_left key (x ∷ xs) ys (inr h) = inr (In-append_left key xs ys h)

pub In-snoc : (key : List ℕ) (xs : List (List ℕ)) → In key (xs ++ (key ∷ []))
In-snoc key [] = inl refl
In-snoc key (x ∷ xs) = inr (In-snoc key xs)

-- One more empty group, and one more key in the last group, keep what the groups have.
pub Extends-new :
    (done : Groups) (last : List (List ℕ))
    → Extends (done ++ (last ∷ [])) ((done ++ (last ∷ [])) ++ ([] ∷ []))
Extends-new [] last zero key h = h
Extends-new [] last (suc i) key h = absurd h
Extends-new (g ∷ done) last zero key h = h
Extends-new (g ∷ done) last (suc i) key h = Extends-new done last i key h

pub Extends-key :
    (done : Groups) (last : List (List ℕ)) (new : List ℕ)
    → Extends (done ++ (last ∷ [])) (done ++ ((last ++ (new ∷ [])) ∷ []))
Extends-key [] last new zero key h = In-append_left key last (new ∷ []) h
Extends-key [] last new (suc i) key h = absurd h
Extends-key (g ∷ done) last new zero key h = h
Extends-key (g ∷ done) last new (suc i) key h = Extends-key done last new i key h

pub Has-last :
    (done : Groups) (last : List (List ℕ)) (key : List ℕ) (i : ℕ)
    → i ≡ length done
    → In key last
    → Has (done ++ (last ∷ [])) i key
Has-last [] last key zero e h = h
Has-last [] last key (suc i) e h = absurd (omega arith)
Has-last (g ∷ done) last key zero e h = absurd (omega arith)
Has-last (g ∷ done) last key (suc i) e h = Has-last done last key i (omega arith) h

-- Each filter covers its group.
abbrev pub Covers : Groups → List (List ℕ) → Type 0
Covers [] [] = Unit {0}
Covers [] (f ∷ fs) = ⊥
Covers (g ∷ gs) [] = ⊥
Covers (g ∷ gs) (f ∷ fs) = Covered g f × Covers gs fs

pub Covers-snoc :
    (gs : Groups) (fs : List (List ℕ)) (g : List (List ℕ)) (f : List ℕ)
    → Covers gs fs
    → Covered g f
    → Covers (gs ++ (g ∷ [])) (fs ++ (f ∷ []))
Covers-snoc [] [] g f h c = (c, tt)
Covers-snoc [] (f' ∷ fs) g f h c = absurd h
Covers-snoc (g' ∷ gs) [] g f h c = absurd h
Covers-snoc (g' ∷ gs) (f' ∷ fs) g f h c = (h.0, Covers-snoc gs fs g f h.1 c)

pub Covers-length : (gs : Groups) (fs : List (List ℕ)) → Covers gs fs → length gs ≡ length fs
Covers-length [] [] h = refl
Covers-length [] (f ∷ fs) h = absurd h
Covers-length (g ∷ gs) [] h = absurd h
Covers-length (g ∷ gs) (f ∷ fs) h = ap suc (Covers-length gs fs h.1)

Covered-In :
    (g : List (List ℕ)) (f key : List ℕ) → Covered g f → In key g → key_may_match key f ≡ some true
Covered-In [] f key c h = absurd h
Covered-In (x ∷ g) f key c (inl e) = rw (← e) c.0
Covered-In (x ∷ g) f key c (inr h) = Covered-In g f key c.1 h

pub Covers-Has :
    (gs : Groups) (fs : List (List ℕ)) (i : ℕ) (key : List ℕ)
    → Covers gs fs
    → Has gs i key
    → (f : List ℕ) × (get_elem? fs i ≡ some f) × (key_may_match key f ≡ some true)
Covers-Has [] fs i key c h = absurd h
Covers-Has (g ∷ gs) [] i key c h = absurd c
Covers-Has (g ∷ gs) (f ∷ fs) zero key c h = (f, refl, Covered-In g f key c.0 h)
Covers-Has (g ∷ gs) (f ∷ fs) (suc i) key c h = Covers-Has gs fs i key c.1 h

-- The builder `b` has written a filter for each group but the last, whose keys wait; `count` and
-- `bytes` bound the waiting keys.
pub record Built (p : BloomFilterPolicy) (b : FilterBlockBuilder) (index count bytes : ℕ)
    (groups : Groups) : Type 0 where
  pub done : Groups
  pub pending : List (List ℕ)
  pub filters : List (List ℕ)
  pub shape : b ≡ layout p pending filters
  pub covers : Covers done filters
  pub at_index : length filters ≡ index
  pub parts : groups ≡ done ++ (pending ∷ [])
  pub counted : length pending ≤ count
  pub sized : length (flat pending) ≤ bytes
