-- ===== src/Writable/Loop.antt =====
-- WriteToFile over a write that makes progress, and over one that fails.
use tiny_leveldb.Prelude.{
  ℕ, zero, suc, ◌+◌, ◌-◌, ◌^◌, ◌≤◌, ◌<◌, ◌≡◌, ◌∙◌, ap, sym, arith, true, false, List, [], ◌∷◌, ◌++◌,
  append_assoc, append-nil, Option, none, some, length, take, drop, take-append-drop, length-drop,
  drop-all, ltb, leb, u64, Bool-cases, inl, inr,
}
use tiny_leveldb.Writable.{ok, write_loop, write_to_file}

drop-drop : (m n : ℕ) (xs : List ℕ) → drop n (drop m xs) ≡ drop (m + n) xs
drop-drop zero n xs = let e : 0 + n ≡ n = omega arith in rw e
drop-drop (suc m) n [] =
    drop-all {0} n [] (omega arith) ∙ sym (drop-all {0} (suc m + n) [] (omega arith))
drop-drop (suc m) n (x ∷ xs) =
    let e : suc m + n ≡ suc (m + n) = omega arith in rw e (drop-drop m n xs)

take_then_drop : (m n : ℕ) (xs : List ℕ) → take n (drop m xs) ++ drop (m + n) xs ≡ drop m xs
take_then_drop m n xs =
    ap (◌++◌ (take n (drop m xs))) (sym (drop-drop m n xs)) ∙ take-append-drop n (drop m xs)

-- What a call of write does to the contents of a file when it does not fail: it appends a part of
-- the bytes, one at least.
pub record Progress {File : Type 0} (contents : File → List ℕ)
    (write : File → List ℕ → Option ℕ × File) (file : File) (bytes : List ℕ) : Type 0 where
  pub count : ℕ
  pub counted : (write file bytes).0 ≡ some count
  pub some_bytes : 0 < count
  pub no_more : count ≤ length bytes
  pub appended : contents (write file bytes).1 ≡ contents file ++ take count bytes

abbrev pub MakesProgress :
    {File : Type 0} → (File → List ℕ) → (File → List ℕ → Option ℕ × File) → Type 0
MakesProgress {File = File} contents write =
    (file : File) (bytes : List ℕ) → 0 < length bytes → Progress contents write file bytes

-- One round of the loop that wrote something: the last one, or one with more to come.
round_last :
    {File : Type 0} (write : File → List ℕ → Option ℕ × File) (rounds : ℕ) (file : File)
    (bytes : List ℕ) (offset next count : ℕ)
    → ltb offset (length bytes) ≡ true
    → (write file (drop offset bytes)).0 ≡ some count
    → u64 (offset + count) ≡ next
    → leb (length bytes) next ≡ true
    → write_loop write (suc rounds) file bytes offset
      ≡ some (ok, (write file (drop offset bytes)).1)
unfolding write_loop
round_last write rounds file bytes offset next count more counted en whole =
    rw (more, counted, en, whole)

round_next :
    {File : Type 0} (write : File → List ℕ → Option ℕ × File) (rounds : ℕ) (file : File)
    (bytes : List ℕ) (offset next count : ℕ)
    → ltb offset (length bytes) ≡ true
    → (write file (drop offset bytes)).0 ≡ some count
    → u64 (offset + count) ≡ next
    → leb (length bytes) next ≡ false
    → write_loop write (suc rounds) file bytes offset
      ≡ write_loop write rounds (write file (drop offset bytes)).1 bytes next
unfolding write_loop
round_next write rounds file bytes offset next count more counted en less =
    rw (more, counted, en, less)

module _ {File : Type 0} (contents : File → List ℕ) (write : File → List ℕ → Option ℕ × File)
    (progress : MakesProgress contents write) where
  write_loop_lem :
      (rounds : ℕ) (file : File) (bytes : List ℕ) (offset : ℕ)
      → offset ≤ length bytes
      → length bytes - offset ≤ rounds
      → length bytes < 2 ^ 63
      → (out : File) × (write_loop write rounds file bytes offset ≡ some (ok, out))
        × (contents out ≡ contents file ++ drop offset bytes)
  unfolding write_loop
  write_loop_lem zero file bytes offset h enough small =
      let done : ltb offset (length bytes) ≡ false = ground arith in
      let none_left = drop-all offset bytes (omega arith) in
      (file, rw done, rw (none_left, append-nil))
  write_loop_lem (suc rounds) file bytes offset h enough small =
      elim (Bool-cases (ltb offset (length bytes))) [
        | inr done ↦
            let none_left = drop-all offset bytes (ground arith) in
            (file, rw done, rw (none_left, append-nil))
        | inl more ↦
            let lt : offset < length bytes = ground arith in
            let p =
              progress file (drop offset bytes) (omega (arith, length-drop {0} offset bytes)) in
            let left = length-drop {0} offset bytes in
            let next : u64 (offset + p.count) ≡ offset + p.count = omega (arith, p.no_more, left) in
            let joined = ap (◌++◌ (contents file)) (take_then_drop offset p.count bytes) in
            let (out, eq, all) =
              write_loop_lem rounds (write file (drop offset bytes)).1 bytes (offset + p.count)
                (omega (arith, p.no_more, left)) (omega (arith, p.some_bytes)) small in
            let all' : contents out ≡ contents file ++ drop offset bytes =
              all
              ∙ ap (λ (t : List ℕ). t ++ drop (offset + p.count) bytes) p.appended
              ∙ append_assoc (contents file) (take p.count (drop offset bytes))
                  (drop (offset + p.count) bytes)
              ∙ joined in
            elim (Bool-cases (leb (length bytes) (offset + p.count))) [
              | inr less ↦ (
                out,
                round_next write rounds file bytes offset _ _ more p.counted next less ∙ eq,
                all',
              )
              | inl whole ↦
                  let none_left = drop-all (offset + p.count) bytes (ground arith) in
                  let e : contents (write file (drop offset bytes)).1
                      ≡ contents file ++ drop offset bytes =
                    p.appended
                    ∙ ap (◌++◌ (contents file)) (
                        sym (append-nil (take p.count (drop offset bytes)))
                        ∙ ap (◌++◌ (take p.count (drop offset bytes))) (sym none_left)
                        ∙ take_then_drop offset p.count bytes) in
                  (
                    (write file (drop offset bytes)).1,
                    round_last write rounds file bytes offset _ _ more p.counted next whole,
                    e,
                  )
            ]
      ]

  -- WriteToFile writes all bytes, in however many calls of write.
  pub write_to_file_lem :
      (file : File) (bytes : List ℕ)
      → length bytes < 2 ^ 63
      → (out : File) × (write_to_file write file bytes ≡ some (ok, out))
        × (contents out ≡ contents file ++ bytes)
  unfolding write_to_file
  write_to_file_lem file bytes small =
      write_loop_lem (length bytes) file bytes 0 (omega arith) (omega arith) small

-- When the first call of write fails on at least one byte, WriteToFile returns OK all the same, with
-- the file as that call left it; the bytes are fewer than 2 ^ 63.
pub write_to_file-lost :
    {File : Type 0} (write : File → List ℕ → Option ℕ × File) (file : File) (byte : ℕ)
    (bytes : List ℕ)
    → length (byte ∷ bytes) < 2 ^ 63
    → (write file (byte ∷ bytes)).0 ≡ none
    → write_to_file write file (byte ∷ bytes) ≡ some (ok, (write file (byte ∷ bytes)).1)
unfolding write_to_file write_loop
write_to_file-lost write file byte bytes small failed =
    let more : ltb 0 (suc (length bytes)) ≡ true = ground arith in
    let whole : leb (suc (length bytes)) (2 ^ 64 - 1) ≡ true = ground arith in
    rw (more, failed, whole)
