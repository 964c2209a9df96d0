-- ===== src/Writable/Tests.antt =====
-- WritableFile over a write that takes three bytes at most, and over one that fails.
use tiny_leveldb.Prelude.{
  ℕ, ◌≡◌, refl, arith, List, [], ◌∷◌, ◌++◌, Option, none, some, ◌>>=◌, length, take, replicate, min,
}
use tiny_leveldb.Writable.{Status, ok, WritableFile, write_to_file, flush_buffer}
use tiny_leveldb.Writable.Loop.{MakesProgress, write_to_file-lost}
use tiny_leveldb.Writable.Append.{IsValid, appended}
use tiny_leveldb.Writable.Sequence.{append_all, concat, append_all-flush_buffer}

abbrev write_three : List ℕ → List ℕ → Option ℕ × List ℕ
write_three file bytes = (some (min 3 (length bytes)), file ++ take (min 3 (length bytes)) bytes)

abbrev contents : List ℕ → List ℕ
contents file = file

write_three-MakesProgress : MakesProgress contents write_three
write_three-MakesProgress file bytes h = record {
  count = min 3 (length bytes);
  counted = refl;
  some_bytes = omega arith;
  no_more = omega arith;
  appended = refl;
}

abbrev write_failed : List ℕ → List ℕ → Option ℕ × List ℕ
write_failed file bytes = (none, file)

abbrev opened : WritableFile (List ℕ)
opened = record { file = 9 ∷ []; buffer = replicate 1024 0; has_buffer_size = 0 }

opened-IsValid : IsValid opened
opened-IsValid = record { size = refl; used = omega arith }

abbrev chunks : List (List ℕ)
chunks = (1 ∷ 2 ∷ []) ∷ replicate 1024 7 ∷ (3 ∷ 4 ∷ 5 ∷ 6 ∷ []) ∷ []

-- Seven bytes in three calls of write.
write_to_file_seven :
    write_to_file write_three [] (1 ∷ 2 ∷ 3 ∷ 4 ∷ 5 ∷ 6 ∷ 7 ∷ [])
    ≡ some (ok, 1 ∷ 2 ∷ 3 ∷ 4 ∷ 5 ∷ 6 ∷ 7 ∷ [])
unfolding write_to_file
write_to_file_seven = refl

append_all-flush_buffer_example :
    (s : Status) × (out : WritableFile (List ℕ)) × ((append_all write_three opened chunks
        >>= flush_buffer write_three)
      ≡ some (s, out))
    × (out.has_buffer_size ≡ 0)
    × (contents out.file ≡ appended contents opened ++ concat chunks)
append_all-flush_buffer_example =
    append_all-flush_buffer contents write_three write_three-MakesProgress opened chunks
      opened-IsValid (omega arith, (omega arith, (omega arith, tt)))

write_to_file-lost_example : write_to_file write_failed (9 ∷ []) (1 ∷ 2 ∷ []) ≡ some (ok, 9 ∷ [])
write_to_file-lost_example = write_to_file-lost write_failed (9 ∷ []) 1 (2 ∷ []) (omega arith) refl
