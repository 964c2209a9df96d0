-- ===== src/Writable/Sequence.antt =====
-- A client that calls Append any number of times and then FlushBUffer.
use tiny_leveldb.Prelude.{
  ℕ, ◌+◌, ◌^◌, ◌<◌, ◌≡◌, refl, ◌∙◌, ap, sym, List, [], ◌∷◌, ◌++◌, append_assoc, append-nil, Option,
  some, ◌>>=◌, length, All,
}
use tiny_leveldb.Writable.{Status, WritableFile, flush_buffer, append}
use tiny_leveldb.Writable.Loop.{MakesProgress}
use tiny_leveldb.Writable.Append.{IsValid, appended, append_lem, flush_buffer_lem}

-- The bytes behind a full buffer can be counted in an `int`.
abbrev pub IsSmall : List ℕ → Type 0
IsSmall bytes = length bytes + 1024 < 2 ^ 31

abbrev pub concat : List (List ℕ) → List ℕ
concat [] = []
concat (bytes ∷ chunks) = bytes ++ concat chunks

module _ {File : Type 0} (write : File → List ℕ → Option ℕ × File) where
  -- One call of `Append` for each chunk.
  unfoldable pub append_all : WritableFile File → List (List ℕ) → Option (WritableFile File)
  unfolding append
  append_all w [] = some w
  append_all w (bytes ∷ chunks) = do (s, w) ← append write w bytes; append_all w chunks

module _ {File : Type 0} (contents : File → List ℕ) (write : File → List ℕ → Option ℕ × File)
    (progress : MakesProgress contents write) where
  append_all_lem :
      (w : WritableFile File) (chunks : List (List ℕ))
      → IsValid w
      → All IsSmall chunks
      → (out : WritableFile File) × (append_all write w chunks ≡ some out)
        × IsValid out
        × (appended contents out ≡ appended contents w ++ concat chunks)
  unfolding append_all
  append_all_lem w [] v short = (w, refl, v, sym (append-nil _))
  append_all_lem w (bytes ∷ chunks) v short =
      let (mid, eq, vm, all) = append_lem contents write progress w bytes v short.0 in
      let (out, eq', vo, all') = append_all_lem mid chunks vm short.1 in
      (
        out,
        rw (eq, eq'),
        vo,
        all' ∙ ap (λ (t : List ℕ). t ++ concat chunks) all ∙ append_assoc _ bytes (concat chunks),
      )

  -- After any sequence of Append calls and one of FlushBUffer, the file holds what it held, what was
  -- in the buffer, and the bytes of all calls in order, and the buffer is empty. write appends at
  -- least one byte and does not fail; each call has fewer than 2 ^ 31 - 1024 bytes.
  pub append_all-flush_buffer :
      (w : WritableFile File) (chunks : List (List ℕ))
      → IsValid w
      → All IsSmall chunks
      → (s : Status) × (out : WritableFile File) × ((append_all write w chunks
            >>= flush_buffer write)
          ≡ some (s, out))
        × (out.has_buffer_size ≡ 0)
        × (contents out.file ≡ appended contents w ++ concat chunks)
  append_all-flush_buffer w chunks v short =
      let (mid, eq, vm, all) = append_all_lem w chunks v short in
      let (s, out, eq', vo, empty, held) = flush_buffer_lem contents write progress mid vm in
      (s, out, rw (eq, eq'), empty, held ∙ all)
