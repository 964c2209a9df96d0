-- ===== src/Writable/Append.antt =====
-- Append and FlushBUffer over a write that makes progress: file and buffer together hold the bytes
-- in order.
use tiny_leveldb.Prelude.{
  ℕ, ◌+◌, ◌^◌, ◌≤◌, ◌<◌, ◌≡◌, refl, ◌∙◌, ap, sym, arith, List, ◌++◌, append_assoc, append-nil,
  Option, some, length, take, drop, take-append-drop, length-take, length-drop, length-append,
  length-replicate, take-append, memcpy, memcpy-append, slice_at-total, replicate, ltb, Bool-cases,
  inl, inr, leb, whole_slice_lem, false,
}
use tiny_leveldb.Writable.{
  Status, ok, io_error, WritableFile, max_buffer_size, flush_buffer, append_full, append,
}
use tiny_leveldb.Writable.Loop.{MakesProgress, write_to_file_lem}

-- The size of the buffer, and how much of it is used.
pub record IsValid {File : Type 0} (w : WritableFile File) : Type 0 where
  pub size : length w.buffer ≡ 1024
  pub used : w.has_buffer_size ≤ 1024

-- The bytes that were appended so far: those in the file and those in the buffer.
abbrev pub appended : {File : Type 0} → (File → List ℕ) → WritableFile File → List ℕ
appended contents w = contents w.file ++ take w.has_buffer_size w.buffer

-- Copying behind the used part extends it.
memcpy_behind :
    (buffer : List ℕ) (used : ℕ) (bytes : List ℕ)
    → used + length bytes ≤ length buffer
    → (out : List ℕ) × (memcpy buffer used bytes ≡ some out)
      × (length out ≡ length buffer)
      × (take (used + length bytes) out ≡ take used buffer ++ bytes)
memcpy_behind buffer used bytes h =
    let pre : List ℕ = take used buffer in
    let rest : List ℕ = drop used buffer in
    let at : used ≡ length pre = omega (arith, length-take {0} used buffer) in
    let room : length bytes ≤ length rest = omega (arith, length-drop {0} used buffer) in
    let both : length (pre ++ bytes) ≡ length pre + length bytes = length-append {0} pre bytes in
    let copied = memcpy-append pre rest bytes used at room in
    (
      (pre ++ bytes) ++ drop (length bytes) rest,
      rw (take-append-drop used buffer) at copied,
      omega (
        arith,
        length-append {0} (pre ++ bytes) (drop (length bytes) rest),
        both,
        length-drop {0} (length bytes) rest,
        length-drop {0} used buffer,
      ),
      take-append (pre ++ bytes) (drop (length bytes) rest) (used + length bytes)
          (omega (arith, both, at)),
    )

module _ {File : Type 0} (contents : File → List ℕ) (write : File → List ℕ → Option ℕ × File)
    (progress : MakesProgress contents write) where
  -- After FlushBUffer the buffer is empty and everything is in the file.
  pub flush_buffer_lem :
      (w : WritableFile File)
      → IsValid w
      → (s : Status) × (out : WritableFile File) × (flush_buffer write w ≡ some (s, out))
        × IsValid out
        × (out.has_buffer_size ≡ 0)
        × (contents out.file ≡ appended contents w)
  unfolding flush_buffer
  flush_buffer_lem w v = elim (Bool-cases (ltb 0 w.has_buffer_size)) [
    | inr nothing ↦
        let empty : w.has_buffer_size ≡ 0 = ground arith in
        (io_error, w, rw nothing, v, empty, rw (empty, append-nil))
    | inl something ↦
        let pending : List ℕ = take w.has_buffer_size w.buffer in
        let slice = slice_at-total w.buffer 0 w.has_buffer_size (omega (arith, v.size, v.used)) in
        let (file, eq, all) =
          write_to_file_lem contents write progress w.file pending
            (omega (arith, length-take {0} w.has_buffer_size w.buffer, v.used)) in
        (
          ok,
          record { file = file; buffer = replicate max_buffer_size 0; has_buffer_size = 0 },
          rw (something, slice, eq),
          record { size = length-replicate {A = ℕ} max_buffer_size 0; used = omega arith },
          refl,
          all,
        )
  ]

  append_full_lem :
      (w : WritableFile File) (bytes : List ℕ)
      → IsValid w
      → length bytes < 2 ^ 31
      → (out : WritableFile File) × (append_full write w bytes ≡ some (ok, out))
        × IsValid out
        × (appended contents out ≡ appended contents w ++ bytes)
  unfolding append_full
  append_full_lem w bytes v small =
      let (s, mid, flushed, vm, empty, all) = flush_buffer_lem w v in
      elim (Bool-cases (ltb max_buffer_size (length bytes))) [
        | inl large ↦
            let (file, eq, written) =
              write_to_file_lem contents write progress mid.file bytes (omega arith) in
            (
              record mid { file = file },
              rw (flushed, large, eq),
              record { size = vm.size; used = vm.used },
              rw (empty, append-nil, written, all),
            )
        | inr fits ↦
            let room : length bytes ≤ 1024 = ground arith in
            let (buffer, eq, size, taken) =
              memcpy_behind mid.buffer 0 bytes (omega (arith, vm.size)) in
            let start : 0 + length bytes ≡ length bytes = omega arith in
            (
              record mid { buffer = buffer; has_buffer_size = length bytes },
              rw (flushed, fits, eq),
              record { size = size ∙ vm.size; used = room },
              ap (◌++◌ (contents mid.file)) (rw start at taken)
                  ∙ ap (λ (t : List ℕ). t ++ bytes) all,
            )
      ]

  pub append_lem :
      (w : WritableFile File) (bytes : List ℕ)
      → IsValid w
      → length bytes + 1024 < 2 ^ 31
      → (out : WritableFile File) × (append write w bytes ≡ some (ok, out))
        × IsValid out
        × (appended contents out ≡ appended contents w ++ bytes)
  unfolding append
  append_lem w bytes v small =
      let whole = whole_slice_lem bytes (omega arith) in
      let no_overflow : leb (2 ^ 31) (w.has_buffer_size + length bytes) ≡ false =
        ground (arith, v.used) in
      elim (Bool-cases (ltb (w.has_buffer_size + length bytes) max_buffer_size)) [
        | inr full ↦
            let (out, eq, vo, all) = append_full_lem w bytes v (omega arith) in
            (out, rw (whole, no_overflow, full, eq), vo, all)
        | inl fits ↦
            let room : w.has_buffer_size + length bytes < 1024 = ground arith in
            let (buffer, eq, size, taken) =
              memcpy_behind w.buffer w.has_buffer_size bytes (omega (arith, v.size)) in
            (
              record w { buffer = buffer; has_buffer_size = w.has_buffer_size + length bytes },
              rw (whole, no_overflow, fits, eq),
              record { size = size ∙ v.size; used = omega arith },
              ap (◌++◌ (contents w.file)) taken
                  ∙ sym (append_assoc (contents w.file) (take w.has_buffer_size w.buffer) bytes),
            )
      ]
