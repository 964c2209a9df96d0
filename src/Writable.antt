-- ===== src/Writable.antt =====
-- db/env.h, WritableFile: the buffer in front of a file. The system call write is a parameter: it
-- takes the file and the bytes, and returns the number it wrote, `none` for -1, with the file after
-- it. `none` of the functions here is an access outside an array, or a loop that has not ended.
pub mod Loop
pub mod Append
pub mod Sequence
mod Tests
use tiny_leveldb.Prelude.{
  ℕ, zero, suc, ◌+◌, ◌-◌, ◌^◌, List, Option, none, some, ◌>>=◌, length, drop, replicate, memcpy,
  slice_at, u64, whole_slice, ltb, leb, if◌then◌else◌,
}

-- `Status` of db/status.h
pub data Status : Type 0 where
  ok not_found corruption not_supported invalid_argument io_error : Status

abbrev pub max_buffer_size : ℕ
max_buffer_size = 1024

-- `WritableFile` without the fields that only `Fsync` reads; `file` stands for `fd`.
pub record WritableFile (File : Type 0) : Type 0 where
  pub file : File
  pub buffer : List ℕ
  pub has_buffer_size : ℕ

-- The result of write in a `size_t`: -1 is the greatest one, so `write_size < 0` never holds.
abbrev pub write_size : Option ℕ → ℕ
write_size none = 2 ^ 64 - 1
write_size (some n) = n

module _ {File : Type 0} (write : File → List ℕ → Option ℕ × File) where
  -- The loop of `WriteToFile`, with the rounds that are left.
  unfoldable pub write_loop : ℕ → File → List ℕ → ℕ → Option (Status × File)
  write_loop zero file bytes offset = if ltb offset (length bytes) then none else some (ok, file)
  write_loop (suc rounds) file bytes offset =
      let written = write file (drop offset bytes) in
      let next = u64 (offset + write_size written.0) in
      let rest = write_loop rounds written.1 bytes next in
      if ltb offset (length bytes)
      then (if leb (length bytes) next then some (ok, written.1) else rest)
      else some (ok, file)

  -- `WriteToFile(data)`; each round of a write that makes progress takes one byte at least.
  unfoldable pub write_to_file : File → List ℕ → Option (Status × File)
  unfolding write_loop
  write_to_file file bytes = write_loop (length bytes) file bytes 0

  -- `FlushBUffer()`
  unfoldable pub flush_buffer : WritableFile File → Option (Status × WritableFile File)
  unfolding write_to_file
  flush_buffer w =
      if ltb 0 w.has_buffer_size
      then (do
        pending ← slice_at w.buffer 0 w.has_buffer_size
        (s, file) ← write_to_file w.file pending
        let flushed : WritableFile File = record {
          file = file;
          buffer = replicate max_buffer_size 0;
          has_buffer_size = 0;
        }
        some (s, flushed))
      else some (io_error, w)

  -- `Append(data)` where the bytes do not fit behind those in the buffer.
  unfoldable pub append_full : WritableFile File → List ℕ → Option (Status × WritableFile File)
  unfolding flush_buffer write_to_file
  append_full w bytes = do
    (s, w) ← flush_buffer w
    if ltb max_buffer_size (length bytes)
        then (do (s, file) ← write_to_file w.file bytes; some (s, record w { file = file }))
        else (do
          buffer ← memcpy w.buffer 0 bytes
          some (ok, record w { buffer = buffer; has_buffer_size = length bytes }))

  -- `Append(data)`. The sum in its test is one of `int`; an overflow is undefined.
  unfoldable pub append : WritableFile File → List ℕ → Option (Status × WritableFile File)
  unfolding append_full whole_slice
  append w data_ = do
    bytes ← whole_slice data_
    if leb (2 ^ 31) (w.has_buffer_size + length bytes)
        then none
        else if ltb (w.has_buffer_size + length bytes) max_buffer_size
        then (do
          buffer ← memcpy w.buffer w.has_buffer_size bytes
          some (
            ok,
            record w { buffer = buffer; has_buffer_size = w.has_buffer_size + length bytes },
          ))
        else append_full w bytes
