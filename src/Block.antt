-- ===== src/Block.antt =====
-- db/block.h, BlockBuilder: entries with shared prefixes, a restart point for each group. The lengths
-- are appended as C strings, `buffer.append(buf)`.
pub mod Builder
mod Tests
use tiny_leveldb.Prelude.{
  ℕ, zero, suc, ◌+◌, ◌-◌, ◌*◌, List, [], ◌∷◌, ◌++◌, Option, none, some, ◌>>=◌, length, get_elem?,
  drop, min, u32, leb, ◌==◌, if◌then◌else◌, Bool, true, false,
}
use tiny_leveldb.Coding.{encode_fixed32, fresh_buf}

abbrev pub group_size : ℕ
group_size = 20

pub record BlockBuilder : Type 0 where
  pub last_key : List ℕ
  pub buffer : List ℕ
  pub restarts : List ℕ
  pub counter : ℕ
  pub finished : Bool

-- The bytes that `append(const char*)` takes from an array: those before the first zero byte.
unfoldable pub c_string : List ℕ → Option (List ℕ)
c_string [] = none
c_string (b ∷ bytes) =
    let rest = (do rest ← c_string bytes; some (b ∷ rest)) in if b == 0 then some [] else rest

-- `EncodeFixed32(buf, value); buffer.append(buf);`
unfoldable pub append_fixed32 : List ℕ → ℕ → Option (List ℕ)
unfolding c_string encode_fixed32
append_fixed32 buffer value = do
  buf ← encode_fixed32 (fresh_buf 4) 0 value
  field ← c_string buf
  some (buffer ++ field)

-- `while (shared < min_length)`, with the rounds that are left.
unfoldable pub shared_loop : ℕ → List ℕ → List ℕ → ℕ → Option ℕ
shared_loop zero key last_key shared = some shared
shared_loop (suc rounds) key last_key shared = do
  k ← get_elem? key shared
  l ← get_elem? last_key shared
  let rest = shared_loop rounds key last_key (u32 (shared + 1))
  if k == l then rest else some shared

-- The loop with `min_length`, an `int` that the test of the loop takes for a `uint32_t` again.
unfoldable pub shared_prefix : List ℕ → List ℕ → Option ℕ
unfolding shared_loop
shared_prefix key last_key = shared_loop (u32 (min (length last_key) (length key))) key last_key 0

-- The fields, the rest of the key and the value.
unfoldable pub append_entry : List ℕ → ℕ → List ℕ → List ℕ → Option (List ℕ)
unfolding append_fixed32
append_entry buffer shared key value = do
  buffer ← append_fixed32 buffer shared
  buffer ← append_fixed32 buffer (u32 (length key - shared))
  buffer ← append_fixed32 buffer (u32 (length value))
  some ((buffer ++ drop shared key) ++ value)

-- The counter after an entry.
abbrev pub next_counter : ℕ → ℕ
next_counter counter = if leb group_size (counter + 1) then 0 else counter + 1

-- `Add(key, value)` in the middle of a group.
unfoldable pub add_shared : BlockBuilder → List ℕ → List ℕ → Option BlockBuilder
unfolding shared_prefix append_entry
add_shared b key value = do
  shared ← shared_prefix key b.last_key
  buffer ← append_entry b.buffer shared key value
  some (record b { buffer = buffer; last_key = key; counter = next_counter b.counter })

-- `Add(key, value)` at the start of a group.
unfoldable pub add_restart : BlockBuilder → List ℕ → List ℕ → Option BlockBuilder
unfolding append_entry
add_restart b key value = do
  buffer ← append_entry b.buffer 0 key value
  some (record b {
    buffer = buffer;
    restarts = b.restarts ++ (u32 (length b.buffer) ∷ []);
    last_key = key;
    counter = next_counter b.counter;
  })

-- `Add(key, value)`
unfoldable pub add : BlockBuilder → List ℕ → List ℕ → Option BlockBuilder
unfolding add_shared add_restart
add b key value = if b.counter == 0 then add_restart b key value else add_shared b key value

-- The loop of `Finish`.
unfoldable pub append_restarts : List ℕ → List ℕ → Option (List ℕ)
unfolding append_fixed32
append_restarts buffer [] = some buffer
append_restarts buffer (restart ∷ restarts) = do
  buffer ← append_fixed32 buffer restart
  append_restarts buffer restarts

-- `Finish()`; the slice it returns is the new buffer.
unfoldable pub finish_block : BlockBuilder → Option BlockBuilder
unfolding append_restarts
finish_block b = do
  buffer ← append_restarts b.buffer b.restarts
  buffer ← append_fixed32 buffer (u32 (length b.restarts))
  some (record b { buffer = buffer; finished = true })

-- `Reset()`
abbrev pub reset : BlockBuilder → BlockBuilder
reset b = record { last_key = []; buffer = []; restarts = []; counter = 0; finished = false }

-- `CurrentSizeEstimate()`
abbrev pub current_size_estimate : BlockBuilder → ℕ
current_size_estimate b = length b.buffer + length b.restarts * 4 + 4
