-- ===== src/Arena.antt =====
-- db/arena.h: the arena. Pointers are addresses; `new char[size]` is the parameter `new`, which is
-- told the blocks that are live and the size. The constructor is declared in the source and defined
-- nowhere, so every statement starts from a state with the arena's invariant.
pub mod Valid
pub mod Requests
mod Tests
use tiny_leveldb.Prelude.{
  ℕ, ◌+◌, ◌-◌, ◌*◌, ◌/◌, ◌%◌, ◌^◌, List, [], ◌∷◌, ◌++◌, ltb, ◌==◌, if◌then◌else◌, u64, bit_and,
}

abbrev pub max_size : ℕ
max_size = 4096

-- `sizeof(void*)` and `sizeof(char*)`
abbrev pub pointer_size : ℕ
pointer_size = 8

-- A stretch of memory: a block, or what a caller was given.
pub record Region : Type 0 where
  pub base : ℕ
  pub size : ℕ

pub record Arena : Type 0 where
  pub block : List Region
  pub alloc_ptr : ℕ
  pub alloc_ptr_remain : ℕ
  pub using_block : ℕ

-- A pointer that is returned, and the arena behind the call.
pub record Allocated : Type 0 where
  pub result : ℕ
  pub arena : Arena

-- `MemoryUsage()`
unfoldable pub memory_usage : Arena → ℕ
memory_usage a = a.using_block

-- The size with the padding that `AllocateAligned` adds.
unfoldable pub aligned_need : ℕ → Arena → ℕ
aligned_need need_size a =
    let mod_ = bit_and a.alloc_ptr (pointer_size - 1) in
    u64 (need_size + (if mod_ == 0 then 0 else pointer_size - mod_))

module _ (new : List Region → ℕ → ℕ) where
  -- `alloc_new_block(block_size)`
  unfoldable pub alloc_new_block : ℕ → Arena → Allocated
  alloc_new_block block_size a =
      let new_block = new a.block block_size in
      record {
        result = new_block;
        arena = record a {
          block = a.block ++ (record { base = new_block; size = block_size } ∷ []);
          using_block = u64 (a.using_block + (block_size + pointer_size));
        };
      }

  -- `alloc_fallback_block(need_size)`
  unfoldable pub alloc_fallback_block : ℕ → Arena → Allocated
  unfolding alloc_new_block
  alloc_fallback_block need_size a =
      let whole = alloc_new_block max_size a in
      if ltb (max_size / 4) need_size then alloc_new_block need_size a else record {
        result = whole.result;
        arena = record (whole.arena) {
          alloc_ptr = whole.result + need_size;
          alloc_ptr_remain = max_size - need_size;
        };
      }

  -- What both `Allocate` functions do once the size is known.
  unfoldable pub allocate_size : ℕ → Arena → Allocated
  unfolding alloc_fallback_block
  allocate_size need a =
      if ltb need a.alloc_ptr_remain
      then record {
        result = a.alloc_ptr;
        arena = record a {
          alloc_ptr = a.alloc_ptr + need;
          alloc_ptr_remain = a.alloc_ptr_remain - need;
        };
      }
      else alloc_fallback_block need a

  -- `Allocate(need_size)`
  unfoldable pub allocate : ℕ → Arena → Allocated
  unfolding allocate_size
  allocate need_size a = allocate_size need_size a

  -- `AllocateAligned(need_size)`
  unfoldable pub allocate_aligned : ℕ → Arena → Allocated
  unfolding aligned_need allocate_size
  allocate_aligned need_size a = allocate_size (aligned_need need_size a) a
