-- ===== src/Memory.antt =====
-- kernel/memory/memory.c, the physical frame allocator. An address is its number; NULL is 0.
-- `bitmap` has the words behind the pointer `memory_bitmap` that `memory_init` clears: a word past
-- them is no part of the state, reads as 0 and is not written. The words lie in memory that `kmalloc`
-- hands out, and a store of another part into them is no step of the model (see Scheduler).
pub mod Frames
pub mod Usage
mod Tests
use Prim.Native.Nat.{bit_and}
use homeserver_os.Base.{
  ℕ, ◌+◌, ◌-◌, ◌*◌, ◌/◌, ◌%◌, ◌^◌, List, Option, none, some, ◌==◌, if◌then◌else◌, replicate, get_or,
}
use homeserver_os.Base.Bitmap.{first_free, set_bit, clear_bit}

-- PAGE_SIZE
abbrev pub page_size : ℕ
page_size = 4096

-- The static variables of the file.
pub record Memory : Type 0 where
  pub memory_bitmap : ℕ  -- uint32_t *
  pub bitmap : List ℕ  -- uint32_t[total_frames / 32], behind the pointer
  pub total_frames : ℕ  -- uint32_t
  pub used_frames : ℕ  -- uint32_t

-- `memory_init`
unfoldable pub init : ℕ → Memory
init mem_size = record {
  memory_bitmap = 0x100000;
  bitmap = replicate (mem_size / page_size / 32) 0;
  total_frames = mem_size / page_size;
  used_frames = 0;
}

-- `set_frame`
unfoldable pub set_frame : ℕ → Memory → Memory
set_frame frame_addr m =
    let frame = frame_addr / page_size in
    record m {
      bitmap = set_bit (frame / 32) (frame % 32) m.bitmap;
      used_frames = (m.used_frames + 1) % 2 ^ 32;
    }

-- `clear_frame`; `used_frames--` wraps below 0.
unfoldable pub clear_frame : ℕ → Memory → Memory
clear_frame frame_addr m =
    let frame = frame_addr / page_size in
    record m {
      bitmap = clear_bit 32 (frame / 32) (frame % 32) m.bitmap;
      used_frames = (m.used_frames + 2 ^ 32 - 1) % 2 ^ 32;
    }

-- `test_frame`
unfoldable pub test_frame : ℕ → Memory → ℕ
test_frame frame_addr m =
    let frame = frame_addr / page_size in
    bit_and (get_or m.bitmap (frame / 32) 0) (2 ^ (frame % 32))

-- `(uint32_t)-1`
abbrev pub no_frame : ℕ
no_frame = 2 ^ 32 - 1

-- The `return i * 32 + j` of `first_free_frame`, and the return behind its loops.
abbrev pub frame_number : Option (ℕ × ℕ) → ℕ
frame_number (some (i, j)) = i * 32 + j
frame_number none = no_frame

-- `first_free_frame`
unfoldable pub first_free_frame : Memory → ℕ
first_free_frame m = frame_number (first_free 32 (m.total_frames / 32) m.bitmap)

-- `kmalloc`
unfoldable pub kmalloc : ℕ → Memory → ℕ × Memory
kmalloc size m =
    let frame = first_free_frame m in
    if frame == no_frame
    then (0, m)
    else (frame * page_size % 2 ^ 32, set_frame (frame * page_size % 2 ^ 32) m)

-- `kfree`
unfoldable pub kfree : ℕ → Memory → Memory
kfree ptr m = if ptr == 0 then m else clear_frame ptr m

-- `get_memory_usage`, in KB
unfoldable pub get_memory_usage : Memory → ℕ
get_memory_usage m = m.used_frames * page_size % 2 ^ 32 / 1024

-- `get_free_memory`, in KB
unfoldable pub get_free_memory : Memory → ℕ
get_free_memory m = (m.total_frames + 2 ^ 32 - m.used_frames) % 2 ^ 32 * page_size % 2 ^ 32 / 1024
