-- ===== src/Memory/Usage.antt =====
-- The accounting of kernel/memory/memory.c: what it reports, and what a wrong `kfree` does to it.
use homeserver_os.Base.{ℕ, ◌+◌, ◌-◌, ◌*◌, ◌/◌, ◌%◌, ◌^◌, ◌≡◌, ◌≢◌, refl, arith, ◌==◌, false}
use homeserver_os.Base.Bitmap.Marks.{clear_bit-free}
use homeserver_os.Memory.{Memory, kfree, get_memory_usage, get_free_memory, page_size}
use homeserver_os.Memory.Frames.{IsValid, in_use, total-bound, clear_frame_at}

-- The two reports are four KB for each frame in use and each frame not in use; they add up to the
-- memory, and neither wraps.
pub usage_sum :
    (m : Memory)
    → IsValid m
    → (get_memory_usage m ≡ m.used_frames * 4)
      × (get_free_memory m ≡ (m.total_frames - m.used_frames) * 4)
      × (get_memory_usage m + get_free_memory m ≡ m.total_frames * 4)
unfolding get_memory_usage get_free_memory
usage_sum m v =
    let bound = total-bound m v in
    let small = v.addressable in
    (omega (arith, bound, small), omega (arith, bound, small), omega (arith, bound, small))

-- Freeing a frame that is not in use, as a second `kfree` of one address does, changes no bit, and
-- counts a frame less all the same: the counter no longer agrees with the bitmap.
pub kfree_twice :
    (m : Memory) (frame : ℕ)
    → IsValid m
    → frame ≢ 0
    → in_use m frame ≡ 0
    → (kfree (frame * page_size) m
        ≡ record m { used_frames = (m.used_frames + 2 ^ 32 - 1) % 2 ^ 32 })
      × ¬ IsValid (kfree (frame * page_size) m)
unfolding kfree
kfree_twice m f v ne free =
    let some_page : (f * page_size == 0) ≡ false = ground arith in
    let same = clear_bit-free 32 m.bitmap (f / 32) (f % 32) v.words (omega arith) free in
    rw (some_page, clear_frame_at m f, same)
      (refl, λ w. absurd (omega (arith, w.counted, v.counted, total-bound m v, v.addressable)))
