-- ===== src/Memory/Frames.antt =====
-- `kmalloc` and `kfree` of kernel/memory/memory.c.
use homeserver_os.Base.{
  ℕ, zero, suc, ◌+◌, ◌-◌, ◌*◌, ◌/◌, ◌%◌, ◌^◌, ◌<◌, ◌≤◌, ◌≡◌, ◌≢◌, ◌⊎◌, inl, inr, refl, ap, sym, ◌∙◌,
  arith, ◌==◌, length, length-replicate, Option-cases, false,
}
use homeserver_os.Base.Table.Slots.{All-replicate}
use homeserver_os.Base.Bitmap.{first_free, set_bit, clear_bit, used, total}
use homeserver_os.Base.Bitmap.Laws.{IsFirst, Before, first_free-IsFirst, first_free-none}
use homeserver_os.Base.Bitmap.Marks.{
  used-clear_bit_self, used-clear_bit_ne, Words, set_bit-Words, clear_bit-Words, clear_bit-set_bit,
  used-set_bit_self, used-set_bit_ne, length-set_bit, length-clear_bit,
}
use homeserver_os.Base.Bitmap.Count.{total-set_bit, total-clear_bit, total-le, total-replicate}
use mathlib.Core.Path.{subst}
use native.Mathlib.Decide.{dec_lt, ℕ_discrete}
use homeserver_os.Memory.{
  Memory, frame_number, init, set_frame, clear_frame, first_free_frame, kmalloc, kfree, no_frame,
  page_size,
}

-- The state of a frame that the bitmap covers: 1 while it is in use.
abbrev pub in_use : Memory → ℕ → ℕ
in_use m frame = used m.bitmap (frame / 32) (frame % 32)

-- Between two calls: the bitmap covers the frames, and the counter is the number of bits set in it.
pub record IsValid (m : Memory) : Type 0 where
  pub addressable : m.total_frames < 2 ^ 20
  pub covers : length m.bitmap ≡ m.total_frames / 32
  pub words : Words 32 m.bitmap
  pub counted : m.used_frames ≡ total 32 m.bitmap

-- What a `kmalloc` that finds the frame leaves.
pub record Allocated (frame : ℕ) (m t : Memory) : Type 0 where
  pub in_range : frame < m.total_frames
  pub covered : frame / 32 < length m.bitmap
  pub was_free : in_use m frame ≡ 0
  pub lowest : (g : ℕ) → g < frame → in_use m g ≡ 1
  pub now_used : in_use t frame ≡ 1
  pub others : (g : ℕ) → g ≢ frame → in_use t g ≡ in_use m g
  pub more : t.used_frames ≡ m.used_frames + 1
  pub bits : t.bitmap ≡ set_bit (frame / 32) (frame % 32) m.bitmap
  pub same_total : t.total_frames ≡ m.total_frames
  pub same_map : t.memory_bitmap ≡ m.memory_bitmap
  pub valid : IsValid t

pub total-bound : (m : Memory) → IsValid m → m.used_frames ≤ m.total_frames
total-bound m v = omega (arith, v.counted, v.covers, total-le 32 m.bitmap)

-- The address of a frame leads back to its number.
page_of_address : (frame : ℕ) → frame < 2 ^ 20 → frame * page_size % 2 ^ 32 / page_size ≡ frame
page_of_address frame h = omega arith

apart : (f g : ℕ) → g ≢ f → (f / 32 ≢ g / 32) ⊎ (f % 32 ≢ g % 32)
apart f g ne = elim (ℕ_discrete (f / 32) (g / 32)) [
  | yes e ↦ inr (omega arith)
  | no other ↦ inl other
]

before : (f g : ℕ) → g < f → Before (g / 32) (g % 32) (f / 32) (f % 32)
before f g lt = elim (ℕ_discrete (g / 32) (f / 32)) [
  | yes e ↦ inr (e, omega arith)
  | no other ↦ inl (omega arith)
]

set_frame-Allocated :
    (m : Memory) (f : ℕ)
    → IsValid m
    → IsFirst 32 (m.total_frames / 32) m.bitmap (f / 32) (f % 32)
    → Allocated f m (set_frame (f * page_size % 2 ^ 32) m)
unfolding set_frame
set_frame-Allocated m f v h =
    rw (page_of_address f (omega (arith, h.word, v.addressable))) (record {
      in_range = omega (arith, h.word);
      covered = h.inside;
      was_free = h.is_free;
      lowest = λ g lt. h.earlier (g / 32) (g % 32) (omega arith) (before f g lt);
      now_used = used-set_bit_self m.bitmap (f / 32) (f % 32) h.inside;
      others = λ g ne. used-set_bit_ne m.bitmap (f / 32) (f % 32) (g / 32) (g % 32) (apart f g ne);
      more = more;
      bits = refl;
      same_total = refl;
      same_map = refl;
      valid = record {
        addressable = v.addressable;
        covers = length-set_bit m.bitmap (f / 32) (f % 32) ∙ v.covers;
        words = set_bit-Words 32 m.bitmap (f / 32) (f % 32) (omega arith) v.words;
        counted =
            more
            ∙ omega (
              arith,
              v.counted,
              total-set_bit 32 (f % 32) (omega arith) m.bitmap (f / 32) h.inside h.is_free,
            );
      };
    })
  where
    more : (m.used_frames + 1) % 2 ^ 32 ≡ m.used_frames + 1
    more = omega (arith, total-bound m v, v.addressable)

-- The lowest frame that is free, or no frame
pub kmalloc-Allocated :
    (size : ℕ) (m : Memory)
    → IsValid m
    → ((frame : ℕ) × (t : Memory) × (kmalloc size m ≡ (frame * page_size, t)) × Allocated frame m t)
      ⊎ (((g : ℕ) → g < m.total_frames / 32 * 32 → in_use m g ≡ 1) × (kmalloc size m ≡ (0, m)))
unfolding kmalloc first_free_frame
kmalloc-Allocated size m v = elim (Option-cases (first_free 32 (m.total_frames / 32) m.bitmap)) [
  | inl full ↦ inr (
    λ g lt.
        first_free-none 32 (m.total_frames / 32) m.bitmap (omega (arith, v.covers)) full (g / 32)
          (g % 32) (omega arith) (omega arith),
    rw (full, frame_number),
  )
  | inr ((i, j), found) ↦
      let h = first_free-IsFirst 32 (m.total_frames / 32) m.bitmap i j found in
      let f : ℕ = i * 32 + j in
      let word : i ≡ f / 32 = omega (arith, h.offset) in
      let offset : j ≡ f % 32 = omega (arith, h.offset) in
      let exact : f * page_size % 2 ^ 32 ≡ f * page_size =
        omega (arith, h.word, h.offset, v.addressable) in
      let low : f < 2 ^ 20 = omega (arith, h.word, h.offset, v.addressable) in
      let some_frame : (f == no_frame) ≡ false = ground arith in
      let first : IsFirst 32 (m.total_frames / 32) m.bitmap (f / 32) (f % 32) =
        rw (← word, ← offset) h in
      inl (
        f,
        set_frame (f * page_size % 2 ^ 32) m,
        rw (found, frame_number, some_frame)
            (ap (λ a. (a, set_frame (f * page_size % 2 ^ 32) m)) exact),
        set_frame-Allocated m f v first,
      )
]

pub clear_frame_at :
    (m : Memory) (f : ℕ)
    → clear_frame (f * page_size) m ≡ record m {
      bitmap = clear_bit 32 (f / 32) (f % 32) m.bitmap;
      used_frames = (m.used_frames + 2 ^ 32 - 1) % 2 ^ 32;
    }
unfolding clear_frame
clear_frame_at m f = let page : f * page_size / page_size ≡ f = omega arith in rw page

-- What a `kfree` of a frame in use leaves.
pub record Freed (frame : ℕ) (m t : Memory) : Type 0 where
  pub now_free : in_use t frame ≡ 0
  pub others : (g : ℕ) → g ≢ frame → in_use t g ≡ in_use m g
  pub fewer : t.used_frames + 1 ≡ m.used_frames
  pub valid : IsValid t

-- Freeing the address of a frame in use, other than frame 0, frees that frame and no other.
pub kfree-Freed :
    (m : Memory) (frame : ℕ)
    → IsValid m
    → frame ≢ 0
    → in_use m frame ≡ 1
    → Freed frame m (kfree (frame * page_size) m)
unfolding kfree
kfree-Freed m f v ne taken =
    let some_page : (f * page_size == 0) ≡ false = ground arith in
    rw (some_page, clear_frame_at m f)
      (record {
        now_free = used-clear_bit_self 32 m.bitmap (f / 32) (f % 32) (omega arith);
        others = λ g other.
            used-clear_bit_ne 32 m.bitmap (f / 32) (f % 32) (g / 32) (g % 32) (omega arith)
              (omega arith) (apart f g other);
        fewer = fewer;
        valid = record {
          addressable = v.addressable;
          covers = length-clear_bit 32 m.bitmap (f / 32) (f % 32) ∙ v.covers;
          words = clear_bit-Words 32 m.bitmap (f / 32) (f % 32) v.words;
          counted = omega (arith, v.counted, counted, fewer);
        };
      })
  where
    counted : total 32 (clear_bit 32 (f / 32) (f % 32) m.bitmap) + 1 ≡ total 32 m.bitmap
    counted = total-clear_bit 32 (f % 32) (omega arith) m.bitmap (f / 32) taken

    fewer : (m.used_frames + 2 ^ 32 - 1) % 2 ^ 32 + 1 ≡ m.used_frames
    fewer = omega (arith, v.counted, counted, total-bound m v, v.addressable)

undone :
    (m : Memory) (v : IsValid m) (f : ℕ) (t : Memory)
    → Allocated f m t
    → f * page_size ≢ 0
    → kfree (f * page_size) t ≡ m
unfolding kfree
undone m v f t a ne =
    let some_page : (f * page_size == 0) ≡ false = ground arith in
    let bitmap : clear_bit 32 (f / 32) (f % 32) t.bitmap ≡ m.bitmap = rw a.bits (
      clear_bit-set_bit 32 m.bitmap (f / 32) (f % 32) v.words a.covered (omega arith) a.was_free) in
    let counter : (t.used_frames + 2 ^ 32 - 1) % 2 ^ 32 ≡ m.used_frames =
      omega (arith, a.more, total-bound m v, v.addressable) in
    rw (some_page, clear_frame_at t f)
      (λ i. record {
        memory_bitmap = a.same_map i;
        bitmap = bitmap i;
        total_frames = a.same_total i;
        used_frames = counter i;
      })

-- A `kmalloc` undone: freeing the address that it returned, unless that is NULL, gives the state
-- before the call back, bit for bit.
pub kfree-kmalloc :
    (size : ℕ) (m : Memory)
    → IsValid m
    → (kmalloc size m).0 ≢ 0
    → kfree (kmalloc size m).0 (kmalloc size m).1 ≡ m
kfree-kmalloc size m v ne = elim (kmalloc-Allocated size m v) [
  | inr (full, e) ↦ absurd (ne (ap (λ r. r.0) e))
  | inl (f, t, e, a) ↦ rw e (undone m v f t a (λ z. ne (ap (λ r. r.0) e ∙ z)))
]

-- Where frame 0 is free, it is the lowest.
lowest_zero : {m t : Memory} (f : ℕ) → in_use m 0 ≡ 0 → Allocated f m t → f ≡ 0
lowest_zero f free a = elim (dec_lt 0 f) [
  | yes later ↦ absurd (omega (arith, a.lowest 0 later))
  | no first ↦ omega arith
]

-- The first frame has the address NULL: a `kmalloc` that takes it reports failure, and the frame is
-- lost to the caller.
pub kmalloc_frame_zero :
    (size : ℕ) (m : Memory)
    → IsValid m
    → in_use m 0 ≡ 0
    → 32 ≤ m.total_frames
    → ((kmalloc size m).0 ≡ 0)
      × (in_use (kmalloc size m).1 0 ≡ 1)
      × ((kmalloc size m).1.used_frames ≡ m.used_frames + 1)
kmalloc_frame_zero size m v free room = elim (kmalloc-Allocated size m v) [
  | inr (full, e) ↦ absurd (omega (arith, full 0 (omega arith)))
  | inl (f, t, e, a) ↦
      let zero_frame : f ≡ 0 = lowest_zero f free a in
      rw (e, zero_frame) (refl, subst (λ g. in_use t g ≡ 1) zero_frame a.now_used, a.more)
]

-- What `kmalloc` does: it hands a frame out; or it takes frame 0, whose address is NULL; or no frame
-- that the bitmap covers is free.
abbrev pub Answered : ℕ → Memory → Type 0
Answered size m =
    ((frame : ℕ) × (t : Memory) × (kmalloc size m ≡ (frame * page_size, t))
      × (frame * page_size ≢ 0)
      × (in_use m 0 ≡ 1)
      × Allocated frame m t)
    ⊎ ((in_use m 0 ≡ 0) × (t : Memory) × (kmalloc size m ≡ (0, t)) × Allocated 0 m t)
    ⊎ (((g : ℕ) → g < m.total_frames / 32 * 32 → in_use m g ≡ 1) × (kmalloc size m ≡ (0, m)))

-- The bitmap covers the frames below the greatest multiple of 32 that total_frames allows; the
-- others are never handed out. `kmalloc` takes the lowest frame that the bitmap covers and that is
-- free, whatever size is asked for. It returns the address of the frame, which is not NULL, where frame 0
-- was in use. Where frame 0 was free it marks that frame as in use and returns NULL, as
-- if it had failed. Where all frames that the bitmap covers are in use it returns NULL and changes
-- nothing.
pub kmalloc-Answered : (size : ℕ) (m : Memory) → IsValid m → Answered size m
kmalloc-Answered size m v = elim (kmalloc-Allocated size m v) [
  | inr full ↦ inr (inr full)
  | inl (zero, t, e, a) ↦ inr (inl (a.was_free, t, e, a))
  | inl (suc f, t, e, a) ↦ inl (suc f, t, e, (λ q. omega arith), a.lowest 0 (omega arith), a)
]

-- `memory_init` sets up a valid state in which no frame is in use.
pub init-IsValid : (mem_size : ℕ) → mem_size < 2 ^ 32 → IsValid (init mem_size)
unfolding init
init-IsValid mem_size h = record {
  addressable = omega arith;
  covers = length-replicate (mem_size / page_size / 32) 0;
  words = All-replicate (λ w. w < 2 ^ 32) (mem_size / page_size / 32) 0 (omega arith);
  counted = sym (total-replicate 32 (mem_size / page_size / 32));
}
