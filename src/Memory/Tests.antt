-- ===== src/Memory/Tests.antt =====
-- Runs of kernel/memory/memory.c on small inputs.
use homeserver_os.Base.{refl, [], ◌∷◌, arith}
use homeserver_os.Base.Bits.{bit}
use homeserver_os.Memory.{Memory}
use homeserver_os.Memory.Frames.{IsValid, Answered, kmalloc-Answered}

-- 64 frames of which the first 34 are in use.
abbrev busy : Memory
busy = record {
  memory_bitmap = 0x100000;
  bitmap = 0xffff_ffff ∷ 3 ∷ [];
  total_frames = 64;
  used_frames = 34;
}

busy-IsValid : IsValid busy
unfolding bit
busy-IsValid = record {
  addressable = omega arith;
  covers = refl;
  words = (omega arith, (omega arith, tt));
  counted = refl;
}

kmalloc-Answered_example : Answered 100 busy
kmalloc-Answered_example = kmalloc-Answered 100 busy busy-IsValid
