-- ===== src/Filesystem/Tests.antt =====
-- Runs of kernel/fs/filesystem.c on small inputs.
use homeserver_os.Base.{
  ℕ, zero, suc, ◌*◌, ◌^◌, ◌<◌, ◌⊎◌, ◌≡◌, refl, arith, replicate, length-replicate,
}
use homeserver_os.Base.Table.Slots.{All-replicate}
use homeserver_os.Base.Int.{pos, minus_one}
use homeserver_os.Base.Bits.{bit}
use homeserver_os.Base.Bitmap.{total, ones}
use homeserver_os.Base.Bitmap.Count.{total-replicate}
use homeserver_os.Filesystem.{Filesystem, Inode, regular, create, delete, write}
use homeserver_os.Base.Text.{codes}
use homeserver_os.Filesystem.Inodes.{IsCounted, Made, is_used, create-Made, delete-create}
use homeserver_os.Filesystem.Claims.{IsValid}
use homeserver_os.Filesystem.Blocks.{Written, write-Written, write_short}

abbrev blank : Inode
blank = record {
  name = replicate 256 0;
  type = regular;
  size = 0;
  blocks = replicate 128 0;
  block_count = 0;
  permissions = 0;
  owner_id = 0;
  group_id = 0;
  created_time = 0;
  modified_time = 0;
  accessed_time = 0;
}

-- Tables in which every block has the state that a byte of the bitmap gives.
abbrev tables : ℕ → ℕ → Filesystem
tables byte free = record {
  superblock = record {
    magic = 0x48534653;
    version = 1;
    block_size = 4096;
    total_blocks = 65536;
    free_blocks = free;
    total_inodes = 1024;
    free_inodes = 1024;
    root_inode = 0;
  };
  inodes = replicate 1024 blank;
  block_bitmap = replicate 8192 byte;
  inode_bitmap = replicate 128 0;
}

empty-IsValid : IsValid (tables 0 65536)
empty-IsValid = record {
  covers = length-replicate {A = ℕ} 8192 0;
  counted = omega (arith, total-replicate 8 8192);
  inodes_size = length-replicate 1024 blank;
}

ones_of_255 : ones 8 255 ≡ 8
unfolding bit
ones_of_255 = refl

total_of_255 : (n : ℕ) → total 8 (replicate n 255) ≡ 8 * n
total_of_255 zero = refl
total_of_255 (suc n) = omega (arith, ones_of_255, total_of_255 n)

full-IsValid : IsValid (tables 255 0)
full-IsValid = record {
  covers = length-replicate {A = ℕ} 8192 255;
  counted = omega (arith, total_of_255 8192);
  inodes_size = length-replicate 1024 blank;
}

write-Written_example :
    (t : Filesystem) × (write (pos 3) 5000 (tables 0 65536) ≡ (pos 5000, t))
    × Written 3 5000 (tables 0 65536) t
write-Written_example =
    write-Written 3 5000 (tables 0 65536) empty-IsValid (omega arith) blank refl refl (omega arith)
      (omega arith)

write_short_example :
    (t : Filesystem) × (write (pos 3) 5000 (tables 255 0) ≡ (minus_one, t))
    × (t.superblock.free_blocks ≡ 0)
    × IsValid t
write_short_example =
    write_short 3 5000 (tables 255 0) full-IsValid (omega arith) (omega arith) (omega arith)

empty-IsCounted : IsCounted (tables 0 65536)
empty-IsCounted = record {
  covers = length-replicate {A = ℕ} 128 0;
  counted = omega (arith, total-replicate 8 128);
  inodes_size = length-replicate 1024 blank;
}

create-Made_example :
    ((id : ℕ) × (t : Filesystem) × (create (codes "/etc/motd") regular (tables 0 65536)
        ≡ (pos id, t))
      × Made regular id (tables 0 65536) t)
    ⊎ (((id : ℕ) → id < 1024 → is_used (tables 0 65536) id ≡ 1)
        × (create (codes "/etc/motd") regular (tables 0 65536) ≡ (minus_one, tables 0 65536)))
create-Made_example = create-Made (codes "/etc/motd") regular (tables 0 65536) empty-IsCounted

delete-create_example :
    ((id : ℕ) × (t : Filesystem) × (u : Filesystem) × (create
          (codes "/etc/motd")
          regular
          (tables 0 65536)
        ≡ (pos id, t))
      × (delete (pos id) t ≡ (pos 0, u))
      × (u.superblock ≡ (tables 0 65536).superblock)
      × (u.inode_bitmap ≡ replicate 128 0)
      × (u.block_bitmap ≡ replicate 8192 0))
    ⊎ (create (codes "/etc/motd") regular (tables 0 65536) ≡ (minus_one, tables 0 65536))
delete-create_example =
    delete-create (codes "/etc/motd") regular (tables 0 65536) empty-IsCounted
      (All-replicate (λ w. w < 2 ^ 8) 128 0 (omega arith))
