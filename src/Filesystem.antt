-- ===== src/Filesystem.antt =====
-- kernel/fs/filesystem.c, the file system's tables. The static variables of the file are the fields
-- of `Filesystem`; the data of a file is not kept by the source, which ignores it.
pub mod Claims
pub mod Blocks
pub mod Inodes
mod Tests
use homeserver_os.Base.{
  ℕ, zero, suc, ◌+◌, ◌-◌, ◌*◌, ◌/◌, ◌%◌, ◌^◌, Bool, true, false, List, [], ◌∷◌, map, Option, none,
  some, ◌==◌, ltb, leb, if◌then◌else◌, replicate, get_elem?,
}
use homeserver_os.Base.Int.{to_int, ℤ, pos, negsuc, minus_one, rounds}
use homeserver_os.Base.Text.{copy_chars}
use homeserver_os.Base.Table.{update_at}
use homeserver_os.Base.Bitmap.{first_free, set_bit, clear_bit}
use mathlib.Core.Option

-- MAX_FILES, MAX_BLOCKS and BLOCK_SIZE
abbrev pub max_files : ℕ
max_files = 1024

abbrev pub max_blocks : ℕ
max_blocks = 65536

abbrev pub block_size : ℕ
block_size = 4096

-- `file_type_t`
pub data FileType : Type 0 where
  regular directory symlink : FileType

-- `inode_t`
pub record Inode : Type 0 where
  pub name : List ℕ  -- char[256]
  pub type : FileType
  pub size : ℕ  -- uint32_t
  pub blocks : List ℕ  -- uint32_t[128]
  pub block_count : ℕ  -- uint32_t
  pub permissions : ℕ  -- uint32_t
  pub owner_id : ℕ  -- uint32_t
  pub group_id : ℕ  -- uint32_t
  pub created_time : ℕ  -- uint64_t
  pub modified_time : ℕ  -- uint64_t
  pub accessed_time : ℕ  -- uint64_t

-- `superblock_t`, of uint32_t
pub record Superblock : Type 0 where
  pub magic : ℕ
  pub version : ℕ
  pub block_size : ℕ
  pub total_blocks : ℕ
  pub free_blocks : ℕ
  pub total_inodes : ℕ
  pub free_inodes : ℕ
  pub root_inode : ℕ

-- The static variables of the file.
pub record Filesystem : Type 0 where
  pub superblock : Superblock
  pub inodes : List Inode  -- [MAX_FILES]
  pub block_bitmap : List ℕ  -- uint8_t[MAX_BLOCKS / 8]
  pub inode_bitmap : List ℕ  -- uint8_t[MAX_FILES / 8]

-- `x--` and `x++` on a uint32_t
abbrev pub dec : ℕ → ℕ
dec x = (x + 2 ^ 32 - 1) % 2 ^ 32

abbrev pub inc : ℕ → ℕ
inc x = (x + 1) % 2 ^ 32

-- The root directory that `fs_init` writes into the first inode.
unfoldable pub fill_root : Inode → Inode
fill_root inode = record inode {
  type = directory;
  size = 0;
  block_count = 0;
  permissions = 493;
  owner_id = 0;
  group_id = 0;
  name = b'/' ∷ replicate 255 0;
}

-- `fs_init`
unfoldable pub init : Filesystem → Filesystem
init s = record s {
  superblock = record {
    magic = 0x48534653;
    version = 1;
    block_size = block_size;
    total_blocks = max_blocks;
    free_blocks = max_blocks;
    total_inodes = max_files;
    free_inodes = dec max_files;
    root_inode = 0;
  };
  inodes = update_at 0 fill_root s.inodes;
  block_bitmap = replicate (max_blocks / 8) 0;
  inode_bitmap = set_bit 0 0 (replicate (max_files / 8) 0);
}

-- What `allocate_block` and `allocate_inode` do at the bit that their loops find; `none` is -1.
unfoldable pub claim_block : Filesystem → Option (ℕ × ℕ) → Option (ℕ × Filesystem)
claim_block s none = none
claim_block s (some (i, j)) = some (
  i * 8 + j,
  record s {
    block_bitmap = set_bit i j s.block_bitmap;
    superblock = record s.superblock { free_blocks = dec s.superblock.free_blocks };
  },
)

unfoldable pub claim_inode : Filesystem → Option (ℕ × ℕ) → Option (ℕ × Filesystem)
claim_inode s none = none
claim_inode s (some (i, j)) = some (
  i * 8 + j,
  record s {
    inode_bitmap = set_bit i j s.inode_bitmap;
    superblock = record s.superblock { free_inodes = dec s.superblock.free_inodes };
  },
)

-- `allocate_block`
unfoldable pub allocate_block : Filesystem → Option (ℕ × Filesystem)
allocate_block s = claim_block s (first_free 8 (max_blocks / 8) s.block_bitmap)

-- `allocate_inode`
unfoldable pub allocate_inode : Filesystem → Option (ℕ × Filesystem)
allocate_inode s = claim_inode s (first_free 8 (max_files / 8) s.inode_bitmap)

-- `free_block`, of a uint32_t: one that would be negative as an int is out of range as well.
unfoldable pub free_block : ℕ → Filesystem → Filesystem
free_block block s = if leb max_blocks block then s else record s {
  block_bitmap = clear_bit 8 (block / 8) (block % 8) s.block_bitmap;
  superblock = record s.superblock { free_blocks = inc s.superblock.free_blocks };
}

-- `free_inode`, of an index that its caller has checked
unfoldable pub free_inode : ℕ → Filesystem → Filesystem
free_inode inode s = if leb max_files inode then s else record s {
  inode_bitmap = clear_bit 8 (inode / 8) (inode % 8) s.inode_bitmap;
  superblock = record s.superblock { free_inodes = inc s.superblock.free_inodes };
}

-- What `fs_create` stores in the inode. The name gets no NUL, so the end of a longer old one stays.
unfoldable pub fill_inode : List ℕ → FileType → Inode → Inode
fill_inode path type inode = record inode {
  type = type;
  size = 0;
  block_count = 0;
  permissions = 420;
  owner_id = 0;
  group_id = 0;
  name = copy_chars 256 path inode.name;
}

unfoldable pub created : List ℕ → FileType → Filesystem → Option (ℕ × Filesystem) → ℤ × Filesystem
created path type s none = (minus_one, s)
created path type s (some (id, t)) =
    (pos id, record t { inodes = update_at id (fill_inode path type) t.inodes })

-- `fs_create`
unfoldable pub create : List ℕ → FileType → Filesystem → ℤ × Filesystem
create path type s = created path type s (allocate_inode s)

-- `inode->blocks[i] = block`
abbrev pub put_block : ℕ → ℕ → ℕ → Filesystem → Filesystem
put_block id i block s = record s {
  inodes =
      update_at id (λ inode. record inode { blocks = update_at i (λ old. block) inode.blocks })
        s.inodes;
}

-- The loop of `fs_write`, with `n` rounds left from `i` on: whether it came to its end.
unfoldable pub claim_blocks : ℕ → ℕ → ℕ → Filesystem → Bool × Filesystem
claim_blocks zero i id s = (true, s)
claim_blocks (suc n) i id s = elim (allocate_block s) [
  | none ↦ (false, s)
  | some (block, t) ↦ claim_blocks n (suc i) id (put_block id i block t)
]

-- `inode_id < 0 || inode_id >= MAX_FILES`
abbrev pub is_inode : ℤ → Bool
is_inode (pos n) = ltb n max_files
is_inode (negsuc n) = false

abbrev pub blocks_needed : ℕ → ℕ
blocks_needed size = (size + block_size + 2 ^ 32 - 1) % 2 ^ 32 / block_size

unfoldable pub written : ℕ → ℕ → Bool × Filesystem → ℤ × Filesystem
written id size (false, t) = (minus_one, t)
written id size (true, t) = (
  to_int size,
  record t {
    inodes =
        update_at id (λ inode. record inode { block_count = blocks_needed size; size = size })
          t.inodes;
  },
)

-- `fs_write`; the data is not read.
unfoldable pub write : ℤ → ℕ → Filesystem → ℤ × Filesystem
write inode_id size s =
    if is_inode inode_id
    then (if ltb 128 (blocks_needed size)
        then (minus_one, s)
        else written (rounds inode_id) size
            (claim_blocks (blocks_needed size) 0 (rounds inode_id) s))
    else (minus_one, s)

-- `fs_get_free_space` and `fs_get_used_space`, in KB
unfoldable pub get_free_space : Filesystem → ℕ
get_free_space s = s.superblock.free_blocks * block_size % 2 ^ 32 / 1024

unfoldable pub get_used_space : Filesystem → ℕ
get_used_space s =
    (s.superblock.total_blocks + 2 ^ 32 - s.superblock.free_blocks)
    % 2 ^ 32
    * block_size
    % 2 ^ 32
    / 1024

-- `size > inode->size ? inode->size : size`, at the entry of the inode
unfoldable pub readable : ℕ → Option Inode → ℤ
readable size none = minus_one
readable size (some inode) = to_int (if ltb inode.size size then inode.size else size)

-- `fs_read`; the buffer is not written.
unfoldable pub read : ℤ → ℕ → Filesystem → ℤ
read inode_id size s =
    if is_inode inode_id then readable size (get_elem? s.inodes (rounds inode_id)) else minus_one

-- The loop of `fs_delete`, with `n` rounds left and the rest of `inode->blocks`. A count above 128,
-- which no function here stores, would read past the array; the loop ends there.
unfoldable pub release : ℕ → List ℕ → Filesystem → Filesystem
release zero blocks s = s
release (suc n) [] s = s
release (suc n) (block ∷ blocks) s = release n blocks (free_block block s)

unfoldable pub deleted : ℕ → Filesystem → Option Inode → ℤ × Filesystem
deleted id s none = (minus_one, s)
deleted id s (some inode) = (pos 0, free_inode id (release inode.block_count inode.blocks s))

-- `fs_delete`
unfoldable pub delete : ℤ → Filesystem → ℤ × Filesystem
delete inode_id s =
    if is_inode inode_id
    then deleted (rounds inode_id) s (get_elem? s.inodes (rounds inode_id))
    else (minus_one, s)
