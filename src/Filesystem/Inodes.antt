-- ===== src/Filesystem/Inodes.antt =====
-- The inodes of kernel/fs/filesystem.c: `allocate_inode`, `fs_create` and `fs_delete`.
use homeserver_os.Base.{
  ℕ, ◌^◌, ◌+◌, ◌*◌, ◌/◌, ◌%◌, ◌<◌, ◌≡◌, ◌≢◌, ◌⊎◌, refl, ◌∙◌, List, arith, length, some, get_elem?,
  ltb, leb, lt→ltb, true, false, inl, inr, Option-cases,
}
use homeserver_os.Base.Int.{pos, minus_one}
use homeserver_os.Base.Table.{update_at}
use homeserver_os.Base.Table.Slots.{
  get_elem?-some, get_elem?-update_at, get_elem?-update_at_ne, length-update_at,
}
use homeserver_os.Base.Bitmap.{first_free, set_bit, clear_bit, used, total}
use homeserver_os.Base.Bitmap.Laws.{IsFirst, first_free-IsFirst, first_free-none}
use homeserver_os.Base.Bitmap.Marks.{used-set_bit_self, length-set_bit, Words, clear_bit-set_bit}
use homeserver_os.Base.Bitmap.Count.{total-set_bit, total-le}
use homeserver_os.Filesystem.{
  Superblock, inc, release, free_inode, deleted, delete, Filesystem, Inode, FileType, max_files,
  dec, claim_inode, allocate_inode, fill_inode, created, create,
}

-- Between two calls: a bit for each inode, and the counter of the free ones tells how many are clear.
pub record IsCounted (s : Filesystem) : Type 0 where
  pub covers : length s.inode_bitmap ≡ max_files / 8
  pub counted : s.superblock.free_inodes + total 8 s.inode_bitmap ≡ max_files
  pub inodes_size : length s.inodes ≡ max_files

abbrev pub is_used : Filesystem → ℕ → ℕ
is_used s id = used s.inode_bitmap (id / 8) (id % 8)

-- An empty file of the type asked for, with the permissions rw-r--r--.
pub record IsEmpty (type : FileType) (inode : Inode) : Type 0 where
  pub of_type : inode.type ≡ type
  pub no_size : inode.size ≡ 0
  pub no_block : inode.block_count ≡ 0
  pub mode : inode.permissions ≡ 420

fill_inode-IsEmpty :
    (path : List ℕ) (type : FileType) (inode : Inode) → IsEmpty type (fill_inode path type inode)
unfolding fill_inode
fill_inode-IsEmpty path type inode = record {
  of_type = refl;
  no_size = refl;
  no_block = refl;
  mode = refl;
}

-- What an `fs_create` that finds an inode leaves.
pub record Made (type : FileType) (id : ℕ) (s t : Filesystem) : Type 0 where
  pub in_range : id < max_files
  pub was_free : is_used s id ≡ 0
  pub now_used : is_used t id ≡ 1
  pub inode : Inode
  pub found : get_elem? t.inodes id ≡ some inode
  pub is_empty : IsEmpty type inode
  pub others : (j : ℕ) → j ≢ id → get_elem? t.inodes j ≡ get_elem? s.inodes j
  pub bits : t.inode_bitmap ≡ set_bit (id / 8) (id % 8) s.inode_bitmap
  pub counter : t.superblock ≡ record s.superblock { free_inodes = dec s.superblock.free_inodes }
  pub fewer : t.superblock.free_inodes + 1 ≡ s.superblock.free_inodes
  pub same_blocks : t.block_bitmap ≡ s.block_bitmap
  pub valid : IsCounted t

created-Made :
    (path : List ℕ) (type : FileType) (s : Filesystem) (i j : ℕ)
    → IsCounted s
    → IsFirst 8 (max_files / 8) s.inode_bitmap i j
    → (id : ℕ) × (t : Filesystem) × (created path type s (claim_inode s (some (i, j)))
        ≡ (pos id, t))
      × Made type id s t
unfolding created claim_inode
created-Made path type s i j v h =
    let grown = total-set_bit 8 j h.offset s.inode_bitmap i h.inside h.is_free in
    let row : i ≡ (i * 8 + j) / 8 = omega (arith, h.offset) in
    let place : j ≡ (i * 8 + j) % 8 = omega (arith, h.offset) in
    let bound = total-le 8 (set_bit i j s.inode_bitmap) in
    let size = length-set_bit s.inode_bitmap i j in
    let id : ℕ = i * 8 + j in
    let (old, slot) = get_elem?-some id s.inodes (omega (arith, h.word, h.offset, v.inodes_size)) in
    (
      id,
      record s {
        inode_bitmap = set_bit i j s.inode_bitmap;
        superblock = record s.superblock { free_inodes = dec s.superblock.free_inodes };
        inodes = update_at id (fill_inode path type) s.inodes;
      },
      refl,
      record {
        in_range = omega (arith, h.word, h.offset);
        was_free = rw (← row, ← place) h.is_free;
        now_used = rw (← row, ← place) (used-set_bit_self s.inode_bitmap i j h.inside);
        inode = fill_inode path type old;
        found = get_elem?-update_at id (fill_inode path type) s.inodes slot;
        is_empty = fill_inode-IsEmpty path type old;
        others = λ k ne. get_elem?-update_at_ne id k (fill_inode path type) s.inodes ne;
        bits = rw (← row, ← place) refl;
        counter = refl;
        fewer = omega (arith, v.counted, v.covers, grown, bound, size);
        same_blocks = refl;
        valid = record {
          covers = size ∙ v.covers;
          counted = omega (arith, v.counted, v.covers, grown, bound, size);
          inodes_size = length-update_at id (fill_inode path type) s.inodes ∙ v.inodes_size;
        };
      },
    )

-- `fs_create` marks an inode that was free, makes an empty file of it and returns its index, with no
-- other inode and no block changed and one free inode less; where every inode is in use it returns
-- -1 and changes nothing.
pub create-Made :
    (path : List ℕ) (type : FileType) (s : Filesystem)
    → IsCounted s
    → ((id : ℕ) × (t : Filesystem) × (create path type s ≡ (pos id, t)) × Made type id s t)
      ⊎ (((id : ℕ) → id < max_files → is_used s id ≡ 1) × (create path type s ≡ (minus_one, s)))
unfolding create allocate_inode claim_inode created
create-Made path type s v = elim (Option-cases (first_free 8 (max_files / 8) s.inode_bitmap)) [
  | inl e ↦
      let taken = first_free-none 8 (max_files / 8) s.inode_bitmap (omega (arith, v.covers)) e in
      inr (λ id lt. taken (id / 8) (id % 8) (omega arith) (omega arith), rw e refl)
  | inr ((i, j), e) ↦
      let (id, t, q, m) =
        created-Made path type s i j v
          (first_free-IsFirst 8 (max_files / 8) s.inode_bitmap i j e) in
      inl (id, t, rw e q, m)
]

-- Taking a number off a counter and giving it back.
inc-dec : (x : ℕ) → 0 < x → x < 2 ^ 32 → inc (dec x) ≡ x
inc-dec x h l = omega arith

no_block : (blocks : List ℕ) (n : ℕ) (s : Filesystem) → n ≡ 0 → release n blocks s ≡ s
unfolding release
no_block blocks n s e = rw e refl

superblock_back :
    (b a : Superblock)
    → b ≡ record a { free_inodes = dec a.free_inodes }
    → inc (dec a.free_inodes) ≡ a.free_inodes
    → record b { free_inodes = inc b.free_inodes } ≡ a
superblock_back b a e h = rw e (λ i. record a { free_inodes = h i })

-- An `fs_create` undone, in a state whose inode counter agrees with a bitmap of bytes: where it makes
-- a file, `fs_delete` of the index that it returned gives 0 and brings back both bitmaps and the
-- superblock as they were; otherwise it returned -1 and changed nothing.
pub delete-create :
    (path : List ℕ) (type : FileType) (s : Filesystem)
    → IsCounted s
    → Words 8 s.inode_bitmap
    → ((id : ℕ) × (t : Filesystem) × (u : Filesystem) × (create path type s ≡ (pos id, t))
        × (delete (pos id) t ≡ (pos 0, u))
        × (u.superblock ≡ s.superblock)
        × (u.inode_bitmap ≡ s.inode_bitmap)
        × (u.block_bitmap ≡ s.block_bitmap))
      ⊎ (create path type s ≡ (minus_one, s))
unfolding delete deleted free_inode
delete-create path type s v words = elim (create-Made path type s v) [
  | inr (taken, e) ↦ inr e
  | inl (id, t, e, m) ↦
      let inside : ltb id max_files ≡ true = lt→ltb id max_files m.in_range in
      let in_bitmap : leb max_files id ≡ false = ground (arith, m.in_range) in
      let nothing : release m.inode.block_count m.inode.blocks t ≡ t =
        no_block m.inode.blocks m.inode.block_count t m.is_empty.no_block in
      let bitmap : clear_bit 8 (id / 8) (id % 8) t.inode_bitmap ≡ s.inode_bitmap = rw m.bits (
        clear_bit-set_bit 8 s.inode_bitmap (id / 8) (id % 8) words
          (omega (arith, v.covers, m.in_range)) (omega arith) m.was_free) in
      let counter : inc (dec s.superblock.free_inodes) ≡ s.superblock.free_inodes =
        inc-dec s.superblock.free_inodes (omega (arith, m.fewer)) (omega (arith, v.counted)) in
      let u : Filesystem = record t {
        inode_bitmap = clear_bit 8 (id / 8) (id % 8) t.inode_bitmap;
        superblock = record t.superblock { free_inodes = inc t.superblock.free_inodes };
      } in
      inl (
        id,
        t,
        u,
        e,
        rw (inside, m.found, deleted, nothing, in_bitmap) refl,
        superblock_back t.superblock s.superblock m.counter counter,
        bitmap,
        m.same_blocks,
      )
]
