-- ===== src/Filesystem/Blocks.antt =====
-- `fs_write` of kernel/fs/filesystem.c: what it takes, and what it leaves when it fails.
use homeserver_os.Base.{
  ℕ, ◌+◌, ◌*◌, ◌<◌, ◌≤◌, ◌≡◌, ◌≢◌, sym, ap, take, ◌^◌, List, refl, ◌∙◌, Bool, true, false, arith,
  length, some, ltb, get_elem?, inl, inr,
}
use homeserver_os.Base.Int.{pos, minus_one}
use homeserver_os.Base.Table.{update_at}
use homeserver_os.Base.Table.Slots.{All, get_elem?-update_at, length-update_at}
use homeserver_os.Filesystem.{
  Filesystem, Inode, max_files, claim_blocks, blocks_needed, written, write,
}
use homeserver_os.Filesystem.Claims.{
  IsValid, in_use, put_all, take-put_all, Grown, claim_blocks-Taken, claim_blocks-Grown,
}

-- What a successful `fs_write` leaves of the tables.
pub record Written (id size : ℕ) (s t : Filesystem) : Type 0 where
  pub inode : Inode
  pub found : get_elem? t.inodes id ≡ some inode
  pub sized : inode.size ≡ size
  pub enough : size ≤ inode.block_count * 4096
  pub no_more : inode.block_count * 4096 < size + 4096
  pub blocks : List ℕ
  pub amount : length blocks ≡ inode.block_count
  pub stored : take inode.block_count inode.blocks ≡ blocks
  pub were_free : All (λ b. in_use s b ≡ 0) blocks
  pub now_used : All (λ b. in_use t b ≡ 1) blocks
  pub others : (b : ℕ) → All (λ c. b ≢ c) blocks → in_use t b ≡ in_use s b
  pub spent : t.superblock.free_blocks + inode.block_count ≡ s.superblock.free_blocks
  pub valid : IsValid t

module _ (id size : ℕ) (s : Filesystem) (v : IsValid s) (in_table : id < max_files) where
  written-Written :
      (b : Bool) (t : Filesystem) (old : Inode)
      → b ≡ true
      → size ≤ 128 * 4096
      → IsValid t
      → t.superblock.free_blocks + blocks_needed size ≡ s.superblock.free_blocks
      → get_elem? s.inodes id ≡ some old
      → length old.blocks ≡ 128
      → Grown (blocks_needed size) 0 id s t
      → (u : Filesystem) × (written id size (b, t) ≡ (pos size, u)) × Written id size s u
  unfolding written
  written-Written false t old e small w spent here room g = absurd (cc)
  written-Written true t old e small w spent here room g =
      let store : Inode → Inode =
        λ inode. record inode { block_count = blocks_needed size; size = size } in
      let row = put_all 0 g.blocks old.blocks in
      let int : ltb size (2 ^ 31) ≡ true = ground arith in
      (
        record t { inodes = update_at id store t.inodes },
        rw int refl,
        record {
          inode = store (record old { blocks = row });
          found = get_elem?-update_at id store t.inodes (g.stored old here);
          sized = refl;
          enough = omega arith;
          no_more = omega arith;
          blocks = g.blocks;
          amount = g.amount;
          stored =
              ap (λ n. take n row) (sym g.amount)
              ∙ take-put_all g.blocks old.blocks (omega (arith, g.amount));
          were_free = g.were_free;
          now_used = g.now_used;
          others = g.others;
          spent = spent;
          valid = record {
            covers = w.covers;
            counted = w.counted;
            inodes_size = length-update_at id store t.inodes ∙ w.inodes_size;
          };
        },
      )

  write-starts :
      blocks_needed size ≤ 128
      → write (pos id) size s ≡ written id size (claim_blocks (blocks_needed size) 0 id s)
  unfolding write
  write-starts small =
      let inside : ltb id max_files ≡ true = ground arith in
      let fits : ltb 128 (blocks_needed size) ≡ false = ground arith in rw (inside, fits) refl

  -- A size of at most 128 blocks, for which there are enough free blocks, and an inode with room for
  -- 128 numbers of blocks: `fs_write` returns the size. It
  -- takes the least number of blocks of 4096 bytes that hold the size, each of which was free, marks
  -- them and no other as in use, stores their numbers at the start of the list of the inode, and
  -- gives the inode the size and the number; the counter of free blocks drops by that number and
  -- still agrees with the bitmap.
  pub write-Written :
      (old : Inode)
      → get_elem? s.inodes id ≡ some old
      → length old.blocks ≡ 128
      → size ≤ 128 * 4096
      → size ≤ s.superblock.free_blocks * 4096
      → (t : Filesystem) × (write (pos id) size s ≡ (pos size, t)) × Written id size s t
  write-Written old here array small room =
      let k = claim_blocks-Taken (blocks_needed size) 0 id s v in
      elim k.outcome [
        | inl (enough, done, left) ↦
            let r = claim_blocks (blocks_needed size) 0 id s in
            let g = claim_blocks-Grown (blocks_needed size) 0 id s v in_table done in
            let (t, e, w) = written-Written r.0 r.1 old done small k.valid left here array g in
            (t, write-starts (omega arith) ∙ e, w)
        | inr (short, done, left) ↦ absurd (omega arith)
      ]

  failed : (r : Bool × Filesystem) → r.0 ≡ false → written id size r ≡ (minus_one, r.1)
  unfolding written
  failed (false, t) e = refl
  failed (true, t) e = absurd (cc)

  -- With fewer free blocks than the size needs, `fs_write` returns -1, but only after it has taken all
  -- of them: no free block is left.
  pub write_short :
      blocks_needed size ≤ 128
      → s.superblock.free_blocks < blocks_needed size
      → (t : Filesystem) × (write (pos id) size s ≡ (minus_one, t))
        × (t.superblock.free_blocks ≡ 0)
        × IsValid t
  write_short small short =
      let k = claim_blocks-Taken (blocks_needed size) 0 id s v in
      let r = claim_blocks (blocks_needed size) 0 id s in
      elim k.outcome [
        | inl (enough, done, left) ↦ absurd (omega arith)
        | inr (lacking, done, left) ↦ (r.1, write-starts small ∙ failed r done, left, k.valid)
      ]
