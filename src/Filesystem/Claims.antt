-- ===== src/Filesystem/Claims.antt =====
-- The blocks of kernel/fs/filesystem.c: `allocate_block`, and the loop of `fs_write`.
use homeserver_os.Base.{
  ℕ, zero, suc, ◌+◌, ◌*◌, ◌/◌, ◌%◌, ◌<◌, ◌≤◌, ◌≡◌, ◌≢◌, ◌⊎◌, sym, ap, take, List, [], ◌∷◌, refl,
  ◌∙◌, Bool, true, false, arith, length, none, some, get_elem?, inl, inr, Option-cases,
}
use homeserver_os.Base.Table.{update_at}
use homeserver_os.Base.Table.Slots.{All, get_elem?-update_at, length-update_at}
use homeserver_os.Base.Bitmap.{first_free, set_bit, used, total}
use homeserver_os.Base.Bitmap.Laws.{IsFirst, first_free-IsFirst, first_free-none}
use homeserver_os.Base.Bitmap.Marks.{used-set_bit_self, used-set_bit_ne, length-set_bit}
use homeserver_os.Base.Bitmap.Count.{total-set_bit, total-full, total-le}
use mathlib.Core.Path.{subst}
use native.Mathlib.Decide.{ℕ_discrete}
use homeserver_os.Filesystem.{
  Filesystem, Inode, max_blocks, max_files, dec, claim_block, allocate_block, claim_blocks,
  put_block,
}

-- Between two calls: a bit for each block, and the counter of the free ones tells how many are clear.
pub record IsValid (s : Filesystem) : Type 0 where
  pub covers : length s.block_bitmap ≡ max_blocks / 8
  pub counted : s.superblock.free_blocks + total 8 s.block_bitmap ≡ max_blocks
  pub inodes_size : length s.inodes ≡ max_files

-- What an `allocate_block` that finds a block leaves.
pub record Claimed (block : ℕ) (s t : Filesystem) : Type 0 where
  pub in_range : block < max_blocks
  pub was_free : used s.block_bitmap (block / 8) (block % 8) ≡ 0
  pub now_used : used t.block_bitmap (block / 8) (block % 8) ≡ 1
  pub others :
      (b : ℕ)
      → b ≢ block
      → used t.block_bitmap (b / 8) (b % 8) ≡ used s.block_bitmap (b / 8) (b % 8)
  pub fewer : t.superblock.free_blocks + 1 ≡ s.superblock.free_blocks
  pub same_inodes : t.inodes ≡ s.inodes
  pub valid : IsValid t

apart : (i j b : ℕ) → j < 8 → b ≢ i * 8 + j → (i ≢ b / 8) ⊎ (j ≢ b % 8)
apart i j b h ne = elim (ℕ_discrete i (b / 8)) [
  | yes e ↦ inr (λ q. ne (omega arith))
  | no other ↦ inl other
]

claim_block-Claimed :
    (s : Filesystem) (i j : ℕ)
    → IsValid s
    → IsFirst 8 (max_blocks / 8) s.block_bitmap i j
    → (block : ℕ) × (t : Filesystem) × (claim_block s (some (i, j)) ≡ some (block, t))
      × Claimed block s t
unfolding claim_block
claim_block-Claimed s i j v h =
    let grown = total-set_bit 8 j h.offset s.block_bitmap i h.inside h.is_free in
    let row : i ≡ (i * 8 + j) / 8 = omega (arith, h.offset) in
    let place : j ≡ (i * 8 + j) % 8 = omega (arith, h.offset) in
    let bound = total-le 8 (set_bit i j s.block_bitmap) in
    let size = length-set_bit s.block_bitmap i j in
    (
      i * 8 + j,
      record s {
        block_bitmap = set_bit i j s.block_bitmap;
        superblock = record s.superblock { free_blocks = dec s.superblock.free_blocks };
      },
      refl,
      record {
        in_range = omega (arith, h.word, h.offset);
        was_free = rw (← row, ← place) h.is_free;
        now_used = rw (← row, ← place) (used-set_bit_self s.block_bitmap i j h.inside);
        others =
            λ b ne. used-set_bit_ne s.block_bitmap i j (b / 8) (b % 8) (apart i j b h.offset ne);
        fewer = omega (arith, v.counted, v.covers, grown, bound, size);
        same_inodes = refl;
        valid = record {
          covers = size ∙ v.covers;
          counted = omega (arith, v.counted, v.covers, grown, bound, size);
          inodes_size = v.inodes_size;
        };
      },
    )

allocate_block-Claimed :
    (s : Filesystem)
    → IsValid s
    → ((s.superblock.free_blocks ≡ 0) × (allocate_block s ≡ none))
      ⊎ ((block : ℕ) × (t : Filesystem) × (allocate_block s ≡ some (block, t)) × Claimed block s t)
unfolding allocate_block claim_block
allocate_block-Claimed s v = elim (Option-cases (first_free 8 (max_blocks / 8) s.block_bitmap)) [
  | inl e ↦
      let taken = first_free-none 8 (max_blocks / 8) s.block_bitmap (omega (arith, v.covers)) e in
      let full = total-full 8 s.block_bitmap (λ i j a b. taken i j (omega (arith, v.covers)) b) in
      inl (omega (arith, v.counted, v.covers, full), rw (e, claim_block) refl)
  | inr ((i, j), e) ↦
      let (block, t, q, c) =
        claim_block-Claimed s i j v (first_free-IsFirst 8 (max_blocks / 8) s.block_bitmap i j e) in
      inr (block, t, rw e q, c)
]

put_block-IsValid : (id i block : ℕ) (s : Filesystem) → IsValid s → IsValid (put_block id i block s)
put_block-IsValid id i block s v = record {
  covers = v.covers;
  counted = v.counted;
  inodes_size =
      length-update_at id
        (λ inode. record inode { blocks = update_at i (λ old. block) inode.blocks }) s.inodes
      ∙ v.inodes_size;
}

-- The loop takes a block in each round, and stops where there is none.
pub record Taken (n : ℕ) (s : Filesystem) (r : Bool × Filesystem) : Type 0 where
  pub outcome :
      ((n ≤ s.superblock.free_blocks)
        × (r.0 ≡ true)
        × (r.1.superblock.free_blocks + n ≡ s.superblock.free_blocks))
      ⊎ ((s.superblock.free_blocks < n) × (r.0 ≡ false) × (r.1.superblock.free_blocks ≡ 0))
  pub valid : IsValid r.1

pub claim_blocks-Taken :
    (n i id : ℕ) (s : Filesystem) → IsValid s → Taken n s (claim_blocks n i id s)
unfolding claim_blocks
claim_blocks-Taken zero i id s v = record {
  outcome = inl (omega arith, refl, omega arith);
  valid = v;
}
claim_blocks-Taken (suc n) i id s v = elim (allocate_block-Claimed s v) [
  | inl (empty, e) ↦
      rw (e, claim_blocks) (record { outcome = inr (omega arith, refl, empty); valid = v })
  | inr (block, t, e, c) ↦
      let k =
        claim_blocks-Taken n (suc i) id (put_block id i block t)
          (put_block-IsValid id i block t c.valid) in
      rw (e, claim_blocks)
        (record {
          outcome = one_more (claim_blocks n (suc i) id (put_block id i block t)) c k.outcome;
          valid = k.valid;
        })
]
  where
    one_more :
        {block : ℕ} {t : Filesystem} (r : Bool × Filesystem)
        → Claimed block s t
        → ((n ≤ t.superblock.free_blocks)
            × (r.0 ≡ true)
            × (r.1.superblock.free_blocks + n ≡ t.superblock.free_blocks))
          ⊎ ((t.superblock.free_blocks < n) × (r.0 ≡ false) × (r.1.superblock.free_blocks ≡ 0))
        → ((suc n ≤ s.superblock.free_blocks)
            × (r.0 ≡ true)
            × (r.1.superblock.free_blocks + suc n ≡ s.superblock.free_blocks))
          ⊎ ((s.superblock.free_blocks < suc n) × (r.0 ≡ false) × (r.1.superblock.free_blocks ≡ 0))
    one_more r c (inl (room, done, left)) =
        inl (omega (arith, c.fewer), done, omega (arith, c.fewer))
    one_more r c (inr (short, done, left)) = inr (omega (arith, c.fewer), done, left)

-- The bit of a block: 1 while it is in use.
abbrev pub in_use : Filesystem → ℕ → ℕ
in_use s b = used s.block_bitmap (b / 8) (b % 8)

-- Numbers stored in an array from an index on
abbrev pub put_all : ℕ → List ℕ → List ℕ → List ℕ
put_all i [] xs = xs
put_all i (b ∷ bs) xs = put_all (suc i) bs (update_at i (λ old. b) xs)

put_all-suc :
    (i : ℕ) (bs : List ℕ) (x : ℕ) (xs : List ℕ) → put_all (suc i) bs (x ∷ xs) ≡ x ∷ put_all i bs xs
unfolding update_at
put_all-suc i [] x xs = refl
put_all-suc i (b ∷ bs) x xs = put_all-suc (suc i) bs x (update_at i (λ old. b) xs)

pub take-put_all :
    (bs xs : List ℕ) → length bs ≤ length xs → take (length bs) (put_all 0 bs xs) ≡ bs
unfolding update_at
take-put_all [] xs h = refl
take-put_all (b ∷ bs) [] h = absurd (omega arith)
take-put_all (b ∷ bs) (x ∷ xs) h =
    rw (put_all-suc 0 bs b xs) (ap (λ l. b ∷ l) (take-put_all bs xs (omega arith)))

-- The blocks that the loop took, and what it did to the inode.
pub record Grown (n i id : ℕ) (s t : Filesystem) : Type 0 where
  pub blocks : List ℕ
  pub amount : length blocks ≡ n
  pub were_free : All (λ b. in_use s b ≡ 0) blocks
  pub now_used : All (λ b. in_use t b ≡ 1) blocks
  pub kept : (b : ℕ) → in_use s b ≡ 1 → in_use t b ≡ 1
  pub others : (b : ℕ) → All (λ c. b ≢ c) blocks → in_use t b ≡ in_use s b
  pub stored :
      (inode : Inode)
      → get_elem? s.inodes id ≡ some inode
      → get_elem? t.inodes id ≡ some (record inode { blocks = put_all i blocks inode.blocks })

earlier_free :
    (block : ℕ) (s t : Filesystem) (bs : List ℕ)
    → Claimed block s t
    → All (λ b. in_use t b ≡ 0) bs
    → All (λ b. in_use s b ≡ 0) bs
earlier_free block s t [] c h = tt
earlier_free block s t (b ∷ bs) c h =
    (sym (c.others b (λ e. clash e)) ∙ h.0, earlier_free block s t bs c h.1)
  where
    clash : b ≢ block
    clash e = let now = subst (λ k. in_use t k ≡ 1) (sym e) c.now_used in omega (arith, h.0, now)

pub claim_blocks-Grown :
    (n i id : ℕ) (s : Filesystem)
    → IsValid s
    → id < max_files
    → (claim_blocks n i id s).0 ≡ true
    → Grown n i id s (claim_blocks n i id s).1
unfolding claim_blocks
claim_blocks-Grown zero i id s v inside h = record {
  blocks = [];
  amount = refl;
  were_free = tt;
  now_used = tt;
  kept = λ b e. e;
  others = λ b e. refl;
  stored = λ inode e. e;
}
claim_blocks-Grown (suc n) i id s v inside h = elim (allocate_block-Claimed s v) [
  | inl (empty, e) ↦ let h' : false ≡ true = rw (e, claim_blocks) at h in absurd (cc)
  | inr (block, t, e, c) ↦
      let u = put_block id i block t in
      let g =
        claim_blocks-Grown n (suc i) id u (put_block-IsValid id i block t c.valid) inside
          (rw (e, claim_blocks) at h) in
      rw (e, claim_blocks)
        (record {
          blocks = block ∷ g.blocks;
          amount = ap suc g.amount;
          were_free = (c.was_free, earlier_free block s t g.blocks c g.were_free);
          now_used = (g.kept block c.now_used, g.now_used);
          kept = λ b taken. g.kept b (still b taken c);
          others = λ b apart. g.others b apart.1 ∙ c.others b apart.0;
          stored = λ inode here.
              g.stored (record inode { blocks = update_at i (λ old. block) inode.blocks })
                (get_elem?-update_at id
                  (λ (inode : Inode). record inode {
                    blocks = update_at i (λ old. block) inode.blocks;
                  })
                  t.inodes (rw c.same_inodes here));
        })
]
  where
    still :
        {block : ℕ} {t : Filesystem} (b : ℕ) → in_use s b ≡ 1 → Claimed block s t → in_use t b ≡ 1
    still {block} {t} b taken c = elim (ℕ_discrete b block) [
      | yes e ↦ subst (λ k. in_use t k ≡ 1) (sym e) c.now_used
      | no ne ↦ c.others b ne ∙ taken
    ]
