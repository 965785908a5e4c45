-- ===== src/Base/Bitmap.antt =====
-- Bitmaps: arrays of words of which each bit stands for a frame, a block or an inode. The loops are
-- the source's, with the width of a word as a parameter; bit j of word i is addressed by (i, j).
pub mod Laws
pub mod Marks
pub mod Count
use Prim.Native.Nat.{bit_and, bit_or}
use homeserver_os.Base.{
  ℕ, zero, suc, ◌+◌, ◌-◌, ◌^◌, List, [], ◌∷◌, Option, none, some, ◌==◌, if◌then◌else◌, get_or,
}
use homeserver_os.Base.Bits.{bit}
use homeserver_os.Base.Table.{update_at}
use mathlib.Core.Option

-- `for (; j < width; j++) if (!(w & (1 << j))) return j;` with `r` rounds left
unfoldable pub free_bit : ℕ → ℕ → ℕ → Option ℕ
free_bit zero j w = none
free_bit (suc r) j w =
    let rest = free_bit r (suc j) w in if bit_and w (2 ^ j) == 0 then some j else rest

abbrev pub next_word : ℕ × ℕ → ℕ × ℕ
next_word (i, j) = (suc i, j)

-- The `return` out of both loops at a bit of the first word, or what the later words give.
abbrev pub in_word : Option ℕ → Option (ℕ × ℕ) → Option (ℕ × ℕ)
in_word (some j) rest = some (0, j)
in_word none rest = rest

-- `for (i = 0; i < n; i++) if (bitmap[i] != all ones) for (j = 0; j < width; j++) …`
unfoldable pub first_free : ℕ → ℕ → List ℕ → Option (ℕ × ℕ)
unfolding free_bit
first_free width zero ws = none
first_free width (suc n) [] = none
first_free width (suc n) (w ∷ ws) =
    let rest = Option.map next_word (first_free width n ws) in
    if w == 2 ^ width - 1 then rest else in_word (free_bit width 0 w) rest

-- `bitmap[i] |= 1 << j`
unfoldable pub set_bit : ℕ → ℕ → List ℕ → List ℕ
set_bit i j = update_at i (λ w. bit_or w (2 ^ j))

-- `bitmap[i] &= ~(1 << j)`
unfoldable pub clear_bit : ℕ → ℕ → ℕ → List ℕ → List ℕ
clear_bit width i j = update_at i (λ w. bit_and w (2 ^ width - 1 - 2 ^ j))

-- Bit j of word i: 1 for what is in use.
abbrev pub used : List ℕ → ℕ → ℕ → ℕ
used ws i j = bit (get_or ws i 0) j

-- The number of bits in use, in the first `n` bits of a word and in a bitmap.
abbrev pub ones : ℕ → ℕ → ℕ
ones zero w = 0
ones (suc n) w = bit w n + ones n w

abbrev pub total : ℕ → List ℕ → ℕ
total width [] = 0
total width (w ∷ ws) = ones width w + total width ws
