-- ===== src/Base/Bitmap/Count.antt =====
-- How many bits of a bitmap are in use: a write changes the number by one.
use Prim.Native.Nat.{bit_and, bit_or}
use homeserver_os.Base.{
  ℕ, zero, suc, ◌+◌, ◌-◌, ◌*◌, ◌^◌, ◌≤◌, ◌<◌, ◌≡◌, ◌≢◌, refl, ap, List, [], ◌∷◌, arith, length,
  replicate,
}
use homeserver_os.Base.Bits.{
  bit, bit-lt, bit-zero, bit-bit_or, bit-bit_and, bit-pow_self, bit-pow_ne, bit-mask_self,
  bit-mask_ne,
}
use homeserver_os.Base.Bitmap.{set_bit, clear_bit, used, ones, total}
use homeserver_os.Base.Table.{update_at}
use native.Mathlib.Decide.{ℕ_discrete}

-- Words that agree but for bit j.
record AgreeBut (width j w u : ℕ) : Type 0 where
  others : (k : ℕ) → k < width → j ≢ k → bit u k ≡ bit w k
  was_free : bit w j ≡ 0
  is_set : bit u j ≡ 1

ones_agree : (n width j w u : ℕ) → AgreeBut width j w u → n ≤ width → n ≤ j → ones n u ≡ ones n w
ones_agree zero width j w u a h l = refl
ones_agree (suc n) width j w u a h l = omega (
  arith,
  a.others n (omega arith) (omega arith),
  ones_agree n width j w u a (omega arith) (omega arith),
)

ones_more : (n width j w u : ℕ) → AgreeBut width j w u → n ≤ width → j < n → ones n u ≡ ones n w + 1
ones_more zero width j w u a h l = absurd (omega arith)
ones_more (suc n) width j w u a h l = elim (ℕ_discrete j n) [
  | yes e ↦ omega (
    arith,
    a.was_free,
    a.is_set,
    ap (bit w) e,
    ap (bit u) e,
    ones_agree n width j w u a (omega arith) (omega arith),
  )
  | no ne ↦
      omega
        (arith, a.others n (omega arith) ne, ones_more n width j w u a (omega arith) (omega arith))
]

module _ (width j : ℕ) (lt : j < width) where
  set_word : (w : ℕ) → bit w j ≡ 0 → AgreeBut width j w (bit_or w (2 ^ j))
  set_word w free = record {
    others = λ k h ne. omega (arith, bit-bit_or w (2 ^ j) k, bit-pow_ne j k ne);
    was_free = free;
    is_set = omega (arith, free, bit-bit_or w (2 ^ j) j, bit-pow_self j);
  }

  cleared_word : (w : ℕ) → bit w j ≡ 1 → AgreeBut width j (bit_and w (2 ^ width - 1 - 2 ^ j)) w
  cleared_word w taken = record {
    others = λ k h ne.
        omega (
          arith,
          bit-lt w k,
          bit-bit_and w (2 ^ width - 1 - 2 ^ j) k,
          bit-mask_ne width j k lt h ne,
        );
    was_free = omega (arith, bit-bit_and w (2 ^ width - 1 - 2 ^ j) j, bit-mask_self width j lt);
    is_set = taken;
  }

  pub total-set_bit :
      (ws : List ℕ) (i : ℕ)
      → i < length ws
      → used ws i j ≡ 0
      → total width (set_bit i j ws) ≡ total width ws + 1
  unfolding set_bit update_at
  total-set_bit [] i h free = absurd (omega arith)
  total-set_bit (w ∷ ws) zero h free =
      omega (arith, ones_more width width j w (bit_or w (2 ^ j)) (set_word w free) (omega arith) lt)
  total-set_bit (w ∷ ws) (suc i) h free = omega (arith, total-set_bit ws i (omega arith) free)

  pub total-clear_bit :
      (ws : List ℕ) (i : ℕ)
      → used ws i j ≡ 1
      → total width (clear_bit width i j ws) + 1 ≡ total width ws
  unfolding clear_bit update_at
  total-clear_bit [] i taken = absurd (omega (arith, taken, bit-zero j))
  total-clear_bit (w ∷ ws) zero taken = omega (
    arith,
    ones_more width width j (bit_and w (2 ^ width - 1 - 2 ^ j)) w (cleared_word w taken)
        (omega arith) lt,
  )
  total-clear_bit (w ∷ ws) (suc i) taken = omega (arith, total-clear_bit ws i taken)

ones-le : (n w : ℕ) → ones n w ≤ n
ones-le zero w = omega arith
ones-le (suc n) w = omega (arith, ones-le n w, bit-lt w n)

pub total-le : (width : ℕ) (ws : List ℕ) → total width ws ≤ width * length ws
total-le width [] = omega arith
total-le width (w ∷ ws) = omega (arith, ones-le width w, total-le width ws)

ones-zero : (n : ℕ) → ones n 0 ≡ 0
ones-zero zero = refl
ones-zero (suc n) = omega (arith, ones-zero n, bit-zero n)

pub total-replicate : (width n : ℕ) → total width (replicate n 0) ≡ 0
total-replicate width zero = refl
total-replicate width (suc n) = omega (arith, ones-zero width, total-replicate width n)

ones-full : (n w : ℕ) → ((j : ℕ) → j < n → bit w j ≡ 1) → ones n w ≡ n
ones-full zero w h = refl
ones-full (suc n) w h = omega (arith, h n (omega arith), ones-full n w (λ j lt. h j (omega arith)))

-- A bitmap with no free bit counts them all.
pub total-full :
    (width : ℕ) (ws : List ℕ)
    → ((i j : ℕ) → i < length ws → j < width → used ws i j ≡ 1)
    → total width ws ≡ width * length ws
total-full width [] h = omega arith
total-full width (w ∷ ws) h = omega (
  arith,
  ones-full width w (λ j lt. h 0 j (omega arith) lt),
  total-full width ws (λ i j a b. h (suc i) j (omega arith) b),
)
