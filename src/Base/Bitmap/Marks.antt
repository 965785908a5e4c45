-- ===== src/Base/Bitmap/Marks.antt =====
-- What setting and clearing a bit leaves of a bitmap.
use Prim.Native.Nat.{bit_and, bit_or}
use homeserver_os.Base.{
  ℕ, zero, suc, ◌-◌, ◌^◌, ◌<◌, ◌≡◌, ◌≢◌, ◌⊎◌, inl, inr, refl, ap, List, [], ◌∷◌, arith, length,
}
use homeserver_os.Base.Bits.{
  bit, bit-lt, bit-zero, bit-bit_or, bit-bit_and, bit-pow_self, bit-pow_ne, bit-mask_self,
  bit-mask_ne, bit-ext, pow-lt, bit_or-lt, bit_and-le,
}
use homeserver_os.Base.Bitmap.{set_bit, clear_bit, used}
use homeserver_os.Base.Table.{update_at}
use homeserver_os.Base.Table.Slots.{All, All-update_at, length-update_at}
use native.Mathlib.Decide.{ℕ_discrete}

-- The effect of a write on each bit, inside the bitmap.
pub used-set_bit_self : (ws : List ℕ) (i j : ℕ) → i < length ws → used (set_bit i j ws) i j ≡ 1
unfolding set_bit update_at
used-set_bit_self [] i j h = absurd (omega arith)
used-set_bit_self (w ∷ ws) zero j h =
    omega (arith, bit-bit_or w (2 ^ j) j, bit-pow_self j, bit-lt w j)
used-set_bit_self (w ∷ ws) (suc i) j h = used-set_bit_self ws i j (omega arith)

pub used-set_bit_ne :
    (ws : List ℕ) (i j k m : ℕ) → (i ≢ k) ⊎ (j ≢ m) → used (set_bit i j ws) k m ≡ used ws k m
unfolding set_bit update_at
used-set_bit_ne [] i j k m h = refl
used-set_bit_ne (w ∷ ws) zero j zero m (inl h) = absurd (h refl)
used-set_bit_ne (w ∷ ws) zero j zero m (inr h) =
    omega (arith, bit-bit_or w (2 ^ j) m, bit-pow_ne j m h)
used-set_bit_ne (w ∷ ws) zero j (suc k) m h = refl
used-set_bit_ne (w ∷ ws) (suc i) j zero m h = refl
used-set_bit_ne (w ∷ ws) (suc i) j (suc k) m (inl h) =
    used-set_bit_ne ws i j k m (inl (λ e. h (ap suc e)))
used-set_bit_ne (w ∷ ws) (suc i) j (suc k) m (inr h) = used-set_bit_ne ws i j k m (inr h)

module _ (width : ℕ) where
  pub used-clear_bit_self :
      (ws : List ℕ) (i j : ℕ) → j < width → used (clear_bit width i j ws) i j ≡ 0
  unfolding clear_bit update_at
  used-clear_bit_self [] i j h = bit-zero j
  used-clear_bit_self (w ∷ ws) zero j h =
      omega (arith, bit-bit_and w (2 ^ width - 1 - 2 ^ j) j, bit-mask_self width j h)
  used-clear_bit_self (w ∷ ws) (suc i) j h = used-clear_bit_self ws i j h

  pub used-clear_bit_ne :
      (ws : List ℕ) (i j k m : ℕ)
      → j < width
      → m < width
      → (i ≢ k) ⊎ (j ≢ m)
      → used (clear_bit width i j ws) k m ≡ used ws k m
  unfolding clear_bit update_at
  used-clear_bit_ne [] i j k m a b h = refl
  used-clear_bit_ne (w ∷ ws) zero j zero m a b (inl h) = absurd (h refl)
  used-clear_bit_ne (w ∷ ws) zero j zero m a b (inr h) =
      omega
        (arith, bit-bit_and w (2 ^ width - 1 - 2 ^ j) m, bit-mask_ne width j m a b h, bit-lt w m)
  used-clear_bit_ne (w ∷ ws) zero j (suc k) m a b h = refl
  used-clear_bit_ne (w ∷ ws) (suc i) j zero m a b h = refl
  used-clear_bit_ne (w ∷ ws) (suc i) j (suc k) m a b (inl h) =
      used-clear_bit_ne ws i j k m a b (inl (λ e. h (ap suc e)))
  used-clear_bit_ne (w ∷ ws) (suc i) j (suc k) m a b (inr h) =
      used-clear_bit_ne ws i j k m a b (inr h)

  -- Every word fits the width.
  abbrev pub Words : List ℕ → Type 0
  Words = All (λ w. w < 2 ^ width)

  pub set_bit-Words : (ws : List ℕ) (i j : ℕ) → j < width → Words ws → Words (set_bit i j ws)
  unfolding set_bit
  set_bit-Words ws i j h v =
      All-update_at (λ w. w < 2 ^ width) i (λ w. bit_or w (2 ^ j))
        (λ w lt. bit_or-lt width w (2 ^ j) lt (pow-lt j width h)) ws v

  pub clear_bit-Words : (ws : List ℕ) (i j : ℕ) → Words ws → Words (clear_bit width i j ws)
  unfolding clear_bit
  clear_bit-Words ws i j v =
      All-update_at (λ w. w < 2 ^ width) i (λ w. bit_and w (2 ^ width - 1 - 2 ^ j))
        (λ w lt. omega (arith, bit_and-le w w (2 ^ width - 1 - 2 ^ j) (omega arith))) ws v

  -- Clearing a bit that was free before it was set gives the bitmap back.
  clear_set_word :
      (w j : ℕ)
      → w < 2 ^ width
      → j < width
      → bit w j ≡ 0
      → bit_and (bit_or w (2 ^ j)) (2 ^ width - 1 - 2 ^ j) ≡ w
  clear_set_word w j h lt free =
      bit-ext width _ w
        (omega (
          arith,
          bit_and-le (bit_or w (2 ^ j)) (bit_or w (2 ^ j)) (2 ^ width - 1 - 2 ^ j) (omega arith),
          bit_or-lt width w (2 ^ j) h (pow-lt j width lt),
        ))
        h bits
    where
      bits :
          (k : ℕ) → k < width → bit (bit_and (bit_or w (2 ^ j)) (2 ^ width - 1 - 2 ^ j)) k ≡ bit w k
      bits k a = elim (ℕ_discrete j k) [
        | yes e ↦ rw (← e) (
            omega (
              arith,
              free,
              bit-bit_and (bit_or w (2 ^ j)) (2 ^ width - 1 - 2 ^ j) j,
              bit-mask_self width j lt,
            ))
        | no ne ↦ omega (
          arith,
          bit-lt w k,
          bit-bit_and (bit_or w (2 ^ j)) (2 ^ width - 1 - 2 ^ j) k,
          bit-bit_or w (2 ^ j) k,
          bit-pow_ne j k ne,
          bit-mask_ne width j k lt a ne,
        )
      ]

  pub clear_bit-set_bit :
      (ws : List ℕ) (i j : ℕ)
      → Words ws
      → i < length ws
      → j < width
      → used ws i j ≡ 0
      → clear_bit width i j (set_bit i j ws) ≡ ws
  unfolding clear_bit set_bit update_at
  clear_bit-set_bit [] i j v h lt free = refl
  clear_bit-set_bit (w ∷ ws) zero j v h lt free = ap (λ u. u ∷ ws) (clear_set_word w j v.0 lt free)
  clear_bit-set_bit (w ∷ ws) (suc i) j v h lt free =
      ap (λ us. w ∷ us) (clear_bit-set_bit ws i j v.1 (omega arith) lt free)

pub length-set_bit : (ws : List ℕ) (i j : ℕ) → length (set_bit i j ws) ≡ length ws
unfolding set_bit
length-set_bit ws i j = length-update_at i (λ w. bit_or w (2 ^ j)) ws

pub length-clear_bit :
    (width : ℕ) (ws : List ℕ) (i j : ℕ) → length (clear_bit width i j ws) ≡ length ws
unfolding clear_bit
length-clear_bit width ws i j = length-update_at i (λ w. bit_and w (2 ^ width - 1 - 2 ^ j)) ws

-- Clearing a bit that is free changes nothing.
clear_free_word :
    (width w j : ℕ)
    → w < 2 ^ width
    → j < width
    → bit w j ≡ 0
    → bit_and w (2 ^ width - 1 - 2 ^ j) ≡ w
clear_free_word width w j h lt free =
    bit-ext width _ w (omega (arith, bit_and-le w w (2 ^ width - 1 - 2 ^ j) (omega arith))) h bits
  where
    bits : (k : ℕ) → k < width → bit (bit_and w (2 ^ width - 1 - 2 ^ j)) k ≡ bit w k
    bits k a = elim (ℕ_discrete j k) [
      | yes e ↦
          rw (← e)
            (omega (arith, free, bit-bit_and w (2 ^ width - 1 - 2 ^ j) j, bit-mask_self width j lt))
      | no ne ↦ omega (
        arith,
        bit-lt w k,
        bit-bit_and w (2 ^ width - 1 - 2 ^ j) k,
        bit-mask_ne width j k lt a ne,
      )
    ]

pub clear_bit-free :
    (width : ℕ) (ws : List ℕ) (i j : ℕ)
    → Words width ws
    → j < width
    → used ws i j ≡ 0
    → clear_bit width i j ws ≡ ws
unfolding clear_bit update_at
clear_bit-free width [] i j v lt free = refl
clear_bit-free width (w ∷ ws) zero j v lt free =
    ap (λ u. u ∷ ws) (clear_free_word width w j v.0 lt free)
clear_bit-free width (w ∷ ws) (suc i) j v lt free =
    ap (λ us. w ∷ us) (clear_bit-free width ws i j v.1 lt free)
