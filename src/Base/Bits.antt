-- ===== src/Base/Bits.antt =====
-- Single bits of a word, and what `|`, `&` and the complement do to them.
use Prim.Native.Nat.{bit_and, bit_or, digits, bit_and-bitwise, bit_or-bitwise}
use homeserver_os.Base.{
  ℕ, zero, suc, ◌+◌, ◌-◌, ◌*◌, ◌/◌, ◌%◌, ◌^◌, ◌≤◌, ◌<◌, min, max, ◌≡◌, ◌≢◌, refl, ap, ◌∙◌, arith,
}
use native.Mathlib.Nat.{pow-suc}
use native.Mathlib.Decide.{dec_lt}

-- A native operation on two words stands for a recursion on fuel: `join` works on their lowest bits,
-- and `rest` gives what is left when the first word has ended. The fuel beyond the first word is idle.
module _ (rest : ℕ → ℕ) (join : ℕ → ℕ → ℕ) where
  one_less : (r a b : ℕ) → a ≤ r → digits rest join (suc r) a b ≡ digits rest join r a b
  one_less zero zero b h = refl
  one_less zero (suc a) b h = absurd (omega arith)
  one_less (suc r) zero b h = refl
  one_less (suc r) (suc a) b h =
      ap (λ w. w * 2 + join (suc a % 2) (b % 2)) (one_less r (suc a / 2) (b / 2) (omega arith))

  idle : (r a b : ℕ) → a ≤ r → digits rest join r a b ≡ digits rest join a a b
  idle zero zero b h = refl
  idle zero (suc a) b h = absurd (omega arith)
  idle (suc r) a b h = elim (dec_lt a (suc r)) [
    | yes spare ↦ one_less r a b (omega arith) ∙ idle r a b (omega arith)
    | no exact ↦ let all_used : suc r ≡ a = omega arith in ap (λ n. digits rest join n a b) all_used
  ]

  halve :
      (a b : ℕ)
      → digits rest join (suc a) (suc a) b
        ≡ digits rest join (suc a / 2) (suc a / 2) (b / 2) * 2 + join (suc a % 2) (b % 2)
  halve a b = ap (λ w. w * 2 + join (suc a % 2) (b % 2)) (idle a (suc a / 2) (b / 2) (omega arith))

none-and : (w : ℕ) → bit_and 0 w ≡ 0
none-and w = bit_and-bitwise 0 w

none-or : (w : ℕ) → bit_or 0 w ≡ w
none-or w = bit_or-bitwise 0 w

-- So `&` and `|` are the operation on the lowest bits, and in front of it that on the halves.
pub bit_and-halves : (v w : ℕ) → bit_and v w ≡ min (v % 2) (w % 2) + 2 * bit_and (v / 2) (w / 2)
bit_and-halves zero w = omega (arith, none-and w, none-and (w / 2))
bit_and-halves (suc v) w =
    let whole = bit_and-bitwise (suc v) w in
    let half = bit_and-bitwise (suc v / 2) (w / 2) in
    omega (arith, whole ∙ halve (λ x. zero) min v w, half)

pub bit_or-halves : (v w : ℕ) → bit_or v w ≡ max (v % 2) (w % 2) + 2 * bit_or (v / 2) (w / 2)
bit_or-halves zero w = omega (arith, none-or w, none-or (w / 2))
bit_or-halves (suc v) w =
    let whole = bit_or-bitwise (suc v) w in
    let half = bit_or-bitwise (suc v / 2) (w / 2) in
    omega (arith, whole ∙ halve (λ x. x) max v w, half)

-- Bit k of a word, 0 or 1.
unfoldable pub bit : ℕ → ℕ → ℕ
bit w zero = w % 2
bit w (suc k) = bit (w / 2) k

pub bit-lt : (w k : ℕ) → bit w k < 2
unfolding bit
bit-lt w zero = omega arith
bit-lt w (suc k) = bit-lt (w / 2) k

pub bit-bit_or : (a b k : ℕ) → bit (bit_or a b) k ≡ max (bit a k) (bit b k)
unfolding bit
bit-bit_or a b zero = omega (arith, bit_or-halves a b)
bit-bit_or a b (suc k) =
    let half : bit_or a b / 2 ≡ bit_or (a / 2) (b / 2) = omega (arith, bit_or-halves a b) in
    rw half (bit-bit_or (a / 2) (b / 2) k)

pub bit-bit_and : (a b k : ℕ) → bit (bit_and a b) k ≡ min (bit a k) (bit b k)
unfolding bit
bit-bit_and a b zero = omega (arith, bit_and-halves a b)
bit-bit_and a b (suc k) =
    let half : bit_and a b / 2 ≡ bit_and (a / 2) (b / 2) = omega (arith, bit_and-halves a b) in
    rw half (bit-bit_and (a / 2) (b / 2) k)

pub bit-zero : (k : ℕ) → bit 0 k ≡ 0
unfolding bit
bit-zero zero = refl
bit-zero (suc k) = bit-zero k

twice_pow : (j : ℕ) → 2 ^ suc j ≡ 2 * 2 ^ j
twice_pow j = pow-suc 2 j ∙ omega arith

-- The mask `1 << j`.
pub bit-pow_self : (j : ℕ) → bit (2 ^ j) j ≡ 1
unfolding bit
bit-pow_self zero = refl
bit-pow_self (suc j) =
    let half : 2 ^ suc j / 2 ≡ 2 ^ j = omega (arith, twice_pow j) in rw half (bit-pow_self j)

pub bit-pow_ne : (j k : ℕ) → j ≢ k → bit (2 ^ j) k ≡ 0
unfolding bit
bit-pow_ne zero zero h = absurd (h refl)
bit-pow_ne zero (suc k) h = bit-zero k
bit-pow_ne (suc j) zero h = omega (arith, twice_pow j)
bit-pow_ne (suc j) (suc k) h =
    let half : 2 ^ suc j / 2 ≡ 2 ^ j = omega (arith, twice_pow j) in
    rw half (bit-pow_ne j k (λ e. h (ap suc e)))

pub pow_pos : (j : ℕ) → 0 < 2 ^ j
pow_pos zero = omega arith
pow_pos (suc j) = omega (arith, pow_pos j, twice_pow j)

and_below : (n w : ℕ) → w < 2 ^ n → bit_and w 0 ≡ 0
and_below zero w h = let empty : w ≡ 0 = omega arith in rw empty refl
and_below (suc n) w h =
    omega (arith, bit_and-halves w 0, twice_pow n, and_below n (w / 2) (omega (arith, twice_pow n)))

below_pow : (w : ℕ) → w < 2 ^ w
below_pow zero = omega arith
below_pow (suc w) = omega (arith, below_pow w, twice_pow w)

-- `w & (1 << j)` is not 0 exactly where bit j is set.
pub bit_and-pow : (w j : ℕ) → bit_and w (2 ^ j) ≡ bit w j * 2 ^ j
unfolding bit
bit_and-pow w zero =
    omega (arith, bit_and-halves w 1, and_below (w / 2) (w / 2) (below_pow (w / 2)))
bit_and-pow w (suc j) =
    let half : 2 ^ suc j / 2 ≡ 2 ^ j = omega (arith, twice_pow j) in
    omega (
      arith,
      bit_and-halves w (2 ^ suc j),
      ap (λ m. bit_and (w / 2) m) half,
      bit_and-pow (w / 2) j,
      twice_pow j,
      ap (λ m. bit (w / 2) j * m) (twice_pow j),
    )

-- A word of n ones.
pub bit-ones : (n k : ℕ) → k < n → bit (2 ^ n - 1) k ≡ 1
unfolding bit
bit-ones zero k h = absurd (omega arith)
bit-ones (suc n) zero h = omega (arith, twice_pow n, pow_pos n)
bit-ones (suc n) (suc k) h =
    let half : (2 ^ suc n - 1) / 2 ≡ 2 ^ n - 1 = omega (arith, twice_pow n, pow_pos n) in
    rw half (bit-ones n k (omega arith))

pow-le : (j n : ℕ) → j < n → 2 ^ j * 2 ≤ 2 ^ n
pow-le zero zero h = absurd (omega arith)
pow-le zero (suc n) h = omega (arith, twice_pow n, pow_pos n)
pow-le (suc j) zero h = absurd (omega arith)
pow-le (suc j) (suc n) h = omega (arith, twice_pow j, twice_pow n, pow-le j n (omega arith))

-- The mask `~(1 << j)` of an n-bit word.
pub bit-mask_self : (n j : ℕ) → j < n → bit (2 ^ n - 1 - 2 ^ j) j ≡ 0
unfolding bit
bit-mask_self zero j h = absurd (omega arith)
bit-mask_self (suc n) zero h = omega (arith, twice_pow n, pow_pos n)
bit-mask_self (suc n) (suc j) h =
    let half : (2 ^ suc n - 1 - 2 ^ suc j) / 2 ≡ 2 ^ n - 1 - 2 ^ j =
      omega (arith, twice_pow n, twice_pow j, pow_pos n, pow-le j n (omega arith)) in
    rw half (bit-mask_self n j (omega arith))

pub bit-mask_ne : (n j k : ℕ) → j < n → k < n → j ≢ k → bit (2 ^ n - 1 - 2 ^ j) k ≡ 1
unfolding bit
bit-mask_ne zero j k h l ne = absurd (omega arith)
bit-mask_ne (suc n) zero zero h l ne = absurd (ne refl)
bit-mask_ne (suc n) zero (suc k) h l ne =
    let half : (2 ^ suc n - 1 - 1) / 2 ≡ 2 ^ n - 1 = omega (arith, twice_pow n, pow_pos n) in
    rw half (bit-ones n k (omega arith))
bit-mask_ne (suc n) (suc j) zero h l ne =
    omega (arith, twice_pow n, twice_pow j, pow_pos n, pow-le j n (omega arith))
bit-mask_ne (suc n) (suc j) (suc k) h l ne =
    let half : (2 ^ suc n - 1 - 2 ^ suc j) / 2 ≡ 2 ^ n - 1 - 2 ^ j =
      omega (arith, twice_pow n, twice_pow j, pow_pos n, pow-le j n (omega arith)) in
    rw half (bit-mask_ne n j k (omega arith) (omega arith) (λ e. ne (ap suc e)))

-- Words with the same bits are equal.
pub bit-ext : (n a b : ℕ) → a < 2 ^ n → b < 2 ^ n → ((k : ℕ) → k < n → bit a k ≡ bit b k) → a ≡ b
unfolding bit
bit-ext zero a b h l same = omega arith
bit-ext (suc n) a b h l same = omega (
  arith,
  same 0 (omega arith),
  bit-ext n (a / 2) (b / 2) (omega (arith, twice_pow n)) (omega (arith, twice_pow n))
      (λ k lt. same (suc k) (omega arith)),
)

pub bit_or-lt : (n a b : ℕ) → a < 2 ^ n → b < 2 ^ n → bit_or a b < 2 ^ n
bit_or-lt zero zero zero h l = omega (arith, bit_or-halves 0 0, none-or 0)
bit_or-lt zero (suc a) b h l = absurd (omega arith)
bit_or-lt zero zero (suc b) h l = absurd (omega arith)
bit_or-lt (suc n) a b h l = omega (
  arith,
  bit_or-halves a b,
  twice_pow n,
  bit_or-lt n (a / 2) (b / 2) (omega (arith, twice_pow n)) (omega (arith, twice_pow n)),
)

pub bit_and-le : (n a b : ℕ) → a ≤ n → bit_and a b ≤ a
bit_and-le n zero b h = omega (arith, none-and b)
bit_and-le zero (suc a) b h = absurd (omega arith)
bit_and-le (suc n) (suc a) b h =
    omega (arith, bit_and-halves (suc a) b, bit_and-le n (suc a / 2) (b / 2) (omega arith))

pub pow-lt : (j n : ℕ) → j < n → 2 ^ j < 2 ^ n
pow-lt j n h = omega (arith, pow-le j n h, pow_pos j)
