-- ===== src/Network/Checksum.antt =====
-- `calculate_checksum` of kernel/net/network.c against the one's-complement sum.
use homeserver_os.Base.{
  ℕ, zero, suc, ◌+◌, ◌-◌, ◌*◌, ◌/◌, ◌%◌, ◌^◌, ◌<◌, ◌≤◌, ◌≡◌, refl, ap, sym, ◌∙◌, List, [], ◌∷◌,
  ◌++◌, arith, length, some, ◌==◌, true, false,
}
use homeserver_os.Base.Table.Slots.{All}
use homeserver_os.Network.{add_words, fold_carry, complement, checksum}
use native.Mathlib.Decide.{dec_lt}

-- The sum of the 16-bit words of the data, without a bound.
abbrev pub word_total : List ℕ → ℕ
word_total [] = 0
word_total (b ∷ []) = b
word_total (b ∷ c ∷ more) = b + c * 256 + word_total more

-- Addition with the carry brought round, in one step: 0 for 0, and else the residue modulo 65535 that
-- lies between 1 and 65535.
abbrev pub ones_sum : ℕ → ℕ
ones_sum zero = 0
ones_sum (suc n) = n % 65535 + 1

add_words-total :
    (sum : ℕ) (bytes : List ℕ)
    → sum + word_total bytes < 2 ^ 32
    → add_words sum bytes ≡ sum + word_total bytes
unfolding add_words
add_words-total sum [] h = omega arith
add_words-total sum (b ∷ []) h = omega arith
add_words-total sum (b ∷ c ∷ more) h =
    let exact : (sum + (b + c * 256)) % 2 ^ 32 ≡ sum + (b + c * 256) = omega arith in
    rw exact (add_words-total (sum + (b + c * 256)) more (omega arith) ∙ omega arith)

small : (s : ℕ) → s < 2 ^ 16 → ones_sum s ≡ s
small zero h = refl
small (suc n) h = omega arith

positive : (s : ℕ) → 0 < s → ones_sum s ≡ (s - 1) % 65535 + 1
positive zero h = absurd (omega arith)
positive (suc n) h = omega arith

abbrev around : ℕ → ℕ
around s = (s % 2 ^ 16 + s / 2 ^ 16) % 2 ^ 32

ones_sum-around : (s : ℕ) → s < 2 ^ 32 → ones_sum (around s) ≡ ones_sum s
ones_sum-around zero h = refl
ones_sum-around (suc n) h =
    omega (arith, positive (around (suc n)) (omega arith), positive (suc n) (omega arith))

fold_carry-done : (f s : ℕ) → s < 2 ^ 16 → fold_carry (suc f) s ≡ some s
unfolding fold_carry
fold_carry-done f s h =
    let no_carry : (s / 2 ^ 16 == 0) ≡ true = ground arith in rw (no_carry, fold_carry) refl

fold_carry-more : (f s : ℕ) → 2 ^ 16 ≤ s → fold_carry (suc f) s ≡ fold_carry f (around s)
unfolding fold_carry
fold_carry-more f s h =
    let carry : (s / 2 ^ 16 == 0) ≡ false = ground arith in rw (carry, fold_carry) refl

-- Three tests are enough for a 32-bit sum, so the loop ends.
fold_carry-ones_sum : (s : ℕ) → s < 2 ^ 32 → fold_carry 3 s ≡ some (ones_sum s)
fold_carry-ones_sum s h = elim (dec_lt s (2 ^ 16)) [
  | yes none_left ↦ fold_carry-done 2 s none_left ∙ ap (λ n. some n) (sym (small s none_left))
  | no once ↦
      fold_carry-more 2 s (omega arith)
      ∙ second (around s) (omega arith)
      ∙ ap (λ n. some n) (ones_sum-around s h)
]
  where
    second : (t : ℕ) → t ≤ 131070 → fold_carry 2 t ≡ some (ones_sum t)
    second t l = elim (dec_lt t (2 ^ 16)) [
      | yes none_left ↦ fold_carry-done 1 t none_left ∙ ap (λ n. some n) (sym (small t none_left))
      | no twice ↦
          fold_carry-more 1 t (omega arith)
          ∙ fold_carry-done 0 (around t) (omega arith)
          ∙ ap (λ n. some n)
              (sym (small (around t) (omega arith)) ∙ ones_sum-around t (omega arith))
    ]

ones_sum-le : (s : ℕ) → ones_sum s ≤ 65535
ones_sum-le zero = omega arith
ones_sum-le (suc n) = omega arith

checksum_of_total :
    (bytes : List ℕ)
    → word_total bytes < 2 ^ 32
    → checksum bytes ≡ some (65535 - ones_sum (word_total bytes))
unfolding checksum
checksum_of_total bytes h =
    let total = add_words-total 0 bytes (omega arith) in
    let whole : 0 + word_total bytes ≡ word_total bytes = omega arith in
    let bound = ones_sum-le (word_total bytes) in
    let flipped : complement (ones_sum (word_total bytes)) ≡ 65535 - ones_sum (word_total bytes) =
      omega (arith, bound) in
    rw (total, whole, fold_carry-ones_sum (word_total bytes) h) (ap (λ n. some n) flipped)

abbrev pub IsByte : ℕ → Type 0
IsByte b = b < 256

word_total-bound :
    (bytes : List ℕ) → All IsByte bytes → 2 * word_total bytes ≤ 65535 * (length bytes + 1)
word_total-bound [] h = omega arith
word_total-bound (b ∷ []) h = omega arith
word_total-bound (b ∷ c ∷ more) (p, (q, h)) = omega (arith, word_total-bound more h)

-- Of at most 131,070 bytes, `calculate_checksum` always gives a result, and it is the complement of
-- their one's-complement sum: its loop over the carries ends, and no carry is lost.
pub checksum-ones_sum :
    (bytes : List ℕ)
    → All IsByte bytes
    → length bytes ≤ 131070
    → checksum bytes ≡ some (65535 - ones_sum (word_total bytes))
checksum-ones_sum bytes h short = checksum_of_total bytes (omega (arith, word_total-bound bytes h))

word_total-append :
    (bytes : List ℕ) (low high : ℕ)
    → length bytes % 2 ≡ 0
    → word_total (bytes ++ low ∷ high ∷ []) ≡ word_total bytes + (low + high * 256)
word_total-append [] low high e = omega arith
word_total-append (b ∷ []) low high e = absurd (omega arith)
word_total-append (b ∷ c ∷ more) low high e =
    omega (arith, word_total-append more low high (omega arith))

completed : (t : ℕ) → ones_sum (t + (65535 - ones_sum t)) ≡ 65535
completed zero = refl
completed (suc n) = omega (arith, positive (suc n + (65535 - ones_sum (suc n))) (omega arith))

-- A receiver's check: behind an even number of bytes, 131,070 at most, put the two bytes of their
-- checksum, the low one first; the checksum of the whole is 0.
pub checksum-append :
    (bytes : List ℕ)
    → All IsByte bytes
    → length bytes ≤ 131070
    → length bytes % 2 ≡ 0
    → (sum : ℕ) × (checksum bytes ≡ some sum)
      × (sum < 2 ^ 16)
      × (checksum (bytes ++ sum % 256 ∷ sum / 256 ∷ []) ≡ some 0)
checksum-append bytes h short even =
    let bound = word_total-bound bytes h in
    let sum : ℕ = 65535 - ones_sum (word_total bytes) in
    let total : word_total (bytes ++ sum % 256 ∷ sum / 256 ∷ []) ≡ word_total bytes + sum =
      word_total-append bytes (sum % 256) (sum / 256) even ∙ omega arith in
    let checked =
      checksum_of_total (bytes ++ sum % 256 ∷ sum / 256 ∷ []) (omega (arith, total, bound)) in
    (
      sum,
      checksum-ones_sum bytes h short,
      omega arith,
      checked
          ∙ ap (λ t. some (65535 - ones_sum t)) total
          ∙ ap (λ n. some (65535 - n)) (completed (word_total bytes)),
    )
