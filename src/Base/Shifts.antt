-- ===== src/Base/Shifts.antt =====
-- The bits of a shifted and of a truncated word.
use homeserver_os.Base.{
  ℕ, zero, suc, ◌+◌, ◌*◌, ◌/◌, ◌%◌, ◌^◌, ◌<◌, ◌≤◌, ◌≡◌, refl, ap, sym, ◌∙◌, arith,
}
use homeserver_os.Base.Bits.{bit, bit-zero}
use native.Mathlib.Nat.{pow-suc, div-div-eq-div-mul, mod-eq-sub-div-mul, div-mul-le_self}

double_pow : (j : ℕ) → 2 ^ suc j ≡ 2 * 2 ^ j
double_pow j = pow-suc 2 j ∙ omega arith

div_double : (w m : ℕ) → w / (2 * m) ≡ w / 2 / m
div_double w m = sym (div-div-eq-div-mul w 2 m)

mod_double : (w m : ℕ) → w % (2 * m) ≡ (w / 2 % m) * 2 + w % 2
mod_double w m = grind (
  arith,
  div_double w m,
  mod-eq-sub-div-mul w (2 * m),
  mod-eq-sub-div-mul (w / 2) m,
  div-mul-le_self w (2 * m),
  div-mul-le_self (w / 2) m,
)

div_one : (w : ℕ) → w / 1 ≡ w
div_one w = omega arith

shl_half : (w j : ℕ) → w * 2 ^ suc j ≡ 2 * (w * 2 ^ j)
shl_half w j = ap (λ m. w * m) (double_pow j) ∙ grind arith

pub bit-div : (j w k : ℕ) → bit (w / 2 ^ j) k ≡ bit w (j + k)
unfolding bit
bit-div zero w k = let none_more : 0 + k ≡ k = omega arith in rw (div_one w, none_more) refl
bit-div (suc j) w k =
    let next : suc j + k ≡ suc (j + k) = omega arith in
    rw (double_pow j, div_double w (2 ^ j), next) (bit-div j (w / 2) k)

pub bit-mod_lt : (n w k : ℕ) → k < n → bit (w % 2 ^ n) k ≡ bit w k
unfolding bit
bit-mod_lt zero w k h = absurd (omega arith)
bit-mod_lt (suc n) w zero h = rw (double_pow n, mod_double w (2 ^ n)) (omega arith)
bit-mod_lt (suc n) w (suc k) h =
    let half : ((w / 2 % 2 ^ n) * 2 + w % 2) / 2 ≡ w / 2 % 2 ^ n = omega arith in
    rw (double_pow n, mod_double w (2 ^ n), half) (bit-mod_lt n (w / 2) k (omega arith))

pub bit-ge : (n w k : ℕ) → w < 2 ^ n → n ≤ k → bit w k ≡ 0
unfolding bit
bit-ge zero zero k h l = bit-zero k
bit-ge zero (suc w) k h l = absurd (omega arith)
bit-ge (suc n) w zero h l = absurd (omega arith)
bit-ge (suc n) w (suc k) h l = bit-ge n (w / 2) k (omega (arith, double_pow n)) (omega arith)

pub bit-mul_lt : (j w k : ℕ) → k < j → bit (w * 2 ^ j) k ≡ 0
unfolding bit
bit-mul_lt zero w k h = absurd (omega arith)
bit-mul_lt (suc j) w zero h = omega (arith, shl_half w j)
bit-mul_lt (suc j) w (suc k) h =
    let half : w * 2 ^ suc j / 2 ≡ w * 2 ^ j = omega (arith, shl_half w j) in
    rw half (bit-mul_lt j w k (omega arith))

pub bit-mul : (j w k : ℕ) → bit (w * 2 ^ j) (j + k) ≡ bit w k
unfolding bit
bit-mul zero w k =
    let one : w * 1 ≡ w = omega arith in
    let none_more : 0 + k ≡ k = omega arith in rw (one, none_more) refl
bit-mul (suc j) w k =
    let half : w * 2 ^ suc j / 2 ≡ w * 2 ^ j = omega (arith, shl_half w j) in
    let next : suc j + k ≡ suc (j + k) = omega arith in
    ap (λ i. bit (w * 2 ^ suc j) i) next ∙ ap (λ v. bit v (j + k)) half ∙ bit-mul j w k
