-- ===== src/Base/Table.antt =====
-- The shape that most of the program's state has: a fixed array `T xs[MAX]` of which the first
-- `count` entries are live, each under an `id`. The loops over it are the source's, with the entry
-- type and the test on an entry as parameters; a component's functions are built from them.
pub mod Laws
pub mod Updates
pub mod Slots
pub mod Valid
pub mod Keyed
pub mod Close
pub mod Change
pub mod Search
pub mod Places
pub mod Ids
use homeserver_os.Base.{
  ℕ, zero, suc, ◌+◌, ◌-◌, Bool, true, List, [], ◌∷◌, ◌&&◌, if◌then◌else◌, Option, none, some,
}
use mathlib.Core.Option

module _ {ℓ} {A : Type ℓ} where
  -- `for (i = 0; i < n; i++) if (test(xs[i])) return i;`
  unfoldable pub find_index : (A → Bool) → ℕ → List A → Option ℕ
  find_index p zero xs = none
  find_index p (suc n) [] = none
  find_index p (suc n) (x ∷ xs) = if p x then some 0 else Option.map suc (find_index p n xs)

  -- `for (i = 0; i < n; i++) if (test(xs[i])) return xs[i];`
  unfoldable pub find_first : (A → Bool) → ℕ → List A → Option A
  find_first p zero xs = none
  find_first p (suc n) [] = none
  find_first p (suc n) (x ∷ xs) = if p x then some x else find_first p n xs

  -- `for (i = 0; i < n; i++) if (test(xs[i])) { if (!guard) return -1; change xs[i]; return 0; }
  -- return -1;` with the guard and the change together as `f`: `none` is the -1.
  unfoldable pub update_first : (A → Bool) → (A → Option A) → ℕ → List A → Option (List A)
  update_first p f zero xs = none
  update_first p f (suc n) [] = none
  update_first p f (suc n) (x ∷ xs) =
      if p x
      then Option.map (λ y. y ∷ xs) (f x)
      else Option.map (λ ys. x ∷ ys) (update_first p f n xs)

  -- `for (i = 0; i < n; i++) if (test(xs[i])) change xs[i];`
  unfoldable pub update_all : (A → Bool) → (A → A) → ℕ → List A → List A
  update_all p f zero xs = xs
  update_all p f (suc n) [] = []
  update_all p f (suc n) (x ∷ xs) = (if p x then f x else x) ∷ update_all p f n xs

  -- `for (i = 0; i < n; i++) if (test(xs[i])) count++;`
  unfoldable pub count_if : (A → Bool) → ℕ → List A → ℕ
  count_if p zero xs = 0
  count_if p (suc n) [] = 0
  count_if p (suc n) (x ∷ xs) = (if p x then 1 else 0) + count_if p n xs

  -- `xs[j] = xs[j + 1]`
  abbrev pub copy_next : ℕ → List A → List A
  copy_next j [] = []
  copy_next zero (x ∷ []) = x ∷ []
  copy_next zero (x ∷ y ∷ xs) = y ∷ y ∷ xs
  copy_next (suc j) (x ∷ xs) = x ∷ copy_next j xs

  -- `for (; j < last; j++) xs[j] = xs[j + 1];` with `r` rounds left
  unfoldable pub shift_down : ℕ → ℕ → List A → List A
  shift_down zero j xs = xs
  shift_down (suc r) j xs = shift_down r (suc j) (copy_next j xs)

  -- `T *x = &xs[i]; change *x;` `none` is a write past the end of the array.
  unfoldable pub write_at : ℕ → (A → A) → List A → Option (List A)
  write_at i f [] = none
  write_at zero f (x ∷ xs) = some (f x ∷ xs)
  write_at (suc i) f (x ∷ xs) = Option.map (λ ys. x ∷ ys) (write_at i f xs)

  -- The same write where the source knows that `i` is in range; past the end it is lost.
  unfoldable pub update_at : ℕ → (A → A) → List A → List A
  update_at i f [] = []
  update_at zero f (x ∷ xs) = f x ∷ xs
  update_at (suc i) f (x ∷ xs) = x ∷ update_at i f xs

  -- `for (i = 0; i < n; i++) buf[i] = xs[i];`
  unfoldable pub copy_out : ℕ → List A → List A → List A
  copy_out zero xs buf = buf
  copy_out (suc n) xs [] = []
  copy_out (suc n) [] (b ∷ buf) = b ∷ buf
  copy_out (suc n) (x ∷ xs) (b ∷ buf) = x ∷ copy_out n xs buf

  -- The abstract operations on the live entries: the list without its entry at an index, without
  -- its first entry that passes a test, or with another entry in that one's place.
  abbrev pub erase_idx : ℕ → List A → List A
  erase_idx i [] = []
  erase_idx zero (x ∷ xs) = xs
  erase_idx (suc i) (x ∷ xs) = x ∷ erase_idx i xs

  abbrev pub erase_first : (A → Bool) → List A → List A
  erase_first p [] = []
  erase_first p (x ∷ xs) = if p x then xs else x ∷ erase_first p xs

  abbrev pub replace_first : (A → Bool) → A → List A → List A
  replace_first p y [] = []
  replace_first p y (x ∷ xs) = if p x then y ∷ xs else x ∷ replace_first p y xs

  abbrev pub find : (A → Bool) → List A → Option A
  find p [] = none
  find p (x ∷ xs) = if p x then some x else find p xs

  abbrev pub all : (A → Bool) → List A → Bool
  all p [] = true
  all p (x ∷ xs) = p x && all p xs

-- `for (i = 0; i < n; i++) if (test(xs[i])) { for (j = i; j < n - 1; j++) xs[j] = xs[j + 1]; … }`
-- The array after the first such removal; `none` if no entry passes the test.
unfoldable pub remove_first {ℓ} : {A : Type ℓ} → (A → Bool) → ℕ → List A → Option (List A)
unfolding find_index shift_down
remove_first p n xs = Option.map (λ i. shift_down (n - 1 - i) i xs) (find_index p n xs)
