-- ===== src/Base/Int.antt =====
-- The C type `int`, as far as the program uses it: results, and limits that a caller may set to a
-- negative number.
use homeserver_os.Base.{
  ℕ, ◌-◌, ◌^◌, if◌then◌else◌, ◌<◌, ◌≤◌, ◌≡◌, Bool, true, false, arith, ltb, leb,
}

-- `negsuc n` is -(n + 1).
pub data ℤ : Type 0 where
  pos : ℕ → ℤ
  negsuc : ℕ → ℤ

-- The -1 by which a function reports failure.
abbrev pub minus_one : ℤ
minus_one = negsuc 0

-- `n >= m`, for a count n
abbrev pub at_least : ℕ → ℤ → Bool
at_least n (pos m) = leb m n
at_least n (negsuc m) = true

-- A uint32_t returned as an int
abbrev pub to_int : ℕ → ℤ
to_int n = if ltb n (2 ^ 31) then pos n else negsuc (2 ^ 32 - 1 - n)

-- The rounds that a loop `for (i = 0; i < m; i++)` makes.
abbrev pub rounds : ℤ → ℕ
rounds (pos m) = m
rounds (negsuc m) = 0

-- `count < limit ? count : limit`
abbrev pub min_int : ℕ → ℤ → ℤ
min_int n (pos m) = elim (ltb n m) [ true ↦ pos n | false ↦ pos m ]
min_int n (negsuc m) = negsuc m

-- `x < 0 || x >= n`, the bounds test on an index, with the index that it lets through
pub rounds-lt : (n : ℕ) (m : ℤ) → at_least n m ≡ false → n < rounds m
rounds-lt n (pos m) h = ground arith
rounds-lt n (negsuc m) h = ground arith

pub rounds-le : (n : ℕ) (m : ℤ) → at_least n m ≡ true → rounds m ≤ n
rounds-le n (pos m) h = ground arith
rounds-le n (negsuc m) h = omega arith

pub min_int-rounds : (n : ℕ) (m : ℤ) → rounds (min_int n m) ≤ n
min_int-rounds n (pos m) = ground arith
min_int-rounds n (negsuc m) = omega arith
