-- ===== src/Base/Table/Ids.antt =====
-- Entries under ids that a counter hands out: the ids of the live entries ascend and lie below the
-- counter, so a search by id finds one entry, and an operation on it leaves the others alone.
use homeserver_os.Base.{
  ℕ, suc, ◌<◌, ◌≤◌, ◌≡◌, ◌≢◌, refl, Bool, List, [], ◌∷◌, ◌++◌, arith, map, if◌then◌else◌, length,
  none, some, ◌==◌, Bool-cases, inl, inr,
}
use mathlib.Core.Option
use homeserver_os.Base.Table.{erase_first, find, replace_first}

module _ {ℓ} {A : Type ℓ} (key : A → ℕ) where
  -- The test `xs[i].id == id` of the loops.
  abbrev pub has_id : ℕ → A → Bool
  has_id k x = key x == k

  abbrev pub Ascending : ℕ → ℕ → List A → Type 0
  Ascending lo hi [] = lo ≤ hi
  Ascending lo hi (x ∷ xs) = (lo ≤ key x) × Ascending (suc (key x)) hi xs

  pub Ascending-lower :
      (lo lo' hi : ℕ) (xs : List A) → lo' ≤ lo → Ascending lo hi xs → Ascending lo' hi xs
  Ascending-lower lo lo' hi [] h a = omega arith
  Ascending-lower lo lo' hi (x ∷ xs) h a = (omega arith, a.1)

  pub Ascending-append :
      (lo hi : ℕ) (xs : List A) (x : A)
      → Ascending lo hi xs
      → key x ≡ hi
      → Ascending lo (suc hi) (xs ++ x ∷ [])
  Ascending-append lo hi [] x a e = omega arith
  Ascending-append lo hi (y ∷ xs) x a e = (a.0, Ascending-append (suc (key y)) hi xs x a.1 e)

  pub Ascending-le : (lo hi : ℕ) (xs : List A) → Ascending lo hi xs → lo ≤ hi
  Ascending-le lo hi [] a = a
  Ascending-le lo hi (x ∷ xs) a = omega (arith, Ascending-le (suc (key x)) hi xs a.1)

  pub find_lt_none :
      (lo hi k : ℕ) (xs : List A) → Ascending lo hi xs → k < lo → find (has_id k) xs ≡ none
  find_lt_none lo hi k [] a h = refl
  find_lt_none lo hi k (x ∷ xs) a h =
      ground (arith, find_lt_none (suc (key x)) hi k xs a.1 (omega arith))

  pub find_ge_none :
      (lo hi k : ℕ) (xs : List A) → Ascending lo hi xs → hi ≤ k → find (has_id k) xs ≡ none
  find_ge_none lo hi k [] a h = refl
  find_ge_none lo hi k (x ∷ xs) a h =
      ground (arith, Ascending-le (suc (key x)) hi xs a.1, find_ge_none (suc (key x)) hi k xs a.1 h)

  pub find-key : (k : ℕ) (xs : List A) {x : A} → find (has_id k) xs ≡ some x → key x ≡ k
  find-key k [] e = absurd (cc)
  find-key k (x ∷ xs) {x = z} e = ground (arith, find-key k xs {x = z})

  pub find-append_new :
      (k : ℕ) (xs : List A) (x : A)
      → find (has_id k) xs ≡ none
      → find (has_id k) (xs ++ x ∷ []) ≡ (if key x == k then some x else none)
  find-append_new k [] x e = refl
  find-append_new k (y ∷ xs) x e = ground (arith, find-append_new k xs x)

  pub find-append_self :
      (k : ℕ) (xs : List A) (x : A)
      → find (has_id k) xs ≡ none
      → key x ≡ k
      → find (has_id k) (xs ++ x ∷ []) ≡ some x
  find-append_self k xs x e named = ground (arith, find-append_new k xs x e)

  pub find-append_other :
      (k : ℕ) (xs : List A) (x : A)
      → key x ≢ k
      → find (has_id k) (xs ++ x ∷ []) ≡ find (has_id k) xs
  find-append_other k [] x e = ground arith
  find-append_other k (y ∷ xs) x e = ground (arith, find-append_other k xs x)

  pub Ascending-erase_first :
      (p : A → Bool) (lo hi : ℕ) (xs : List A)
      → Ascending lo hi xs
      → Ascending lo hi (erase_first p xs)
  Ascending-erase_first p lo hi [] a = a
  Ascending-erase_first p lo hi (x ∷ xs) a = elim (Bool-cases (p x)) [
    | inl e ↦ rw e (Ascending-lower (suc (key x)) lo hi xs (omega arith) a.1)
    | inr e ↦ rw e (a.0, Ascending-erase_first p (suc (key x)) hi xs a.1)
  ]

  -- With ascending ids, erasing the first entry under an id leaves none under it.
  pub find-erase_first_self :
      (k lo hi : ℕ) (xs : List A)
      → Ascending lo hi xs
      → find (has_id k) (erase_first (has_id k) xs) ≡ none
  find-erase_first_self k lo hi [] a = refl
  find-erase_first_self k lo hi (x ∷ xs) a = ground (
    arith,
    find-erase_first_self k (suc (key x)) hi xs a.1,
    find_lt_none (suc (key x)) hi k xs a.1,
  )

  pub find-erase_first_ne :
      (k j : ℕ) (xs : List A)
      → j ≢ k
      → find (has_id j) (erase_first (has_id k) xs) ≡ find (has_id j) xs
  find-erase_first_ne k j [] h = refl
  find-erase_first_ne k j (x ∷ xs) h = ground (arith, find-erase_first_ne k j xs h)

  pub Ascending-replace_first :
      (k lo hi : ℕ) (y : A) (xs : List A)
      → key y ≡ k
      → Ascending lo hi xs
      → Ascending lo hi (replace_first (has_id k) y xs)
  Ascending-replace_first k lo hi y [] e a = a
  Ascending-replace_first k lo hi y (x ∷ xs) e a = elim (Bool-cases (key x == k)) [
    | inl q ↦ let same : key x ≡ key y = ground arith in rw q (rw (← same) a)
    | inr q ↦ rw q (a.0, Ascending-replace_first k (suc (key x)) hi y xs e a.1)
  ]

  pub find-replace_first_self :
      (k : ℕ) (y : A) (xs : List A) {x : A}
      → key y ≡ k
      → find (has_id k) xs ≡ some x
      → find (has_id k) (replace_first (has_id k) y xs) ≡ some y
  find-replace_first_self k y [] e h = absurd (cc)
  find-replace_first_self k y (z ∷ xs) {x} e h =
      ground (arith, find-replace_first_self k y xs {x = x} e)

  pub find-replace_first_ne :
      (k j : ℕ) (y : A) (xs : List A)
      → j ≢ k
      → key y ≡ k
      → find (has_id j) (replace_first (has_id k) y xs) ≡ find (has_id j) xs
  find-replace_first_ne k j y [] h e = refl
  find-replace_first_ne k j y (x ∷ xs) h e = ground (arith, find-replace_first_ne k j y xs h e)

  pub Ascending-map :
      (f : A → A) (same : (x : A) → key (f x) ≡ key x) (lo hi : ℕ) (xs : List A)
      → Ascending lo hi xs
      → Ascending lo hi (map f xs)
  Ascending-map f same lo hi [] a = a
  Ascending-map f same lo hi (x ∷ xs) a =
      rw (same x) (a.0, Ascending-map f same (suc (key x)) hi xs a.1)

  pub length-erase_first :
      (p : A → Bool) (xs : List A) {x : A}
      → find p xs ≡ some x
      → suc (length (erase_first p xs)) ≡ length xs
  length-erase_first p [] e = absurd (cc)
  length-erase_first p (x ∷ xs) {x = z} e = ground (arith, length-erase_first p xs {x = z})

  pub find-map :
      (g : A → A) (same : (x : A) → key (g x) ≡ key x) (k : ℕ) (xs : List A)
      → find (has_id k) (map g xs) ≡ Option.map g (find (has_id k) xs)
  find-map g same k [] = refl
  find-map g same k (x ∷ xs) = ground (arith, same x, find-map g same k xs)
