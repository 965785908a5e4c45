-- ===== src/Base/Table/Laws.antt =====
-- What the loops over a table do to its live entries, `take n xs`.
use homeserver_os.Base.{
  ℕ, zero, suc, ◌+◌, ◌-◌, ◌<◌, ◌≤◌, ◌≡◌, refl, ap, ◌∙◌, sym, Bool, List, [], ◌∷◌, ◌++◌, arith,
  get_elem?, take, length, none, some, Bool-cases, inl, inr, Option-cases,
}
use mathlib.Core.Option
use mathlib.Core.Path.{subst}
use homeserver_os.Base.Table.{
  find_index, find_first, copy_next, shift_down, write_at, erase_idx, erase_first, find,
  remove_first,
}

module _ {ℓ} {A : Type ℓ} where
  pub find_first-eq-find :
      (p : A → Bool) (n : ℕ) (xs : List A) → find_first p n xs ≡ find p (take n xs)
  unfolding find_first
  find_first-eq-find p zero xs = refl
  find_first-eq-find p (suc n) [] = refl
  find_first-eq-find p (suc n) (x ∷ xs) = rw (find_first-eq-find p n xs)

  -- The entry behind the live ones is written in place, and becomes live with the next count.
  pub record Wrote (n : ℕ) (f : A → A) (xs ys : List A) : Type ℓ where
    pub old : A
    pub slot : get_elem? xs n ≡ some old
    pub live : take (suc n) ys ≡ take n xs ++ f old ∷ []
    pub same_length : length ys ≡ length xs

  pub write_at-Wrote :
      (n : ℕ) (f : A → A) (xs : List A) {ys : List A} → write_at n f xs ≡ some ys → Wrote n f xs ys
  unfolding write_at
  write_at-Wrote n f [] e = cc
  write_at-Wrote zero f (x ∷ xs) {ys} e =
      let same : f x ∷ xs ≡ ys = cc in
      subst (Wrote zero f (x ∷ xs)) same
        (record { old = x; slot = refl; live = refl; same_length = refl })
  write_at-Wrote (suc n) f (x ∷ xs) e =
      let (zs, q, r) = (Option.map-eq-some_iff (λ ys. x ∷ ys) (write_at n f xs)).0 e in
      let w = write_at-Wrote n f xs q in
      subst (Wrote (suc n) f (x ∷ xs)) r (record {
        old = w.old;
        slot = w.slot;
        live = ap (λ t. x ∷ t) w.live;
        same_length = ap suc w.same_length;
      })

  pub write_at-some :
      (n : ℕ) (f : A → A) (xs : List A)
      → n < length xs
      → (ys : List A) × (write_at n f xs ≡ some ys)
  unfolding write_at
  write_at-some n f [] h = absurd (omega arith)
  write_at-some zero f (x ∷ xs) h = (f x ∷ xs, refl)
  write_at-some (suc n) f (x ∷ xs) h =
      let (ys, e) = write_at-some n f xs (omega arith) in (x ∷ ys, rw e)

  pub write_at-none : (n : ℕ) (f : A → A) (xs : List A) → length xs ≤ n → write_at n f xs ≡ none
  unfolding write_at
  write_at-none n f [] h = refl
  write_at-none zero f (x ∷ xs) h = absurd (omega arith)
  write_at-none (suc n) f (x ∷ xs) h = rw (write_at-none n f xs (omega arith))

  length-copy_next : (j : ℕ) (xs : List A) → length (copy_next j xs) ≡ length xs
  length-copy_next j [] = refl
  length-copy_next zero (x ∷ []) = refl
  length-copy_next zero (x ∷ y ∷ xs) = refl
  length-copy_next (suc j) (x ∷ xs) = ap suc (length-copy_next j xs)

  pub length-shift_down : (r j : ℕ) (xs : List A) → length (shift_down r j xs) ≡ length xs
  unfolding shift_down
  length-shift_down zero j xs = refl
  length-shift_down (suc r) j xs =
      length-shift_down r (suc j) (copy_next j xs) ∙ length-copy_next j xs

  erase_idx-take_last : (j : ℕ) (xs : List A) → erase_idx j (take (suc j) xs) ≡ take j xs
  erase_idx-take_last zero [] = refl
  erase_idx-take_last zero (x ∷ xs) = refl
  erase_idx-take_last (suc j) [] = refl
  erase_idx-take_last (suc j) (x ∷ xs) = ap (λ t. x ∷ t) (erase_idx-take_last j xs)

  erase_idx-copy_next :
      (j m : ℕ) (xs : List A)
      → suc j < m
      → m ≤ length xs
      → erase_idx (suc j) (take m (copy_next j xs)) ≡ erase_idx j (take m xs)
  erase_idx-copy_next j m [] h k = absurd (omega arith)
  erase_idx-copy_next zero m (x ∷ []) h k = absurd (omega arith)
  erase_idx-copy_next zero zero (x ∷ y ∷ xs) h k = absurd (omega arith)
  erase_idx-copy_next zero (suc zero) (x ∷ y ∷ xs) h k = absurd (omega arith)
  erase_idx-copy_next zero (suc (suc m)) (x ∷ y ∷ xs) h k = refl
  erase_idx-copy_next (suc j) zero (x ∷ xs) h k = absurd (omega arith)
  erase_idx-copy_next (suc j) (suc m) (x ∷ xs) h k =
      ap (λ t. x ∷ t) (erase_idx-copy_next j m xs (omega arith) (omega arith))

  -- Moving the later entries down removes the entry at `j` from the live ones.
  pub take-shift_down :
      (r j k : ℕ) (xs : List A)
      → k ≡ r + j
      → k < length xs
      → take k (shift_down r j xs) ≡ erase_idx j (take (suc k) xs)
  unfolding shift_down
  take-shift_down zero j k xs e h =
      let e' : k ≡ j = omega arith in rw e' (sym (erase_idx-take_last j xs))
  take-shift_down (suc r) j k xs e h =
      take-shift_down r (suc j) k (copy_next j xs) (omega arith)
        (omega (arith, length-copy_next j xs))
      ∙ erase_idx-copy_next j (suc k) xs (omega arith) h

  -- The first index that passes the test is in range, and erasing there is erasing the first such.
  pub find_index-some :
      (p : A → Bool) (n : ℕ) (xs : List A) {i : ℕ}
      → find_index p n xs ≡ some i
      → (i < n) × (erase_idx i (take n xs) ≡ erase_first p (take n xs))
  unfolding find_index
  find_index-some p zero xs e = cc
  find_index-some p (suc n) [] e = cc
  find_index-some p (suc n) (x ∷ xs) {i} e = elim (Bool-cases (p x)) [
    | inl here ↦
        let q : some 0 ≡ some i = rw here at e in
        let first : 0 ≡ i = cc in
        rw here (
          subst (λ k. (k < suc n) × (erase_idx k (x ∷ take n xs) ≡ take n xs)) first
            (omega arith, refl))
    | inr there ↦
        let q : Option.map suc (find_index p n xs) ≡ some i = rw there at e in
        let (k, found, e') = (Option.map-eq-some_iff suc (find_index p n xs)).0 q in
        let (lt, same) = find_index-some p n xs found in
        rw there (
          subst (λ k. (k < suc n) × (erase_idx k (x ∷ take n xs) ≡ x ∷ erase_first p (take n xs)))
            e' (omega arith, ap (λ t. x ∷ t) same))
  ]

  pub find_index-none :
      (p : A → Bool) (n : ℕ) (xs : List A) → find_index p n xs ≡ none → find p (take n xs) ≡ none
  unfolding find_index
  find_index-none p zero xs e = refl
  find_index-none p (suc n) [] e = refl
  find_index-none p (suc n) (x ∷ xs) e = ground (arith, find_index-none p n xs)

  -- What a removal leaves: the live entries without the first that passes the test.
  pub record Removed (p : A → Bool) (n : ℕ) (xs ys : List A) : Type ℓ where
    pub live : take (n - 1) ys ≡ erase_first p (take n xs)
    pub same_length : length ys ≡ length xs
    pub nonempty : 0 < n

  pub remove_first-Removed :
      (p : A → Bool) (n : ℕ) (xs : List A) {ys : List A}
      → n ≤ length xs
      → remove_first p n xs ≡ some ys
      → Removed p n xs ys
  unfolding remove_first
  remove_first-Removed p zero xs h e = ground arith
  remove_first-Removed p (suc n) xs h e =
      let (i, found, r) =
        (Option.map-eq-some_iff (λ i. shift_down (suc n - 1 - i) i xs) (find_index p (suc n) xs)).0
          e in
      let (lt, same) = find_index-some p (suc n) xs found in
      let n' : suc n - 1 ≡ n = omega arith in
      subst (Removed p (suc n) xs) r (record {
        live = rw n' (take-shift_down (n - i) i n xs (omega arith) (omega arith) ∙ same);
        same_length = length-shift_down (suc n - 1 - i) i xs;
        nonempty = omega arith;
      })

  pub remove_first-none :
      (p : A → Bool) (n : ℕ) (xs : List A) → remove_first p n xs ≡ none → find p (take n xs) ≡ none
  unfolding remove_first
  remove_first-none p n xs e =
      find_index-none p n xs ((Option.map-eq-none_iff _ (find_index p n xs)).0 e)

  pub remove_first-some :
      (p : A → Bool) (n : ℕ) (xs : List A) {x : A}
      → find p (take n xs) ≡ some x
      → (ys : List A) × (remove_first p n xs ≡ some ys)
  unfolding remove_first
  remove_first-some p n xs e = elim (Option-cases (find_index p n xs)) [
    | inl q ↦ absurd (cc (find_index-none p n xs q))
    | inr (i, q) ↦ (shift_down (n - 1 - i) i xs, rw q)
  ]

  pub find_index_missing :
      (p : A → Bool) (n : ℕ) (xs : List A) → find p (take n xs) ≡ none → find_index p n xs ≡ none
  unfolding find_index
  find_index_missing p zero xs e = refl
  find_index_missing p (suc n) [] e = refl
  find_index_missing p (suc n) (x ∷ xs) e = ground (arith, find_index_missing p n xs)

  pub remove_first_missing :
      (p : A → Bool) (n : ℕ) (xs : List A) → find p (take n xs) ≡ none → remove_first p n xs ≡ none
  unfolding remove_first
  remove_first_missing p n xs e = rw (find_index_missing p n xs e)
