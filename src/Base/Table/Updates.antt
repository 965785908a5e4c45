-- ===== src/Base/Table/Updates.antt =====
-- What the loops that change, count or copy entries do to the live ones, `take n xs`.
use homeserver_os.Base.{
  some_inj, ℕ, zero, suc, ◌+◌, ◌≤◌, ◌≡◌, refl, ap, Bool, List, [], ◌∷◌, map, arith, if◌then◌else◌,
  take, length, Option, none, some, Bool-cases, inl, inr, ◌⊎◌, Option-cases,
}
use mathlib.Core.Option
use mathlib.Core.Path.{subst}
use homeserver_os.Base.Table.{
  find_index, update_first, update_all, count_if, copy_out, erase_idx, erase_first, find,
  replace_first,
}

module _ {ℓ} {A : Type ℓ} where
  -- What an update leaves: the first entry `x` that passes the test changed to `y`, in its place.
  pub record Updated (p : A → Bool) (f : A → Option A) (n : ℕ) (xs ys : List A) : Type ℓ where
    pub old : A
    pub new : A
    pub found : find p (take n xs) ≡ some old
    pub passed : f old ≡ some new
    pub live : take n ys ≡ replace_first p new (take n xs)
    pub same_length : length ys ≡ length xs

  pub update_first-Updated :
      (p : A → Bool) (f : A → Option A) (n : ℕ) (xs : List A) {ys : List A}
      → update_first p f n xs ≡ some ys
      → Updated p f n xs ys
  unfolding update_first
  update_first-Updated p f zero xs e = ground arith
  update_first-Updated p f (suc n) [] e = ground arith
  update_first-Updated p f (suc n) (x ∷ xs) {ys} e = elim (Bool-cases (p x)) [
    | inl here ↦
        let q : Option.map (λ y. y ∷ xs) (f x) ≡ some ys = rw here at e in
        let (y, fits, r) = (Option.map-eq-some_iff (λ y. y ∷ xs) (f x)).0 q in
        subst (Updated p f (suc n) (x ∷ xs)) r (record {
          old = x;
          new = y;
          found = rw here;
          passed = fits;
          live = rw here;
          same_length = refl;
        })
    | inr there ↦
        let q : Option.map (λ ys. x ∷ ys) (update_first p f n xs) ≡ some ys = rw there at e in
        let (zs, eq, r) = (Option.map-eq-some_iff (λ ys. x ∷ ys) (update_first p f n xs)).0 q in
        let u = update_first-Updated p f n xs eq in
        subst (Updated p f (suc n) (x ∷ xs)) r (record {
          old = u.old;
          new = u.new;
          found = rw there u.found;
          passed = u.passed;
          live = rw there (ap (λ t. x ∷ t) u.live);
          same_length = ap suc u.same_length;
        })
  ]

  -- A refused update: no entry passes the test, or the first that does is not fit.
  pub update_first-none :
      (p : A → Bool) (f : A → Option A) (n : ℕ) (xs : List A)
      → update_first p f n xs ≡ none
      → (find p (take n xs) ≡ none) ⊎ ((x : A) × (find p (take n xs) ≡ some x) × (f x ≡ none))
  unfolding update_first
  update_first-none p f zero xs e = inl refl
  update_first-none p f (suc n) [] e = inl refl
  update_first-none p f (suc n) (x ∷ xs) e = elim (Bool-cases (p x)) [
    | inl here ↦
        let q : Option.map (λ y. y ∷ xs) (f x) ≡ none = rw here at e in
        inr (x, rw here, (Option.map-eq-none_iff _ (f x)).0 q)
    | inr there ↦
        let q : Option.map (λ ys. x ∷ ys) (update_first p f n xs) ≡ none = rw there at e in
        rw there
          (update_first-none p f n xs ((Option.map-eq-none_iff _ (update_first p f n xs)).0 q))
  ]

  pub update_first-some :
      (p : A → Bool) (f : A → Option A) (n : ℕ) (xs : List A) {x y : A}
      → find p (take n xs) ≡ some x
      → f x ≡ some y
      → (ys : List A) × (update_first p f n xs ≡ some ys)
  unfolding update_first
  update_first-some p f zero xs e h = absurd (cc)
  update_first-some p f (suc n) [] e h = absurd (cc)
  update_first-some p f (suc n) (x ∷ xs) {x = z} {y} e h = elim (Bool-cases (p x)) [
    | inl here ↦
        let q : some x ≡ some z = rw here at e in let r : x ≡ z = cc in (y ∷ xs, rw (here, r, h))
    | inr there ↦
        let q : find p (take n xs) ≡ some z = rw there at e in
        let (ys, r) = update_first-some p f n xs q h in (x ∷ ys, rw (there, r))
  ]

  pub length-update_all :
      (p : A → Bool) (f : A → A) (n : ℕ) (xs : List A) → length (update_all p f n xs) ≡ length xs
  unfolding update_all
  length-update_all p f zero xs = refl
  length-update_all p f (suc n) [] = refl
  length-update_all p f (suc n) (x ∷ xs) = ap suc (length-update_all p f n xs)

  pub take-update_all :
      (p : A → Bool) (f : A → A) (n : ℕ) (xs : List A)
      → take n (update_all p f n xs) ≡ map (λ x. if p x then f x else x) (take n xs)
  unfolding update_all
  take-update_all p f zero xs = refl
  take-update_all p f (suc n) [] = refl
  take-update_all p f (suc n) (x ∷ xs) =
      ap (λ t. (if p x then f x else x) ∷ t) (take-update_all p f n xs)

  pub length-copy_out : (n : ℕ) (xs buf : List A) → length (copy_out n xs buf) ≡ length buf
  unfolding copy_out
  length-copy_out zero xs buf = refl
  length-copy_out (suc n) xs [] = refl
  length-copy_out (suc n) [] (b ∷ buf) = refl
  length-copy_out (suc n) (x ∷ xs) (b ∷ buf) = ap suc (length-copy_out n xs buf)

  -- The copy into a caller's buffer that is large enough.
  pub take-copy_out :
      (n : ℕ) (xs buf : List A)
      → n ≤ length xs
      → n ≤ length buf
      → take n (copy_out n xs buf) ≡ take n xs
  unfolding copy_out
  take-copy_out zero xs buf h k = refl
  take-copy_out (suc n) xs [] h k = absurd (omega arith)
  take-copy_out (suc n) [] (b ∷ buf) h k = absurd (omega arith)
  take-copy_out (suc n) (x ∷ xs) (b ∷ buf) h k =
      ap (λ t. x ∷ t) (take-copy_out n xs buf (omega arith) (omega arith))

  -- An update is refused where no entry passes the test, and where the first that does is not fit.
  pub update_first_missing :
      (p : A → Bool) (f : A → Option A) (n : ℕ) (xs : List A)
      → find p (take n xs) ≡ none
      → update_first p f n xs ≡ none
  update_first_missing p f n xs e = elim (Option-cases (update_first p f n xs)) [
    | inl q ↦ q
    | inr (ys, q) ↦ let u = update_first-Updated p f n xs q in absurd (cc (u.found, e))
  ]

  pub update_first_unfit :
      (p : A → Bool) (f : A → Option A) (n : ℕ) (xs : List A) {x : A}
      → find p (take n xs) ≡ some x
      → f x ≡ none
      → update_first p f n xs ≡ none
  update_first_unfit p f n xs {x} e h = elim (Option-cases (update_first p f n xs)) [
    | inl q ↦ q
    | inr (ys, q) ↦
        let u = update_first-Updated p f n xs q in
        let same : some u.old ≡ some x = cc (u.found, e) in
        absurd (cc (u.passed, h, ap f (some_inj same)))
  ]

  -- Erasing the first entry that passes a test, or first changing it in place, is the same.
  pub erase_idx-replace_first :
      (p : A → Bool) (y : A) (n : ℕ) (xs : List A) {i : ℕ}
      → find_index p n xs ≡ some i
      → erase_idx i (replace_first p y (take n xs)) ≡ erase_first p (take n xs)
  unfolding find_index
  erase_idx-replace_first p y zero xs e = absurd (cc)
  erase_idx-replace_first p y (suc n) [] e = absurd (cc)
  erase_idx-replace_first p y (suc n) (x ∷ xs) {i} e = elim (Bool-cases (p x)) [
    | inl here ↦
        let q : some 0 ≡ some i = rw here at e in let first : 0 ≡ i = cc in rw (here, ← first)
    | inr there ↦
        let q : Option.map suc (find_index p n xs) ≡ some i = rw there at e in
        let (k, found, e') = (Option.map-eq-some_iff suc (find_index p n xs)).0 q in
        rw (there, ← e') (ap (λ t. x ∷ t) (erase_idx-replace_first p y n xs found))
  ]

  -- The number of entries that pass a test.
  abbrev pub tally : (A → Bool) → List A → ℕ
  tally p [] = 0
  tally p (x ∷ xs) = (if p x then 1 else 0) + tally p xs

  pub count_if-eq-tally :
      (p : A → Bool) (n : ℕ) (xs : List A) → count_if p n xs ≡ tally p (take n xs)
  unfolding count_if
  count_if-eq-tally p zero xs = refl
  count_if-eq-tally p (suc n) [] = refl
  count_if-eq-tally p (suc n) (x ∷ xs) = rw (count_if-eq-tally p n xs)

  pub tally-replace_first :
      (q p : A → Bool) (y : A) (xs : List A) {x : A}
      → find p xs ≡ some x
      → tally q (replace_first p y xs) + (if q x then 1 else 0)
        ≡ tally q xs + (if q y then 1 else 0)
  tally-replace_first q p y [] e = absurd (cc)
  tally-replace_first q p y (z ∷ xs) {x} e = ground (arith, tally-replace_first q p y xs {x = x})

  pub tally-le-length : (p : A → Bool) (xs : List A) → tally p xs ≤ length xs
  tally-le-length p [] = omega arith
  tally-le-length p (x ∷ xs) = ground (arith, tally-le-length p xs)
