-- ===== src/Base/Table/Slots.antt =====
-- A property of every slot of an array, the dead ones included: that its text buffers have the
-- sizes that the source declares, say. It survives the loops over a table.
use homeserver_os.Base.{
  ℕ, zero, suc, ◌-◌, ◌<◌, ◌≡◌, ◌≢◌, refl, Bool, List, [], ◌∷◌, ◌++◌, arith, length, Option, some,
  Bool-cases, inl, inr, some_inj, ◌∙◌, get_elem?, take, replicate, length, ap, map,
}
use mathlib.Core.Option
use mathlib.Core.Path.{subst}
use homeserver_os.Base.Table.{
  find_index, update_first, update_all, copy_next, shift_down, write_at, update_at, remove_first,
  find,
}

module _ {ℓ κ} {A : Type ℓ} (P : A → Type κ) where
  abbrev pub All : List A → Type κ
  All [] = Unit
  All (x ∷ xs) = P x × All xs

  pub All-get_elem? : (i : ℕ) (xs : List A) {x : A} → All xs → get_elem? xs i ≡ some x → P x
  All-get_elem? i [] h e = absurd (cc)
  All-get_elem? zero (y ∷ xs) {x} h e = let q : y ≡ x = cc in subst P q h.0
  All-get_elem? (suc i) (y ∷ xs) h e = All-get_elem? i xs h.1 e

  pub All-find :
      (p : A → Bool) (n : ℕ) (xs : List A) {x : A} → All xs → find p (take n xs) ≡ some x → P x
  All-find p zero xs h e = absurd (cc)
  All-find p (suc n) [] h e = absurd (cc)
  All-find p (suc n) (y ∷ xs) {x} h e = elim (Bool-cases (p y)) [
    | inl q ↦ let q' : some y ≡ some x = rw q at e in let same : y ≡ x = cc in subst P same h.0
    | inr q ↦ All-find p n xs h.1 (rw q at e)
  ]

  pub All-write_at :
      (i : ℕ) (f : A → A) (keep : (x : A) → P x → P (f x)) (xs : List A) {ys : List A}
      → All xs
      → write_at i f xs ≡ some ys
      → All ys
  unfolding write_at
  All-write_at i f keep [] h e = absurd (cc)
  All-write_at zero f keep (x ∷ xs) {ys} h e =
      let same : f x ∷ xs ≡ ys = cc in subst All same (keep x h.0, h.1)
  All-write_at (suc i) f keep (x ∷ xs) h e =
      let (zs, q, r) = (Option.map-eq-some_iff (λ ys. x ∷ ys) (write_at i f xs)).0 e in
      subst All r (h.0, All-write_at i f keep xs h.1 q)

  All-copy_next : (j : ℕ) (xs : List A) → All xs → All (copy_next j xs)
  All-copy_next j [] h = h
  All-copy_next zero (x ∷ []) h = h
  All-copy_next zero (x ∷ y ∷ xs) h = (h.1.0, h.1)
  All-copy_next (suc j) (x ∷ xs) h = (h.0, All-copy_next j xs h.1)

  pub All-shift_down : (r j : ℕ) (xs : List A) → All xs → All (shift_down r j xs)
  unfolding shift_down
  All-shift_down zero j xs h = h
  All-shift_down (suc r) j xs h = All-shift_down r (suc j) (copy_next j xs) (All-copy_next j xs h)

  pub All-remove_first :
      (p : A → Bool) (n : ℕ) (xs : List A) {ys : List A}
      → All xs
      → remove_first p n xs ≡ some ys
      → All ys
  unfolding remove_first
  All-remove_first p n xs h e =
      let (i, q, r) =
        (Option.map-eq-some_iff (λ i. shift_down (n - 1 - i) i xs) (find_index p n xs)).0 e in
      subst All r (All-shift_down (n - 1 - i) i xs h)

  pub All-update_first :
      (p : A → Bool) (f : A → Option A) (keep : (x : A) (y : A) → P x → f x ≡ some y → P y) (n : ℕ)
      (xs : List A) {ys : List A}
      → All xs
      → update_first p f n xs ≡ some ys
      → All ys
  unfolding update_first
  All-update_first p f keep zero xs h e = absurd (cc)
  All-update_first p f keep (suc n) [] h e = absurd (cc)
  All-update_first p f keep (suc n) (x ∷ xs) {ys} h e = elim (Bool-cases (p x)) [
    | inl here ↦
        let q : Option.map (λ y. y ∷ xs) (f x) ≡ some ys = rw here at e in
        let (y, fits, r) = (Option.map-eq-some_iff (λ y. y ∷ xs) (f x)).0 q in
        subst All r (keep x y h.0 fits, h.1)
    | inr there ↦
        let q : Option.map (λ ys. x ∷ ys) (update_first p f n xs) ≡ some ys = rw there at e in
        let (zs, eq, r) = (Option.map-eq-some_iff (λ ys. x ∷ ys) (update_first p f n xs)).0 q in
        subst All r (h.0, All-update_first p f keep n xs h.1 eq)
  ]

  pub All-update_all :
      (p : A → Bool) (f : A → A) (keep : (x : A) → P x → P (f x)) (n : ℕ) (xs : List A)
      → All xs
      → All (update_all p f n xs)
  unfolding update_all
  All-update_all p f keep zero xs h = h
  All-update_all p f keep (suc n) [] h = h
  All-update_all p f keep (suc n) (x ∷ xs) h = elim (Bool-cases (p x)) [
    | inl e ↦ rw e (keep x h.0, All-update_all p f keep n xs h.1)
    | inr e ↦ rw e (h.0, All-update_all p f keep n xs h.1)
  ]

  pub All-replicate : (n : ℕ) (x : A) → P x → All (replicate n x)
  All-replicate zero x h = tt
  All-replicate (suc n) x h = (h, All-replicate n x h)

  pub All-update_at :
      (i : ℕ) (f : A → A) (keep : (x : A) → P x → P (f x)) (xs : List A)
      → All xs
      → All (update_at i f xs)
  unfolding update_at
  All-update_at i f keep [] h = h
  All-update_at zero f keep (x ∷ xs) h = (keep x h.0, h.1)
  All-update_at (suc i) f keep (x ∷ xs) h = (h.0, All-update_at i f keep xs h.1)

pub All-map {ℓ κ μ} :
    {A : Type ℓ} (P : A → Type κ) (Q : A → Type μ) (f : A → A) (keep : (x : A) → P x → Q (f x))
    (xs : List A)
    → All P xs
    → All Q (map f xs)
All-map P Q f keep [] h = tt
All-map P Q f keep (x ∷ xs) h = (keep x h.0, All-map P Q f keep xs h.1)

pub length-update_at {ℓ} :
    {A : Type ℓ} (i : ℕ) (f : A → A) (xs : List A) → length (update_at i f xs) ≡ length xs
unfolding update_at
length-update_at i f [] = refl
length-update_at zero f (x ∷ xs) = refl
length-update_at (suc i) f (x ∷ xs) = ap suc (length-update_at i f xs)

pub get_elem?-update_at {ℓ} :
    {A : Type ℓ} (i : ℕ) (f : A → A) (xs : List A) {x : A}
    → get_elem? xs i ≡ some x
    → get_elem? (update_at i f xs) i ≡ some (f x)
unfolding update_at
get_elem?-update_at i f [] e = absurd (cc)
get_elem?-update_at zero f (x ∷ xs) {x = y} e = let same : x ≡ y = cc in rw same
get_elem?-update_at (suc i) f (x ∷ xs) e = get_elem?-update_at i f xs e

pub get_elem?-some {ℓ} :
    {A : Type ℓ} (i : ℕ) (xs : List A) → i < length xs → (x : A) × (get_elem? xs i ≡ some x)
get_elem?-some i [] h = absurd (omega arith)
get_elem?-some zero (x ∷ xs) h = (x, refl)
get_elem?-some (suc i) (x ∷ xs) h = get_elem?-some i xs (omega arith)

-- A write behind the entries in use adds one to them.
pub take-update_at {ℓ} :
    {A : Type ℓ} (i : ℕ) (f : A → A) (xs : List A) {x : A}
    → get_elem? xs i ≡ some x
    → take (suc i) (update_at i f xs) ≡ take i xs ++ f x ∷ []
unfolding update_at
take-update_at i f [] e = absurd (cc)
take-update_at zero f (x ∷ xs) {x = y} e = let same : x ≡ y = cc in rw same refl
take-update_at (suc i) f (x ∷ xs) e = ap (λ l. x ∷ l) (take-update_at i f xs e)

pub get_elem?-update_at_ne {ℓ} :
    {A : Type ℓ} (i j : ℕ) (f : A → A) (xs : List A)
    → j ≢ i
    → get_elem? (update_at i f xs) j ≡ get_elem? xs j
unfolding update_at
get_elem?-update_at_ne i j f [] ne = refl
get_elem?-update_at_ne zero zero f (x ∷ xs) ne = absurd (ne refl)
get_elem?-update_at_ne zero (suc j) f (x ∷ xs) ne = refl
get_elem?-update_at_ne (suc i) zero f (x ∷ xs) ne = refl
get_elem?-update_at_ne (suc i) (suc j) f (x ∷ xs) ne =
    get_elem?-update_at_ne i j f xs (λ e. ne (ap suc e))

-- A write that stays within the array.
pub update_at-write_at {ℓ} :
    {A : Type ℓ} (i : ℕ) (f : A → A) (xs : List A) {ys : List A}
    → write_at i f xs ≡ some ys
    → update_at i f xs ≡ ys
unfolding write_at update_at
update_at-write_at i f [] e = absurd (cc)
update_at-write_at zero f (x ∷ xs) e = some_inj e
update_at-write_at (suc i) f (x ∷ xs) e =
    let (zs, q, r) = (Option.map-eq-some_iff (λ ys. x ∷ ys) (write_at i f xs)).0 e in
    ap (λ l. x ∷ l) (update_at-write_at i f xs q) ∙ r
