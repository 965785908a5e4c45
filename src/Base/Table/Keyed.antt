-- ===== src/Base/Table/Keyed.antt =====
-- Replacing the first entry that passes any test by one under the same id.
use homeserver_os.Base.{
  ℕ, suc, ◌≤◌, ◌≡◌, ◌≢◌, refl, ◌∙◌, Bool, true, false, List, [], ◌∷◌, ◌++◌, some_inj, arith, Option,
  none, some, take, Bool-cases, inl, inr,
}
use mathlib.Core.Path.{subst}
use homeserver_os.Base.Table.{find, replace_first, update_first}
use homeserver_os.Base.Table.Ids.{has_id, Ascending}
use homeserver_os.Base.Table.Slots.{All-update_first}
use homeserver_os.Base.Table.Updates.{update_first-Updated}
use homeserver_os.Base.Table.Valid.{IsTable}

module _ {A : Type 0} (key : A → ℕ) (p : A → Bool) (y : A) where
  pub Ascending-replace_first_same :
      (lo hi : ℕ) (xs : List A) {x : A}
      → find p xs ≡ some x
      → key y ≡ key x
      → Ascending key lo hi xs
      → Ascending key lo hi (replace_first p y xs)
  Ascending-replace_first_same lo hi [] e same a = a
  Ascending-replace_first_same lo hi (z ∷ xs) {x} e same a = elim (Bool-cases (p z)) [
    | inl q ↦
        let here : some z ≡ some x = rw q at e in
        let named : key z ≡ key y = cc in rw q (rw (← named) a)
    | inr q ↦ rw q (a.0, Ascending-replace_first_same (suc (key z)) hi xs (rw q at e) same a.1)
  ]

  pub lower-find :
      (lo hi : ℕ) (xs : List A) {x : A} → find p xs ≡ some x → Ascending key lo hi xs → lo ≤ key x
  lower-find lo hi [] e a = absurd (cc)
  lower-find lo hi (z ∷ xs) {x} e a = elim (Bool-cases (p z)) [
    | inl q ↦
        let here : some z ≡ some x = rw q at e in
        let named : key z ≡ key x = cc in omega (arith, a.0)
    | inr q ↦ omega (arith, a.0, lower-find (suc (key z)) hi xs (rw q at e) a.1)
  ]

  -- The entry stands under its id, and any other id has the entry that it had.
  pub find-replace_first_same :
      (lo hi : ℕ) (xs : List A) {x : A}
      → find p xs ≡ some x
      → key y ≡ key x
      → Ascending key lo hi xs
      → (find (has_id key (key x)) xs ≡ some x)
        × (find (has_id key (key x)) (replace_first p y xs) ≡ some y)
  find-replace_first_same lo hi [] e same a = absurd (cc)
  find-replace_first_same lo hi (z ∷ xs) {x} e same a = elim (Bool-cases (p z)) [
    | inl q ↦
        let here : some z ≡ some x = rw q at e in
        let named : key z ≡ key x = cc in
        let at_z : has_id key (key x) z ≡ true = ground arith in
        let at_y : has_id key (key x) y ≡ true = ground arith in (rw at_z here, rw (q, at_y) refl)
    | inr q ↦
        let rest : find p xs ≡ some x = rw q at e in
        let above : suc (key z) ≤ key x = lower-find (suc (key z)) hi xs rest a.1 in
        let past_z : has_id key (key x) z ≡ false = ground arith in
        let (before, after) = find-replace_first_same (suc (key z)) hi xs rest same a.1 in
        (rw past_z before, rw (q, past_z) after)
  ]

  pub find-replace_first_other :
      (j : ℕ) (xs : List A) {x : A}
      → find p xs ≡ some x
      → key y ≡ key x
      → j ≢ key x
      → find (has_id key j) (replace_first p y xs) ≡ find (has_id key j) xs
  find-replace_first_other j [] e same ne = refl
  find-replace_first_other j (z ∷ xs) {x} e same ne =
      ground (arith, find-replace_first_other j xs {x = x})

module _ {A : Type 0} (key : A → ℕ) (P : A → Type 0) where
  pub IsTable-update_first_same :
      {size : ℕ} {xs : List A} {n next : ℕ}
      → IsTable key P size xs n next
      → (p : A → Bool) (f : A → Option A) → ((x z : A) → f x ≡ some z → key z ≡ key x)
      → ((x z : A) → P x → f x ≡ some z → P z)
      → {ys : List A} → update_first p f n xs ≡ some ys
      → IsTable key P size ys n next
  IsTable-update_first_same {xs} {n} {next} v p f same keep e =
      let u = update_first-Updated p f n xs e in
      record {
        storage = u.same_length ∙ v.storage;
        within = v.within;
        ids = rw u.live (
            Ascending-replace_first_same key p u.new 1 next (take n xs) u.found
              (same u.old u.new u.passed) v.ids);
        slots = All-update_first P p f keep n xs v.slots e;
        small = v.small;
      }

module _ {ℓ} {A : Type ℓ} where
  pub find-append_none :
      (p : A → Bool) (y : A) (xs : List A)
      → find p xs ≡ none
      → p y ≡ true
      → find p (xs ++ y ∷ []) ≡ some y
  find-append_none p y [] e h = rw h refl
  find-append_none p y (x ∷ xs) e h = ground (arith, find-append_none p y xs)

  -- The replaced entry is the first that passes the test if the new one passes it.
  pub find-replace_first_pass :
      (p : A → Bool) (y : A) (xs : List A) {x : A}
      → find p xs ≡ some x
      → p y ≡ true
      → find p (replace_first p y xs) ≡ some y
  find-replace_first_pass p y [] e h = absurd (cc)
  find-replace_first_pass p y (z ∷ xs) {x} e h =
      ground (arith, find-replace_first_pass p y xs {x = x})

  -- And only an entry that passes it is found.
  pub find-passes : (p : A → Bool) (xs : List A) {x : A} → find p xs ≡ some x → p x ≡ true
  find-passes p [] e = absurd (cc)
  find-passes p (z ∷ xs) {x} e = elim (Bool-cases (p z)) [
    | inl q ↦ let here : some z ≡ some x = rw q at e in subst (λ w. p w ≡ true) (some_inj here) q
    | inr q ↦ find-passes p xs (rw q at e)
  ]
