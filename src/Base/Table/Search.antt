-- ===== src/Base/Table/Search.antt =====
-- Where a search by index stops, and what a write at an index does to a count.
use homeserver_os.Base.{
  ℕ, zero, suc, ◌+◌, ◌<◌, ◌≡◌, refl, Bool, true, false, List, [], ◌∷◌, arith, get_elem?, none, some,
  some_inj, Bool-cases, inl, inr, if◌then◌else◌,
}
use homeserver_os.Base.Table.{find_index, count_if, update_at}
use mathlib.Core.Option
use mathlib.Core.Path.{subst}

module _ {ℓ} {A : Type ℓ} (p : A → Bool) where
  -- The entry at `i` is the first that passes the test.
  pub record FoundAt (xs : List A) (i : ℕ) : Type ℓ where
    pub entry : A
    pub here : get_elem? xs i ≡ some entry
    pub passes : p entry ≡ true
    pub earlier : (k : ℕ) (x : A) → k < i → get_elem? xs k ≡ some x → p x ≡ false

  past : (x : A) (xs : List A) (i : ℕ) → p x ≡ false → FoundAt xs i → FoundAt (x ∷ xs) (suc i)
  past x xs i e f = record { entry = f.entry; here = f.here; passes = f.passes; earlier = before }
    where
      before : (k : ℕ) (y : A) → k < suc i → get_elem? (x ∷ xs) k ≡ some y → p y ≡ false
      before zero y h q = subst (λ z. p z ≡ false) (some_inj q) e
      before (suc k) y h q = f.earlier k y (omega arith) q

  pub find_index-FoundAt :
      (n : ℕ) (xs : List A) {i : ℕ} → find_index p n xs ≡ some i → (i < n) × FoundAt xs i
  unfolding find_index
  find_index-FoundAt zero xs e = cc
  find_index-FoundAt (suc n) [] e = cc
  find_index-FoundAt (suc n) (x ∷ xs) {i} e = elim (Bool-cases (p x)) [
    | inl yes_here ↦
        let q : some 0 ≡ some i = rw yes_here at e in
        subst (λ k. (k < suc n) × FoundAt (x ∷ xs) k) (some_inj q)
          (
            omega arith,
            record {
              entry = x;
              here = refl;
              passes = yes_here;
              earlier = λ k y h. absurd (omega arith);
            },
          )
    | inr not_here ↦
        let q : Option.map suc (find_index p n xs) ≡ some i = rw not_here at e in
        let (k, found, e') = (Option.map-eq-some_iff suc (find_index p n xs)).0 q in
        let (lt, f) = find_index-FoundAt n xs found in
        subst (λ k. (k < suc n) × FoundAt (x ∷ xs) k) e' (omega arith, past x xs k not_here f)
  ]

  pub find_index-all :
      (n : ℕ) (xs : List A)
      → find_index p n xs ≡ none
      → (k : ℕ) (x : A) → k < n
      → get_elem? xs k ≡ some x
      → p x ≡ false
  unfolding find_index
  find_index-all zero xs e k x h q = absurd (omega arith)
  find_index-all (suc n) [] e k x h q = absurd (cc)
  find_index-all (suc n) (y ∷ xs) e zero x h q = ground (arith, some_inj q)
  find_index-all (suc n) (y ∷ xs) e (suc k) x h q =
      find_index-all n xs (later n y xs e) k x (omega arith) q
    where
      later :
          (n : ℕ) (y : A) (xs : List A)
          → find_index p (suc n) (y ∷ xs) ≡ none
          → find_index p n xs ≡ none
      later n y xs e = ground arith

  pub count_if-update_at :
      (n i : ℕ) (f : A → A) (xs : List A) {x : A}
      → i < n
      → get_elem? xs i ≡ some x
      → count_if p n (update_at i f xs) + (if p x then 1 else 0)
        ≡ count_if p n xs + (if p (f x) then 1 else 0)
  unfolding count_if update_at
  count_if-update_at zero i f xs h e = absurd (omega arith)
  count_if-update_at (suc n) i f [] h e = absurd (cc)
  count_if-update_at (suc n) zero f (y ∷ xs) {x} h e =
      let same : y ≡ x = some_inj e in rw same (omega arith)
  count_if-update_at (suc n) (suc i) f (y ∷ xs) {x} h e =
      omega (arith, count_if-update_at n i f xs {x = x} (omega arith) e)
