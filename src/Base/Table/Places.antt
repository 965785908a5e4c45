-- ===== src/Base/Table/Places.antt =====
-- The entries of a table by their places: an entry found by its place is the one under its id.
use homeserver_os.Base.{
  ℕ, zero, suc, ◌≤◌, ◌≡◌, refl, ap, true, false, List, [], ◌∷◌, ◌++◌, arith, length, some, some_inj,
  take, get_elem?, ◌==◌,
}
use mathlib.Core.Path.{subst}
use homeserver_os.Base.Table.{find, erase_first}
use homeserver_os.Base.Table.Ids.{has_id, Ascending}

module _ {ℓ} {A : Type ℓ} where
  pub get_elem?-take :
      (i n : ℕ) (xs : List A) {x : A} → get_elem? (take n xs) i ≡ some x → get_elem? xs i ≡ some x
  get_elem?-take i zero xs e = absurd (cc)
  get_elem?-take i (suc n) [] e = e
  get_elem?-take zero (suc n) (x ∷ xs) e = e
  get_elem?-take (suc i) (suc n) (x ∷ xs) e = get_elem?-take i n xs e

  pub get_elem?-middle :
      (ps : List A) (x : A) (rest : List A) → get_elem? (ps ++ x ∷ rest) (length ps) ≡ some x
  get_elem?-middle [] x rest = refl
  get_elem?-middle (p ∷ ps) x rest = get_elem?-middle ps x rest

  module _ (key : A → ℕ) where
    above :
        (lo hi i : ℕ) (xs : List A) {x : A}
        → Ascending key lo hi xs
        → get_elem? xs i ≡ some x
        → lo ≤ key x
    above lo hi i [] a e = absurd (cc)
    above lo hi zero (y ∷ xs) {x} a e =
        let same : y ≡ x = some_inj e in subst (λ z. lo ≤ key z) same a.0
    above lo hi (suc i) (y ∷ xs) a e = omega (arith, a.0, above (suc (key y)) hi i xs a.1 e)

    pub find-get_elem? :
        (lo hi i : ℕ) (xs : List A) {x : A}
        → Ascending key lo hi xs
        → get_elem? xs i ≡ some x
        → find (has_id key (key x)) xs ≡ some x
    find-get_elem? lo hi i [] a e = absurd (cc)
    find-get_elem? lo hi zero (y ∷ xs) {x} a e =
        let same : y ≡ x = some_inj e in
        let hit : (key x == key x) ≡ true = ground arith in rw same (rw hit refl)
    find-get_elem? lo hi (suc i) (y ∷ xs) {x} a e =
        let higher = above (suc (key y)) hi i xs a.1 e in
        let miss : (key y == key x) ≡ false = ground (arith, higher) in
        rw miss (find-get_elem? (suc (key y)) hi i xs a.1 e)

    pub erase_first_middle :
        (lo hi : ℕ) (ps : List A) (x : A) (rest : List A)
        → Ascending key lo hi (ps ++ x ∷ rest)
        → erase_first (has_id key (key x)) (ps ++ x ∷ rest) ≡ ps ++ rest
    erase_first_middle lo hi [] x rest a =
        let hit : (key x == key x) ≡ true = ground arith in rw hit refl
    erase_first_middle lo hi (p ∷ ps) x rest a =
        let higher =
          above (suc (key p)) hi (length ps) (ps ++ x ∷ rest) a.1 (get_elem?-middle ps x rest) in
        let miss : (key p == key x) ≡ false = ground (arith, higher) in
        rw miss (ap (λ l. p ∷ l) (erase_first_middle (suc (key p)) hi ps x rest a.1))
