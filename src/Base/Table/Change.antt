-- ===== src/Base/Table/Change.antt =====
-- A change of the entry under an id by a loop that looks for it: what it leaves of the table.
use homeserver_os.Base.{ℕ, ◌≡◌, ◌≢◌, ap, sym, ◌∙◌, List, Option, some, some_inj, take}
use homeserver_os.Base.Table.{find, update_first, replace_first}
use homeserver_os.Base.Table.Ids.{has_id}
use homeserver_os.Base.Table.Updates.{update_first-Updated, update_first-some}
use homeserver_os.Base.Table.Valid.{
  IsTable, IsTable-update_first, find_updated_self, find_updated_ne,
}

module _ {A : Type 0} (key : A → ℕ) (P : A → Type 0) where
  -- The table after the entry under the id `k` became `y`.
  pub record Changed (size n next k : ℕ) (y : A) (xs ys : List A) : Type 0 where
    pub found : find (has_id key k) (take n ys) ≡ some y
    pub others : (j : ℕ) → j ≢ k → find (has_id key j) (take n ys) ≡ find (has_id key j) (take n xs)
    pub live : take n ys ≡ replace_first (has_id key k) y (take n xs)
    pub valid : IsTable key P size ys n next

  module _ {size : ℕ} {xs : List A} {n next : ℕ} (v : IsTable key P size xs n next)
      (f : A → Option A) (same : (x y : A) → f x ≡ some y → key y ≡ key x)
      (keep : (x y : A) → P x → f x ≡ some y → P y) (k : ℕ) where
    pub update_first-Changed :
        {x y : A}
        → find (has_id key k) (take n xs) ≡ some x
        → f x ≡ some y
        → (ys : List A) × (update_first (has_id key k) f n xs ≡ some ys)
          × Changed size n next k y xs ys
    update_first-Changed {x} {y} here made =
        let (ys, e) = update_first-some (has_id key k) f n xs here made in
        let u = update_first-Updated (has_id key k) f n xs e in
        let old : u.old ≡ x = some_inj (sym u.found ∙ here) in
        let new : u.new ≡ y = some_inj (sym (rw old at u.passed) ∙ made) in
        (
          ys,
          e,
          record {
            found = find_updated_self key P v k f same e ∙ ap (λ z. some z) new;
            others = λ j ne. find_updated_ne key P v k j f same ne e;
            live = rw new at u.live;
            valid = IsTable-update_first key P v k f same keep e;
          },
        )
