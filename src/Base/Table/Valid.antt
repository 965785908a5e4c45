-- ===== src/Base/Table/Valid.antt =====
-- The invariant of a table, which the loops keep, and what they do to the entry under an id.
use homeserver_os.Base.{
  ℕ, suc, ◌+◌, ◌-◌, ◌%◌, ◌^◌, ◌<◌, ◌≤◌, ◌≡◌, ◌≢◌, ◌∙◌, Bool, List, arith, length, length-take,
  Option, none, some, take, if◌then◌else◌,
}
use homeserver_os.Base.Table.{find, write_at, remove_first, update_first, update_all}
use homeserver_os.Base.Table.Laws.{write_at-Wrote, write_at-some, remove_first-Removed}
use homeserver_os.Base.Table.Updates.{update_first-Updated, take-update_all, length-update_all}
use homeserver_os.Base.Table.Slots.{
  All, All-write_at, All-remove_first, All-update_first, All-update_all,
}
use homeserver_os.Base.Table.Ids.{
  has_id, Ascending, Ascending-append, Ascending-erase_first, Ascending-replace_first,
  Ascending-map, find_ge_none, find-erase_first_self, find-erase_first_ne, find-replace_first_self,
  find-replace_first_ne, find-key,
}

module _ {A : Type 0} (key : A → ℕ) (P : A → Type 0) where
  -- `size` slots, `n` of them live, ids handed out from 1 up to `next`. `P` holds of every slot.
  pub record IsTable (size : ℕ) (xs : List A) (n : ℕ) (next : ℕ) : Type 0 where
    pub storage : length xs ≡ size
    pub within : n ≤ size
    pub ids : Ascending key 1 next (take n xs)
    pub slots : All P xs
    pub small : next < 2 ^ 32

  module _ {size : ℕ} {xs : List A} {n next : ℕ} (v : IsTable size xs n next) where
    -- The slot behind the live entries exists while the table is not full.
    pub write_at-in_bounds : (f : A → A) → n < size → (ys : List A) × (write_at n f xs ≡ some ys)
    write_at-in_bounds f h = write_at-some n f xs (omega arith)

    -- The id counter of C does not wrap before 2^32 - 1 ids are given out.
    pub IsTable-write_at :
        (f : A → A)
        → ((x : A) → key (f x) ≡ next)
        → ((x : A) → P x → P (f x))
        → {ys : List A} → write_at n f xs ≡ some ys
        → n < size
        → next + 1 < 2 ^ 32
        → IsTable size ys (n + 1) ((next + 1) % 2 ^ 32)
    IsTable-write_at f named keep {ys} e h k =
        let w = write_at-Wrote n f xs e in
        let more : n + 1 ≡ suc n = omega arith in
        let exact : (next + 1) % 2 ^ 32 ≡ suc next = omega arith in
        record {
          storage = w.same_length ∙ v.storage;
          within = omega arith;
          ids =
              rw (exact, more, w.live)
                (Ascending-append key 1 next (take n xs) (f w.old) v.ids (named w.old));
          slots = All-write_at P n f keep xs v.slots e;
          small = omega arith;
        }

    pub IsTable-remove_first :
        (p : A → Bool) {ys : List A} → remove_first p n xs ≡ some ys → IsTable size ys (n - 1) next
    IsTable-remove_first p e =
        let r = remove_first-Removed p n xs (omega arith) e in
        record {
          storage = r.same_length ∙ v.storage;
          within = omega arith;
          ids = rw r.live (Ascending-erase_first key p 1 next (take n xs) v.ids);
          slots = All-remove_first P p n xs v.slots e;
          small = v.small;
        }

    pub IsTable-update_first :
        (k : ℕ) (f : A → Option A)
        → ((x y : A) → f x ≡ some y → key y ≡ key x)
        → ((x y : A) → P x → f x ≡ some y → P y)
        → {ys : List A} → update_first (has_id key k) f n xs ≡ some ys
        → IsTable size ys n next
    IsTable-update_first k f same keep e =
        let u = update_first-Updated (has_id key k) f n xs e in
        let named : key u.new ≡ k =
          same u.old u.new u.passed ∙ find-key key k (take n xs) u.found in
        record {
          storage = u.same_length ∙ v.storage;
          within = v.within;
          ids = rw u.live (Ascending-replace_first key k 1 next u.new (take n xs) named v.ids);
          slots = All-update_first P (has_id key k) f keep n xs v.slots e;
          small = v.small;
        }

    pub IsTable-update_all :
        (p : A → Bool) (f : A → A)
        → ((x : A) → key (if p x then f x else x) ≡ key x)
        → ((x : A) → P x → P (f x))
        → IsTable size (update_all p f n xs) n next
    IsTable-update_all p f same keep = record {
      storage = length-update_all p f n xs ∙ v.storage;
      within = v.within;
      ids =
          rw take-update_all
            (Ascending-map key (λ x. if p x then f x else x) same 1 next (take n xs) v.ids);
      slots = All-update_all P p f keep n xs v.slots;
      small = v.small;
    }

    -- The entry under an id, before and after.
    pub find_removed_self :
        (k : ℕ) {ys : List A}
        → remove_first (has_id key k) n xs ≡ some ys
        → find (has_id key k) (take (n - 1) ys) ≡ none
    find_removed_self k e =
        rw ((remove_first-Removed (has_id key k) n xs (omega arith) e).live)
          (find-erase_first_self key k 1 next (take n xs) v.ids)

    pub find_removed_ne :
        (k j : ℕ) {ys : List A}
        → j ≢ k
        → remove_first (has_id key k) n xs ≡ some ys
        → find (has_id key j) (take (n - 1) ys) ≡ find (has_id key j) (take n xs)
    find_removed_ne k j ne e =
        rw ((remove_first-Removed (has_id key k) n xs (omega arith) e).live)
          (find-erase_first_ne key k j (take n xs) ne)

    -- The id that is about to be given out is not in use.
    pub find_next : find (has_id key next) (take n xs) ≡ none
    find_next = find_ge_none key 1 next next (take n xs) v.ids (omega arith)

    pub length-live : length (take n xs) ≡ n
    length-live = omega (arith, v.storage, v.within, length-take n xs)

    pub find_updated_self :
        (k : ℕ) (f : A → Option A) (same : (x y : A) → f x ≡ some y → key y ≡ key x) {ys : List A}
        → (e : update_first (has_id key k) f n xs ≡ some ys)
        → find (has_id key k) (take n ys) ≡ some (update_first-Updated (has_id key k) f n xs e).new
    find_updated_self k f same e =
        let u = update_first-Updated (has_id key k) f n xs e in
        let named : key u.new ≡ k =
          same u.old u.new u.passed ∙ find-key key k (take n xs) u.found in
        rw u.live (find-replace_first_self key k u.new (take n xs) named u.found)

    pub find_updated_ne :
        (k j : ℕ) (f : A → Option A) (same : (x y : A) → f x ≡ some y → key y ≡ key x) {ys : List A}
        → j ≢ k
        → update_first (has_id key k) f n xs ≡ some ys
        → find (has_id key j) (take n ys) ≡ find (has_id key j) (take n xs)
    find_updated_ne k j f same ne e =
        let u = update_first-Updated (has_id key k) f n xs e in
        let named : key u.new ≡ k =
          same u.old u.new u.passed ∙ find-key key k (take n xs) u.found in
        rw u.live (find-replace_first_ne key k j u.new (take n xs) ne named)
