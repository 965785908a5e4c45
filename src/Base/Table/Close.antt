-- ===== src/Base/Table/Close.antt =====
-- Removing an entry that was changed on the way out: the entry at `i` of `xs` has been replaced, which
-- gives `ys`, and the later ones then move down over it.
use homeserver_os.Base.{ℕ, suc, ◌-◌, ◌≡◌, ap, ◌∙◌, Bool, List, arith, take, some}
use homeserver_os.Base.Table.{find_index, shift_down, erase_idx, erase_first}
use homeserver_os.Base.Table.Laws.{take-shift_down, length-shift_down, find_index-some}
use homeserver_os.Base.Table.Ids.{Ascending-erase_first}
use homeserver_os.Base.Table.Slots.{All-shift_down}
use homeserver_os.Base.Table.Valid.{IsTable}

module _ {A : Type 0} (key : A → ℕ) (P : A → Type 0) {size : ℕ} {xs ys : List A} {n next : ℕ}
    (v : IsTable key P size xs n next) (w : IsTable key P size ys n next) (p : A → Bool) (i : ℕ)
    (at_i : find_index p n xs ≡ some i)
    (erased : erase_idx i (take n ys) ≡ erase_first p (take n xs)) where
  pub take-close_up : take (n - 1) (shift_down (n - 1 - i) i ys) ≡ erase_first p (take n xs)
  take-close_up =
      let lt = (find_index-some p n xs at_i).0 in
      let rest : suc (n - 1) ≡ n = omega arith in
      take-shift_down (n - 1 - i) i (n - 1) ys (omega arith) (omega (arith, w.storage, w.within))
      ∙ ap (λ k. erase_idx i (take k ys)) rest
      ∙ erased

  pub IsTable-close_up : IsTable key P size (shift_down (n - 1 - i) i ys) (n - 1) next
  IsTable-close_up = record {
    storage = length-shift_down (n - 1 - i) i ys ∙ w.storage;
    within = omega (arith, w.within);
    ids = rw take-close_up (Ascending-erase_first key p 1 next (take n xs) v.ids);
    slots = All-shift_down P (n - 1 - i) i ys w.slots;
    small = w.small;
  }
