-- ===== src/Vm/Delete.antt =====
-- `vm_delete` of virtualization/vms/vm.c.
use homeserver_os.Base.{
  ℕ, ◌+◌, ◌-◌, ◌≡◌, ◌≢◌, refl, sym, ◌∙◌, arith, none, some, take, if◌then◌else◌, inl, inr,
  Option-cases, Bool-cases,
}
use homeserver_os.Base.Int.{pos, minus_one}
use homeserver_os.Base.Table.{find_index, update_first, shift_down, erase_first, erase_idx}
use homeserver_os.Base.Table.Ids.{has_id, find-erase_first_self, find-erase_first_ne}
use homeserver_os.Base.Table.Laws.{find_index-some, find_index-none, find_index_missing}
use homeserver_os.Base.Table.Updates.{update_first-Updated, erase_idx-replace_first}
use homeserver_os.Base.Table.Valid.{IsTable, IsTable-update_first}
use homeserver_os.Base.Table.Close.{take-close_up, IsTable-close_up}
use homeserver_os.Vm.{
  Vms, Vm, vm_id, get, answer, stop_vm, stop as vm_stop, delete, is_running_at, max_vms,
}
use homeserver_os.Vm.Create.{live, IsSlot, IsValid, get-eq-find}
use homeserver_os.Vm.Control.{stop, body-id, body-IsSlot}

-- What `vm_delete` leaves: the machine is gone, and the others stand in their order, unchanged.
pub record Deleted (id : ℕ) (s t : Vms) : Type 0 where
  pub removed : live t ≡ erase_first (has_id vm_id id) (live s)
  pub gone : get id t ≡ none
  pub others : (j : ℕ) → j ≢ id → get j t ≡ get j s
  pub fewer : t.count + 1 ≡ s.count
  pub same_counter : t.next_id ≡ s.next_id
  pub valid : IsValid t

-- What the machines are when the later ones are about to move down: erasing the one at `i` gives
-- the same list whether it was stopped before or not.
record Ready (id i : ℕ) (s t : Vms) : Type 0 where
  same_count : t.count ≡ s.count
  same_counter : t.next_id ≡ s.next_id
  erased : erase_idx i (live t) ≡ erase_first (has_id vm_id id) (live s)
  valid : IsValid t

module _ (id : ℕ) (s : Vms) (v : IsValid s) where
  stop-Ready :
      (i : ℕ) → find_index (has_id vm_id id) s.count s.vms ≡ some i → Ready id i s (vm_stop id s).1
  unfolding vm_stop answer
  stop-Ready i at_i = elim (Option-cases (update_first (has_id vm_id id) stop_vm s.count s.vms)) [
    | inl e ↦
        rw (e, answer)
          (record {
            same_count = refl;
            same_counter = refl;
            erased = (find_index-some (has_id vm_id id) s.count s.vms at_i).1;
            valid = v;
          })
    | inr (vms, e) ↦
        let u = update_first-Updated (has_id vm_id id) stop_vm s.count s.vms e in
        rw (e, answer)
          (record {
            same_count = refl;
            same_counter = refl;
            erased = rw u.live (erase_idx-replace_first (has_id vm_id id) u.new s.count s.vms at_i);
            valid =
                IsTable-update_first vm_id IsSlot v id stop_vm (body-id stop) (body-IsSlot stop) e;
          })
  ]

  prepared-Ready :
      (i : ℕ)
      → find_index (has_id vm_id id) s.count s.vms ≡ some i
      → Ready id i s (if is_running_at i s then (vm_stop id s).1 else s)
  prepared-Ready i at_i = elim (Bool-cases (is_running_at i s)) [
    | inl e ↦ rw e (stop-Ready i at_i)
    | inr e ↦ rw e (record {
      same_count = refl;
      same_counter = refl;
      erased = (find_index-some (has_id vm_id id) s.count s.vms at_i).1;
      valid = v;
    })
  ]

  -- The move of the later machines over the one at `i`.
  close_up : ℕ → Vms → Vms
  close_up i t = record t { vms = shift_down (t.count - 1 - i) i t.vms; count = t.count - 1 }

  close_up-Deleted :
      (i : ℕ) (t : Vms)
      → find_index (has_id vm_id id) s.count s.vms ≡ some i
      → Ready id i s t
      → Deleted id s (close_up i t)
  unfolding close_up
  close_up-Deleted i t at_i r =
      let u = close_up i t in
      let count = r.same_count in
      let counter = r.same_counter in
      let w : IsTable vm_id IsSlot max_vms t.vms s.count s.next_id =
        rw (count, counter) at r.valid in
      let erased : erase_idx i (take s.count t.vms) ≡ erase_first (has_id vm_id id) (live s) =
        rw count at r.erased in
      let removed : live u ≡ erase_first (has_id vm_id id) (live s) =
        rw count (take-close_up vm_id IsSlot v w (has_id vm_id id) i at_i erased) in
      record {
        removed = removed;
        gone =
            rw (get-eq-find id u, removed)
              (find-erase_first_self vm_id id 1 s.next_id (live s) v.ids);
        others = λ j ne.
            rw (get-eq-find j u, get-eq-find j s, removed)
              (find-erase_first_ne vm_id id j (live s) ne);
        fewer = omega (arith, count, find_index-some (has_id vm_id id) s.count s.vms at_i);
        same_counter = counter;
        valid =
            rw (count, counter) (IsTable-close_up vm_id IsSlot v w (has_id vm_id id) i at_i erased);
      }

  -- An id in use: 0 is returned and the machine leaves the table, running or not.
  pub delete-Deleted :
      (vm : Vm) → get id s ≡ some vm → (t : Vms) × (delete id s ≡ (pos 0, t)) × Deleted id s t
  unfolding delete close_up
  delete-Deleted vm found = elim (Option-cases (find_index (has_id vm_id id) s.count s.vms)) [
    | inl e ↦
        absurd
          (cc (find_index-none (has_id vm_id id) s.count s.vms e, sym (get-eq-find id s) ∙ found))
    | inr (i, at_i) ↦
        let t : Vms = if is_running_at i s then (vm_stop id s).1 else s in
        (close_up i t, rw (at_i, delete), close_up-Deleted i t at_i (prepared-Ready i at_i))
  ]

  -- An id that is not in use: -1, and nothing changes.
  pub delete-missing : get id s ≡ none → delete id s ≡ (minus_one, s)
  unfolding delete
  delete-missing missing = rw (
    find_index_missing (has_id vm_id id) s.count s.vms (sym (get-eq-find id s) ∙ missing),
    delete,
  )
