-- ===== src/Container/Delete.antt =====
-- `container_delete` of virtualization/containers/container.c.
use homeserver_os.Base.{
  ℕ, ◌+◌, ◌-◌, ◌≡◌, ◌≢◌, refl, sym, ◌∙◌, arith, none, some, take, if◌then◌else◌, inl, inr,
  Option-cases, Bool-cases,
}
use homeserver_os.Base.Int.{pos, minus_one}
use homeserver_os.Base.Table.{find_index, update_first, shift_down, erase_first, erase_idx}
use homeserver_os.Base.Table.Ids.{has_id, find-erase_first_self, find-erase_first_ne}
use homeserver_os.Base.Table.Laws.{find_index-some, find_index-none, find_index_missing}
use homeserver_os.Base.Table.Updates.{update_first-Updated, erase_idx-replace_first}
use homeserver_os.Base.Table.Valid.{IsTable, IsTable-update_first}
use homeserver_os.Base.Table.Close.{take-close_up, IsTable-close_up}
use homeserver_os.Container.{
  Containers, Container, container_id, get, answer, stop_one, stop as container_stop, delete,
  is_running_at, max_containers,
}
use homeserver_os.Container.Create.{live, IsSlot, IsValid, get-eq-find}
use homeserver_os.Container.Control.{stop, body-id, body-IsSlot}

-- What `container_delete` leaves: the container is gone, and the others stand in their order, unchanged.
pub record Removed (id : ℕ) (s t : Containers) : Type 0 where
  pub removed : live t ≡ erase_first (has_id container_id id) (live s)
  pub gone : get id t ≡ none
  pub others : (j : ℕ) → j ≢ id → get j t ≡ get j s
  pub fewer : t.count + 1 ≡ s.count
  pub same_counter : t.next_id ≡ s.next_id
  pub valid : IsValid t

-- What the containers are when the later ones are about to move down: erasing the one at `i` gives
-- the same list whether it was stopped before or not.
record Ready (id i : ℕ) (s t : Containers) : Type 0 where
  same_count : t.count ≡ s.count
  same_counter : t.next_id ≡ s.next_id
  erased : erase_idx i (live t) ≡ erase_first (has_id container_id id) (live s)
  valid : IsValid t

module _ (id : ℕ) (s : Containers) (v : IsValid s) where
  stop-Ready :
      (i : ℕ)
      → find_index (has_id container_id id) s.count s.containers ≡ some i
      → Ready id i s (container_stop id s).1
  unfolding container_stop answer
  stop-Ready i at_i =
      elim (Option-cases (update_first (has_id container_id id) stop_one s.count s.containers)) [
        | inl e ↦
            rw (e, answer)
              (record {
                same_count = refl;
                same_counter = refl;
                erased = (find_index-some (has_id container_id id) s.count s.containers at_i).1;
                valid = v;
              })
        | inr (cs, e) ↦
            let u = update_first-Updated (has_id container_id id) stop_one s.count s.containers e in
            rw (e, answer)
              (record {
                same_count = refl;
                same_counter = refl;
                erased = rw u.live (
                    erase_idx-replace_first (has_id container_id id) u.new s.count s.containers
                      at_i);
                valid =
                    IsTable-update_first container_id IsSlot v id stop_one (body-id stop s.next_id)
                      (body-IsSlot stop s.next_id) e;
              })
      ]

  prepared-Ready :
      (i : ℕ)
      → find_index (has_id container_id id) s.count s.containers ≡ some i
      → Ready id i s (if is_running_at i s then (container_stop id s).1 else s)
  prepared-Ready i at_i = elim (Bool-cases (is_running_at i s)) [
    | inl e ↦ rw e (stop-Ready i at_i)
    | inr e ↦ rw e (record {
      same_count = refl;
      same_counter = refl;
      erased = (find_index-some (has_id container_id id) s.count s.containers at_i).1;
      valid = v;
    })
  ]

  -- The move of the later containers over the one at `i`.
  close_up : ℕ → Containers → Containers
  close_up i t = record t {
    containers = shift_down (t.count - 1 - i) i t.containers;
    count = t.count - 1;
  }

  close_up-Removed :
      (i : ℕ) (t : Containers)
      → find_index (has_id container_id id) s.count s.containers ≡ some i
      → Ready id i s t
      → Removed id s (close_up i t)
  unfolding close_up
  close_up-Removed i t at_i r =
      let u = close_up i t in
      let count = r.same_count in
      let counter = r.same_counter in
      let w : IsTable container_id IsSlot max_containers t.containers s.count s.next_id =
        rw (count, counter) at r.valid in
      let erased : erase_idx i (take s.count t.containers)
          ≡ erase_first (has_id container_id id) (live s) =
        rw count at r.erased in
      let removed : live u ≡ erase_first (has_id container_id id) (live s) =
        rw count (take-close_up container_id IsSlot v w (has_id container_id id) i at_i erased) in
      record {
        removed = removed;
        gone =
            rw (get-eq-find id u, removed)
              (find-erase_first_self container_id id 1 s.next_id (live s) v.ids);
        others = λ j ne.
            rw (get-eq-find j u, get-eq-find j s, removed)
              (find-erase_first_ne container_id id j (live s) ne);
        fewer =
            omega
              (arith, count, find_index-some (has_id container_id id) s.count s.containers at_i);
        same_counter = counter;
        valid =
            rw (count, counter)
              (IsTable-close_up container_id IsSlot v w (has_id container_id id) i at_i erased);
      }

  -- An id in use: 0 is returned and the container leaves the table, running or not.
  pub delete-Removed :
      (c : Container)
      → get id s ≡ some c
      → (t : Containers) × (delete id s ≡ (pos 0, t)) × Removed id s t
  unfolding delete close_up
  delete-Removed c found =
      elim (Option-cases (find_index (has_id container_id id) s.count s.containers)) [
        | inl e ↦ absurd (
            cc (
              find_index-none (has_id container_id id) s.count s.containers e,
              sym (get-eq-find id s) ∙ found,
            ))
        | inr (i, at_i) ↦
            let t : Containers = if is_running_at i s then (container_stop id s).1 else s in
            (close_up i t, rw (at_i, delete), close_up-Removed i t at_i (prepared-Ready i at_i))
      ]

  -- An id that is not in use: -1, and nothing changes.
  pub delete-missing : get id s ≡ none → delete id s ≡ (minus_one, s)
  unfolding delete
  delete-missing missing = rw (
    find_index_missing (has_id container_id id) s.count s.containers
        (sym (get-eq-find id s) ∙ missing),
    delete,
  )
