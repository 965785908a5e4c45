-- ===== src/Vm/Control.antt =====
-- The life cycle of a machine in virtualization/vms/vm.c: `vm_start`, `vm_stop`, `vm_pause`,
-- `vm_resume` and `vm_suspend` against one table of moves.
use homeserver_os.Base.{
  ℕ, ◌+◌, ◌≡◌, ◌≢◌, ◌⊎◌, refl, ap, sym, ◌∙◌, arith, length, Option, none, some, if◌then◌else◌, inl,
  inr, some_inj,
}
use homeserver_os.Base.Int.{ℤ, pos, minus_one}
use homeserver_os.Base.Table.{find, update_first}
use homeserver_os.Base.Table.Ids.{has_id}
use homeserver_os.Base.Table.Updates.{
  update_first-Updated, update_first-some, update_first_missing, update_first_unfit,
  count_if-eq-tally, tally, tally-replace_first,
}
use homeserver_os.Base.Table.Valid.{IsTable-update_first, find_updated_self, find_updated_ne}
use homeserver_os.Vm.{
  Vms, Vm, VmState, stopped, starting, running, paused, stopping, suspended, vm_id, get, is_running,
  answer, start_vm, stop_vm, pause_vm, resume_vm, suspend_vm, start as vm_start, stop as vm_stop,
  pause as vm_pause, resume as vm_resume, suspend as vm_suspend, get_running_count,
}
use homeserver_os.Vm.Create.{live, IsSlot, IsValid, get-eq-find}

-- The five functions that move a machine from one state to another.
pub data Command : Type 0 where
  start stop pause resume suspend : Command

-- The moves that the manager allows.
abbrev pub next_state : Command → VmState → Option VmState
next_state start stopped = some running
next_state start suspended = some running
next_state stop running = some stopped
next_state stop paused = some stopped
next_state pause running = some paused
next_state resume paused = some running
next_state suspend running = some suspended
next_state _ _ = none

abbrev pub perform : Command → ℕ → Vms → ℤ × Vms
perform start = vm_start
perform stop = vm_stop
perform pause = vm_pause
perform resume = vm_resume
perform suspend = vm_suspend

abbrev pub body : Command → Vm → Option Vm
body start = start_vm
body stop = stop_vm
body pause = pause_vm
body resume = resume_vm
body suspend = suspend_vm

pub perform-body :
    (c : Command) (id : ℕ) (s : Vms)
    → perform c id s ≡ answer s (update_first (has_id vm_id id) (body c) s.count s.vms)
unfolding vm_start vm_stop vm_pause vm_resume vm_suspend
perform-body start id s = refl
perform-body stop id s = refl
perform-body pause id s = refl
perform-body resume id s = refl
perform-body suspend id s = refl

-- The machine after a move to the state: a start resets the two times, and all else stays.
abbrev pub moved_to : Command → VmState → Vm → Vm
moved_to start q v = record v { state = q; started_time = 0; uptime = 0 }
moved_to stop q v = record v { state = q }
moved_to pause q v = record v { state = q }
moved_to resume q v = record v { state = q }
moved_to suspend q v = record v { state = q }

-- What the invariant asks of a machine, unchanged
pub record SameBut (v w : Vm) : Type 0 where
  pub same_id : w.id ≡ v.id
  pub same_name : w.name ≡ v.name
  pub same_disks : w.disks ≡ v.disks
  pub same_disk_count : w.disk_count ≡ v.disk_count
  pub same_memory : w.size_mb ≡ v.size_mb
  pub same_cores : w.cores ≡ v.cores
  pub same_network : w.network ≡ v.network

pub body-next_state :
    (c : Command) (v w : Vm)
    → body c v ≡ some w
    → (next_state c v.state ≡ some w.state) × SameBut v w
unfolding start_vm stop_vm pause_vm resume_vm suspend_vm
body-next_state start v w h = ground arith
body-next_state stop v w h = ground arith
body-next_state pause v w h = ground arith
body-next_state resume v w h = ground arith
body-next_state suspend v w h = ground arith

body-some :
    (c : Command) (v : Vm) (q : VmState)
    → next_state c v.state ≡ some q
    → body c v ≡ some (moved_to c q v)
unfolding start_vm stop_vm pause_vm resume_vm suspend_vm
body-some start v q h = ground arith
body-some stop v q h = ground arith
body-some pause v q h = ground arith
body-some resume v q h = ground arith
body-some suspend v q h = ground arith

body-refused : (c : Command) (v : Vm) → next_state c v.state ≡ none → body c v ≡ none
unfolding start_vm stop_vm pause_vm resume_vm suspend_vm
body-refused start v h = ground arith
body-refused stop v h = ground arith
body-refused pause v h = ground arith
body-refused resume v h = ground arith
body-refused suspend v h = ground arith

pub body-id : (c : Command) (v w : Vm) → body c v ≡ some w → vm_id w ≡ vm_id v
body-id c v w h = (body-next_state c v w h).1.same_id

next_state_settled :
    (c : Command) (q r : VmState) → next_state c q ≡ some r → (r ≢ starting) × (r ≢ stopping)
next_state_settled start q r h = ground arith
next_state_settled stop q r h = ground arith
next_state_settled pause q r h = ground arith
next_state_settled resume q r h = ground arith
next_state_settled suspend q r h = ground arith

pub body-IsSlot : (c : Command) (v w : Vm) → IsSlot v → body c v ≡ some w → IsSlot w
body-IsSlot c v w h e =
    let (moved, same) = body-next_state c v w e in
    let (a, b) = next_state_settled c v.state w.state moved in
    record {
      arrays = record {
        name_size = ap length same.same_name ∙ h.name_size;
        disks_size = ap length same.same_disks ∙ h.disks_size;
        paths = rw same.same_disks h.paths;
        disks_fit = omega (arith, same.same_disk_count, h.disks_fit);
      };
      not_starting = a;
      not_stopping = b;
    }

-- What a move of the machine `v` to the state `q` leaves.
pub record Moved (c : Command) (id : ℕ) (v : Vm) (q : VmState) (s t : Vms) : Type 0 where
  pub found : get id t ≡ some (moved_to c q v)
  pub others : (j : ℕ) → j ≢ id → get j t ≡ get j s
  pub same_count : t.count ≡ s.count
  pub same_counter : t.next_id ≡ s.next_id
  pub running_count :
      get_running_count t + (if is_running v then 1 else 0)
      ≡ get_running_count s + (if is_running (moved_to c q v) then 1 else 0)
  pub valid : IsValid t

running-tally : (s : Vms) → get_running_count s ≡ tally is_running (live s)
unfolding get_running_count
running-tally s = count_if-eq-tally is_running s.count s.vms

module _ (c : Command) (id : ℕ) (s : Vms) (valid : IsValid s) where
  -- A move that the table allows is made and reported by 0: the machine is in its new
  -- state, a start sets its start time and its uptime to 0, all else of it and all other machines are
  -- as they were, the count of running ones follows, and the invariant holds.
  pub perform-Moved :
      (v : Vm) (q : VmState)
      → get id s ≡ some v
      → next_state c v.state ≡ some q
      → (t : Vms) × (perform c id s ≡ (pos 0, t)) × Moved c id v q s t
  unfolding answer
  perform-Moved v q found allowed =
      let here : find (has_id vm_id id) (live s) ≡ some v = sym (get-eq-find id s) ∙ found in
      let w = moved_to c q v in
      let e : body c v ≡ some w = body-some c v q allowed in
      let (vms, made) = update_first-some (has_id vm_id id) (body c) s.count s.vms here e in
      let u = update_first-Updated (has_id vm_id id) (body c) s.count s.vms made in
      let t : Vms = record s { vms = vms } in
      let old : u.old ≡ v = some_inj (sym u.found ∙ here) in
      let new : u.new ≡ w = some_inj (sym (rw old at u.passed) ∙ e) in
      (
        t,
        rw (perform-body c id s, made),
        record {
          found =
              rw (get-eq-find id t)
                (find_updated_self vm_id IsSlot valid id (body c) (body-id c) made ∙ ap some new);
          others = λ j ne.
              rw (get-eq-find j t, get-eq-find j s)
                (find_updated_ne vm_id IsSlot valid id j (body c) (body-id c) ne made);
          same_count = refl;
          same_counter = refl;
          running_count =
              rw (running-tally t, running-tally s, u.live, new)
                (tally-replace_first is_running (has_id vm_id id) w (live s) here);
          valid =
              IsTable-update_first vm_id IsSlot valid id (body c) (body-id c) (body-IsSlot c) made;
        },
      )

-- A command for an unknown id, or for a machine in a state that the table gives no move, is
-- answered by -1, and nothing changes.
pub perform-refused :
    (c : Command) (id : ℕ) (s : Vms)
    → (get id s ≡ none) ⊎ ((v : Vm) × (get id s ≡ some v) × (next_state c v.state ≡ none))
    → perform c id s ≡ (minus_one, s)
unfolding answer
perform-refused c id s (inl missing) = rw (
  perform-body c id s,
  update_first_missing (has_id vm_id id) (body c) s.count s.vms (sym (get-eq-find id s) ∙ missing),
)
perform-refused c id s (inr (v, found, barred)) = rw (
  perform-body c id s,
  update_first_unfit (has_id vm_id id) (body c) s.count s.vms (sym (get-eq-find id s) ∙ found)
      (body-refused c v barred),
)
