-- ===== src/Container/Control.antt =====
-- The life cycle of a container in virtualization/containers/container.c: `container_start`,
-- `container_stop`, `container_pause` and `container_resume` against one table of moves.
use homeserver_os.Base.{
  ℕ, ◌+◌, ◌*◌, ◌%◌, ◌^◌, ◌≡◌, ◌≢◌, ◌⊎◌, refl, ap, sym, ◌∙◌, arith, length, Option, none, some,
  if◌then◌else◌, inl, inr,
}
use homeserver_os.Base.Int.{ℤ, pos, minus_one}
use homeserver_os.Base.Table.{find, update_first}
use homeserver_os.Base.Table.Ids.{has_id}
use homeserver_os.Base.Table.Updates.{
  update_first_missing, update_first_unfit, count_if-eq-tally, tally, tally-replace_first,
}
use homeserver_os.Base.Table.Change.{update_first-Changed}
use homeserver_os.Container.{
  Containers, Container, ContainerState, stopped, starting, running, paused, stopping, container_id,
  get, is_running, answer, start_one, stop_one, pause_one, resume_one, start as container_start,
  stop as container_stop, pause as container_pause, resume as container_resume, get_running_count,
}
use homeserver_os.Container.Create.{live, IsSlot, IsValid, get-eq-find}

-- The four functions that move a container from one state to another.
pub data Command : Type 0 where
  start stop pause resume : Command

-- The moves that the manager allows.
abbrev pub next_state : Command → ContainerState → Option ContainerState
next_state start stopped = some running
next_state stop running = some stopped
next_state pause running = some paused
next_state resume paused = some running
next_state _ _ = none

-- The process number after a move: `container_start` makes one from the id counter, and
-- `container_stop` clears it.
abbrev pub next_pid : Command → ℕ → ℕ → ℕ
next_pid start next_id pid = next_id * 1000 % 2 ^ 32
next_pid stop next_id pid = 0
next_pid pause next_id pid = pid
next_pid resume next_id pid = pid

-- The container after a move to the state: a start resets its start time, and all else stays.
abbrev pub moved_to : Command → ℕ → ContainerState → Container → Container
moved_to start next_id q v = record v {
  state = q;
  pid = next_pid start next_id v.pid;
  started_time = 0;
}
moved_to stop next_id q v = record v { state = q; pid = next_pid stop next_id v.pid }
moved_to pause next_id q v = record v { state = q }
moved_to resume next_id q v = record v { state = q }

abbrev pub perform : Command → ℕ → Containers → ℤ × Containers
perform start = container_start
perform stop = container_stop
perform pause = container_pause
perform resume = container_resume

abbrev pub body : Command → ℕ → Container → Option Container
body start next_id = start_one next_id
body stop next_id = stop_one
body pause next_id = pause_one
body resume next_id = resume_one

perform-body :
    (c : Command) (id : ℕ) (s : Containers)
    → perform c id s
      ≡ answer s (update_first (has_id container_id id) (body c s.next_id) s.count s.containers)
unfolding container_start container_stop container_pause container_resume
perform-body start id s = refl
perform-body stop id s = refl
perform-body pause id s = refl
perform-body resume id s = refl

-- A move of a container by one command: its state, its process number, and what the invariant asks
-- of the rest
pub record Moves (c : Command) (next_id : ℕ) (v w : Container) : Type 0 where
  pub allowed : next_state c v.state ≡ some w.state
  pub process : w.pid ≡ next_pid c next_id v.pid
  pub same_id : w.id ≡ v.id
  pub same_name : w.name ≡ v.name
  pub same_image : w.image ≡ v.image
  pub same_limits : w.limits ≡ v.limits
  pub same_ports : w.exposed_ports ≡ v.exposed_ports
  pub same_port_count : w.port_count ≡ v.port_count

body-Moves : (c : Command) (n : ℕ) (v w : Container) → body c n v ≡ some w → Moves c n v w
unfolding start_one stop_one pause_one resume_one
body-Moves start n v w h = ground arith
body-Moves stop n v w h = ground arith
body-Moves pause n v w h = ground arith
body-Moves resume n v w h = ground arith

body-some :
    (c : Command) (n : ℕ) (v : Container) (q : ContainerState)
    → next_state c v.state ≡ some q
    → body c n v ≡ some (moved_to c n q v)
unfolding start_one stop_one pause_one resume_one
body-some start n v q h = ground arith
body-some stop n v q h = ground arith
body-some pause n v q h = ground arith
body-some resume n v q h = ground arith

body-refused :
    (c : Command) (n : ℕ) (v : Container) → next_state c v.state ≡ none → body c n v ≡ none
unfolding start_one stop_one pause_one resume_one
body-refused start n v h = ground arith
body-refused stop n v h = ground arith
body-refused pause n v h = ground arith
body-refused resume n v h = ground arith

pub body-id :
    (c : Command) (n : ℕ) (v w : Container) → body c n v ≡ some w → container_id w ≡ container_id v
body-id c n v w h = (body-Moves c n v w h).same_id

next_state_settled :
    (c : Command) (q r : ContainerState) → next_state c q ≡ some r → (r ≢ starting) × (r ≢ stopping)
next_state_settled start q r h = ground arith
next_state_settled stop q r h = ground arith
next_state_settled pause q r h = ground arith
next_state_settled resume q r h = ground arith

pub body-IsSlot :
    (c : Command) (n : ℕ) (v w : Container) → IsSlot v → body c n v ≡ some w → IsSlot w
body-IsSlot c n v w h e =
    let m = body-Moves c n v w e in
    let (a, b) = next_state_settled c v.state w.state m.allowed in
    record {
      name_size = ap length m.same_name ∙ h.name_size;
      image_size = ap length m.same_image ∙ h.image_size;
      ports_size = ap length m.same_ports ∙ h.ports_size;
      ports_fit = omega (arith, m.same_port_count, h.ports_fit);
      not_starting = a;
      not_stopping = b;
    }

running-tally : (s : Containers) → get_running_count s ≡ tally is_running (live s)
unfolding get_running_count
running-tally s = count_if-eq-tally is_running s.count s.containers

-- What a move of the container `v` leaves.
pub record Switched (c : Command) (id : ℕ) (v : Container) (q : ContainerState) (s t : Containers)
    : Type 0 where
  pub found : get id t ≡ some (moved_to c s.next_id q v)
  pub others : (j : ℕ) → j ≢ id → get j t ≡ get j s
  pub same_count : t.count ≡ s.count
  pub same_counter : t.next_id ≡ s.next_id
  pub running_count :
      get_running_count t + (if is_running v then 1 else 0)
      ≡ get_running_count s + (if is_running (moved_to c s.next_id q v) then 1 else 0)
  pub valid : IsValid t

module _ (c : Command) (id : ℕ) (s : Containers) (valid : IsValid s) where
  -- A move that the table allows is made and reported by 0: the container is in its new state, with
  -- the process number that goes with it, and a start sets its start time to 0; all else of it and all other containers are as they were,
  -- the count of running ones follows, and the invariant holds.
  pub perform-Switched :
      (v : Container) (q : ContainerState)
      → get id s ≡ some v
      → next_state c v.state ≡ some q
      → (t : Containers) × (perform c id s ≡ (pos 0, t)) × Switched c id v q s t
  unfolding answer
  perform-Switched v q found allowed =
      let here : find (has_id container_id id) (live s) ≡ some v = sym (get-eq-find id s) ∙ found in
      let w = moved_to c s.next_id q v in
      let e : body c s.next_id v ≡ some w = body-some c s.next_id v q allowed in
      let (cs, made, change) =
        update_first-Changed container_id IsSlot valid (body c s.next_id) (body-id c s.next_id)
          (body-IsSlot c s.next_id) id here e in
      let t : Containers = record s { containers = cs } in
      (
        t,
        rw (perform-body c id s, made),
        record {
          found = get-eq-find id t ∙ change.found;
          others = λ j ne. rw (get-eq-find j t, get-eq-find j s) (change.others j ne);
          same_count = refl;
          same_counter = refl;
          running_count =
              rw (running-tally t, running-tally s, change.live)
                (tally-replace_first is_running (has_id container_id id) w (live s) here);
          valid = change.valid;
        },
      )

-- A command for an unknown id, or for a container in a state that the table gives no move, is
-- answered by -1, and nothing changes.
pub perform_declined :
    (c : Command) (id : ℕ) (s : Containers)
    → (get id s ≡ none) ⊎ ((v : Container) × (get id s ≡ some v) × (next_state c v.state ≡ none))
    → perform c id s ≡ (minus_one, s)
unfolding answer
perform_declined c id s (inl missing) = rw (
  perform-body c id s,
  update_first_missing (has_id container_id id) (body c s.next_id) s.count s.containers
      (sym (get-eq-find id s) ∙ missing),
)
perform_declined c id s (inr (v, found, barred)) = rw (
  perform-body c id s,
  update_first_unfit (has_id container_id id) (body c s.next_id) s.count s.containers
      (sym (get-eq-find id s) ∙ found) (body-refused c s.next_id v barred),
)
