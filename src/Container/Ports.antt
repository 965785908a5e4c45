-- ===== src/Container/Ports.antt =====
-- `container_expose_port` and `container_update_stats` of virtualization/containers/container.c.
use homeserver_os.Base.{
  ◌⊎◌, List, [], ◌∷◌, ◌++◌, ℕ, suc, ◌+◌, ◌<◌, ◌≤◌, ◌≡◌, ◌≢◌, refl, sym, ◌∙◌, true, false, arith,
  none, some, take, ◌&&◌, leb, if◌then◌else◌, inl, inr, some_inj, Option-cases,
}
use homeserver_os.Base.Int.{pos, minus_one}
use homeserver_os.Base.Table.{find, update_first, update_at}
use homeserver_os.Base.Table.Ids.{has_id, find-map}
use homeserver_os.Base.Table.Slots.{length-update_at, take-update_at, get_elem?-some, All-find}
use homeserver_os.Base.Table.Updates.{update_first_unfit, take-update_all}
use homeserver_os.Base.Table.Valid.{IsTable-update_first, IsTable-update_all}
use homeserver_os.Base.Table.Change.{update_first-Changed}
use homeserver_os.Container.{
  Containers, Container, container_id, get, is_running, answer, expose, expose_port, sample,
  update_stats,
}
use homeserver_os.Container.Create.{live, IsSlot, IsValid, get-eq-find}
use mathlib.Core.Option
use mathlib.Core.Path.{subst}
use native.Mathlib.Decide.{dec_lt}

-- The ports of a container, in the order in which they were exposed.
abbrev pub ports : Container → List ℕ
ports c = take c.port_count c.exposed_ports

expose-id : (port : ℕ) (v w : Container) → expose port v ≡ some w → container_id w ≡ container_id v
unfolding expose
expose-id port v w e = ground arith

-- The container `w` is `v` with one more port.
pub record HasMore (port : ℕ) (v w : Container) : Type 0 where
  pub appended : ports w ≡ ports v ++ port ∷ []
  pub more : w.port_count ≡ v.port_count + 1
  pub same_state : w.state ≡ v.state
  pub same_pid : w.pid ≡ v.pid
  pub same_name : w.name ≡ v.name
  pub same_image : w.image ≡ v.image
  pub same_limits : w.limits ≡ v.limits

exposed : ℕ → Container → Container
exposed port v = record v {
  exposed_ports = update_at v.port_count (λ old. port) v.exposed_ports;
  port_count = v.port_count + 1;
}

expose-exposed :
    (port : ℕ) (v : Container) → v.port_count < 16 → expose port v ≡ some (exposed port v)
unfolding expose exposed
expose-exposed port v h = let room : leb 16 v.port_count ≡ false = ground arith in rw room

expose-full : (port : ℕ) (v : Container) → 16 ≤ v.port_count → expose port v ≡ none
unfolding expose
expose-full port v h = let full : leb 16 v.port_count ≡ true = ground arith in rw full

exposed-HasMore :
    (port : ℕ) (v : Container) → IsSlot v → v.port_count < 16 → HasMore port v (exposed port v)
unfolding exposed
exposed-HasMore port v h room =
    let (old, e) = get_elem?-some v.port_count v.exposed_ports (omega (arith, h.ports_size)) in
    let next : v.port_count + 1 ≡ suc v.port_count = omega arith in
    record {
      appended = rw next (take-update_at v.port_count (λ old. port) v.exposed_ports e);
      more = refl;
      same_state = refl;
      same_pid = refl;
      same_name = refl;
      same_image = refl;
      same_limits = refl;
    }

exposed-IsSlot : (port : ℕ) (v : Container) → IsSlot v → v.port_count < 16 → IsSlot (exposed port v)
unfolding exposed
exposed-IsSlot port v h room = record {
  name_size = h.name_size;
  image_size = h.image_size;
  ports_size = length-update_at v.port_count (λ old. port) v.exposed_ports ∙ h.ports_size;
  ports_fit = omega arith;
  not_starting = h.not_starting;
  not_stopping = h.not_stopping;
}

expose-IsSlot : (port : ℕ) (v w : Container) → IsSlot v → expose port v ≡ some w → IsSlot w
expose-IsSlot port v w h e = elim (dec_lt v.port_count 16) [
  | yes room ↦
      subst IsSlot (some_inj (sym (expose-exposed port v room) ∙ e)) (exposed-IsSlot port v h room)
  | no full ↦ absurd (cc (e, expose-full port v (omega arith)))
]

-- What a successful `container_expose_port` leaves.
pub record Exposed (port id : ℕ) (v : Container) (s t : Containers) : Type 0 where
  pub container : Container
  pub found : get id t ≡ some container
  pub has_more : HasMore port v container
  pub others : (j : ℕ) → j ≢ id → get j t ≡ get j s
  pub same_count : t.count ≡ s.count
  pub valid : IsValid t

-- `container_expose_port` appends the port to those of the container and returns 0 while it has
-- fewer than 16, and refuses a seventeenth with -1 and no change.
pub expose_port-Exposed :
    (id port : ℕ) (s : Containers) (valid : IsValid s) (v : Container)
    → get id s ≡ some v
    → ((v.port_count < 16)
        × (t : Containers) × (expose_port id port s ≡ (pos 0, t))
        × Exposed port id v s t)
      ⊎ ((v.port_count ≡ 16) × (expose_port id port s ≡ (minus_one, s)))
unfolding expose_port answer
expose_port-Exposed id port s valid v found =
    let here : find (has_id container_id id) (live s) ≡ some v = sym (get-eq-find id s) ∙ found in
    let slot = All-find IsSlot (has_id container_id id) s.count s.containers valid.slots here in
    elim (dec_lt v.port_count 16) [
      | no full ↦ inr (
        omega (arith, slot.ports_fit),
        rw
            (update_first_unfit (has_id container_id id) (expose port) s.count s.containers here
              (expose-full port v (omega arith)))
            refl,
      )
      | yes room ↦
          let (cs, made, change) =
            update_first-Changed container_id IsSlot valid (expose port) (expose-id port)
              (expose-IsSlot port) id here (expose-exposed port v room) in
          let t : Containers = record s { containers = cs } in
          inl (
            room,
            t,
            rw made refl,
            record {
              container = exposed port v;
              found = get-eq-find id t ∙ change.found;
              has_more = exposed-HasMore port v slot room;
              others = λ j ne. rw (get-eq-find j t, get-eq-find j s) (change.others j ne);
              same_count = refl;
              valid = change.valid;
            },
          )
    ]

pub expose_port-IsValid :
    (id port : ℕ) (s : Containers) → IsValid s → IsValid (expose_port id port s).1
unfolding expose_port answer
expose_port-IsValid id port s v =
    elim (Option-cases (update_first (has_id container_id id) (expose port) s.count s.containers)) [
      | inl e ↦ rw (e, answer) v
      | inr (cs, e) ↦
          rw (e, answer)
            (IsTable-update_first container_id IsSlot v id (expose port) (expose-id port)
              (expose-IsSlot port) e)
    ]

-- The change that `container_update_stats` makes to a container under any id.
abbrev pub sampled : ℕ → Container → Container
sampled id v = if has_id container_id id v && is_running v then sample id v else v

sampled-id : (id : ℕ) (v : Container) → container_id (sampled id v) ≡ container_id v
unfolding sample
sampled-id id v = ground arith

sample-IsSlot : (id : ℕ) (v : Container) → IsSlot v → IsSlot (sample id v)
unfolding sample
sample-IsSlot id v h = record {
  name_size = h.name_size;
  image_size = h.image_size;
  ports_size = h.ports_size;
  ports_fit = h.ports_fit;
  not_starting = h.not_starting;
  not_stopping = h.not_stopping;
}

pub update_stats-IsValid : (id : ℕ) (s : Containers) → IsValid s → IsValid (update_stats id s)
unfolding update_stats
update_stats-IsValid id s v =
    IsTable-update_all container_id IsSlot v (λ w. has_id container_id id w && is_running w)
      (sample id) (sampled-id id) (sample-IsSlot id)

-- `container_update_stats` samples the container under the id if it runs, and no other.
pub get-update_stats :
    (id j : ℕ) (s : Containers) → get j (update_stats id s) ≡ Option.map (sampled id) (get j s)
unfolding update_stats
get-update_stats id j s =
    rw
      (
        get-eq-find j (update_stats id s),
        get-eq-find j s,
        take-update_all (λ w. has_id container_id id w && is_running w) (sample id) s.count
            s.containers,
      )
      (find-map container_id (sampled id) (sampled-id id) j (live s))
