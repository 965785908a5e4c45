-- ===== src/Container/Reach.antt =====
-- All histories of calls of virtualization/containers/container.c.
use homeserver_os.Base.{
  ℕ, ◌+◌, ◌^◌, ◌<◌, ◌≤◌, ◌≡◌, ◌⊎◌, ap, sym, ◌∙◌, List, arith, length, length-map, Option, some, inl,
  inr, some_inj, Option-cases, Bool-cases,
}
use homeserver_os.Base.Int.{ℤ, at_least, rounds-lt}
use mathlib.Core.Path.{subst}
use native.Mathlib.Decide.{dec_lt}
use homeserver_os.Base.Table.Slots.{All, All-find, All-map}
use homeserver_os.Base.Table.Ids.{has_id}
use homeserver_os.Container.{
  Containers, Container, stopped, running, paused, Limits, container_id, get, create, expose_port,
  delete, update_stats, set_max, init, max_containers,
}
use homeserver_os.Container.Create.{
  IsSlot, IsValid, get-eq-find, create-Added, create-none_iff, create-full,
}
use homeserver_os.Container.Control.{
  Command, perform, next_state, perform-Switched, perform_declined,
}
use homeserver_os.Container.Delete.{delete-Removed, delete-missing}
use homeserver_os.Container.Ports.{expose_port-IsValid, update_stats-IsValid}

-- One call of the interface. A `container_create` that adds a container is made while fewer than 2^32 - 2
-- ids have been given out; one that writes past the end of `containers` is no step.
pub data Step (s : Containers) (t : Containers) : Type 0 where
  created :
      (name image : List ℕ) (limits : Option Limits) (id : ℕ)
      → s.next_id + 1 < 2 ^ 32
      → create name image limits s ≡ some (id, t)
      → Step s t
  exposed : (id port : ℕ) → t ≡ (expose_port id port s).1 → Step s t
  commanded : (c : Command) (id : ℕ) → t ≡ (perform c id s).1 → Step s t
  deleted : (id : ℕ) → t ≡ (delete id s).1 → Step s t
  sampled : (id : ℕ) → t ≡ update_stats id s → Step s t
  limited : (max : ℤ) → t ≡ set_max max s → Step s t

pub data Reach (s : Containers) : Containers → Type 0 where
  here : Reach s s
  next : {t u : Containers} → Reach s t → Step t u → Reach s u

create-IsValid :
    (name image : List ℕ) (limits : Option Limits) (id : ℕ) (s t : Containers)
    → IsValid s
    → s.next_id + 1 < 2 ^ 32
    → create name image limits s ≡ some (id, t)
    → IsValid t
create-IsValid name image limits id s t v small e = elim (Bool-cases (at_least s.count s.max)) [
  | inl full ↦
      let same : some (0, s) ≡ some (id, t) = sym (create-full name image limits s full) ∙ e in
      subst IsValid (ap (λ r. r.1) (some_inj same)) v
  | inr below ↦ elim (dec_lt s.count max_containers) [
    | yes room ↦
        let (u, q, c) = create-Added name image limits s v below room small in
        subst IsValid (ap (λ r. r.1) (some_inj (sym q ∙ e))) c.valid
    | no full ↦
        let fault =
          (create-none_iff name image limits s v).1
            (omega arith, omega (arith, rounds-lt s.count s.max below, v.within)) in
        absurd (cc (fault, e))
  ]
]

perform-IsValid : (c : Command) (id : ℕ) (s : Containers) → IsValid s → IsValid (perform c id s).1
perform-IsValid c id s v = elim (Option-cases (get id s)) [
  | inl missing ↦ rw (perform_declined c id s (inl missing)) v
  | inr (k, found) ↦ elim (Option-cases (next_state c k.state)) [
    | inl barred ↦ rw (perform_declined c id s (inr (k, found, barred))) v
    | inr (q, allowed) ↦ let (t, e, m) = perform-Switched c id s v k q found allowed in rw e m.valid
  ]
]

delete-IsValid : (id : ℕ) (s : Containers) → IsValid s → IsValid (delete id s).1
delete-IsValid id s v = elim (Option-cases (get id s)) [
  | inl missing ↦ rw (delete-missing id s v missing) v
  | inr (k, found) ↦ let (t, e, d) = delete-Removed id s v k found in rw e d.valid
]

set_max-IsValid : (max : ℤ) (s : Containers) → IsValid s → IsValid (set_max max s)
unfolding set_max
set_max-IsValid max s v = v

Step-IsValid : {s t : Containers} → Step s t → IsValid s → IsValid t
Step-IsValid {s} {t} (created name image limits id small e) v =
    create-IsValid name image limits id s t v small e
Step-IsValid {s} (exposed id port e) v = rw e (expose_port-IsValid id port s v)
Step-IsValid {s} (commanded c id e) v = rw e (perform-IsValid c id s v)
Step-IsValid {s} (deleted id e) v = rw e (delete-IsValid id s v)
Step-IsValid {s} (sampled id e) v = rw e (update_stats-IsValid id s v)
Step-IsValid {s} (limited max e) v = rw e (set_max-IsValid max s v)

pub Reach-IsValid : {s t : Containers} → IsValid s → Reach s t → IsValid t
Reach-IsValid v here = v
Reach-IsValid v (next r st) = Step-IsValid st (Reach-IsValid v r)

-- A slot of the array as it is declared; nothing is said of its state.
pub record HasArrays (c : Container) : Type 0 where
  pub name_size : length c.name ≡ 64
  pub image_size : length c.image ≡ 128
  pub ports_size : length c.exposed_ports ≡ 16
  pub ports_fit : c.port_count ≤ 16

pub record HasStorage (s : Containers) : Type 0 where
  pub storage : length s.containers ≡ max_containers
  pub buffers : All HasArrays s.containers

pub init-IsValid : (s : Containers) → HasStorage s → IsValid (init s)
unfolding init
init-IsValid s h = record {
  storage = length-map s.containers _ ∙ h.storage;
  within = omega arith;
  ids = omega arith;
  slots = All-map HasArrays IsSlot _ fresh s.containers h.buffers;
  small = omega arith;
}
  where
    fresh : (c : Container) → HasArrays c → IsSlot (record c { state = stopped; id = 0 })
    fresh c a = record {
      name_size = a.name_size;
      image_size = a.image_size;
      ports_size = a.ports_size;
      ports_fit = a.ports_fit;
      not_starting = λ e. cc;
      not_stopping = λ e. cc;
    }

-- A container that can be looked up at any time.
pub record IsAtRest (c : Container) : Type 0 where
  pub state : (c.state ≡ stopped) ⊎ (c.state ≡ running) ⊎ (c.state ≡ paused)
  pub ports_fit : c.port_count ≤ 16

settled : (c : Container) → IsSlot c → IsAtRest c
settled c h = record {
  state = grind (arith, h.not_starting, h.not_stopping);
  ports_fit = h.ports_fit;
}

-- After `container_init` and any calls, in any order, each container that can be looked up is
-- stopped, running or paused, and exposes 16 ports at most.
pub Reach-IsAtRest :
    (s t : Containers) (id : ℕ) (c : Container)
    → HasStorage s
    → Reach (init s) t
    → get id t ≡ some c
    → IsAtRest c
Reach-IsAtRest s t id c h r found =
    let v = Reach-IsValid (init-IsValid s h) r in
    settled c (
      All-find IsSlot (has_id container_id id) t.count t.containers v.slots
        (sym (get-eq-find id t) ∙ found))
