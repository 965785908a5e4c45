-- ===== src/Vm/Reach.antt =====
-- All histories of calls of virtualization/vms/vm.c.
use homeserver_os.Base.{
  ℕ, ◌+◌, ◌^◌, ◌<◌, ◌≤◌, ◌≡◌, ◌⊎◌, ap, sym, ◌∙◌, List, arith, length, length-map, some, inl, inr,
  some_inj, Option-cases, Bool-cases,
}
use homeserver_os.Base.Int.{ℤ, at_least, rounds-lt}
use mathlib.Core.Path.{subst}
use native.Mathlib.Decide.{dec_lt}
use homeserver_os.Base.Table.Slots.{All, All-find, All-map}
use homeserver_os.Base.Table.Ids.{has_id}
use homeserver_os.Vm.{
  Vms, Vm, stopped, running, paused, suspended, Firmware, vm_id, get, create, add_disk, delete,
  update_stats, set_max, init, max_vms,
}
use homeserver_os.Vm.Create.{
  IsSlot, HasArrays, IsValid, get-eq-find, create-Created, create-none, create-full,
}
use homeserver_os.Vm.Control.{Command, perform, next_state, perform-Moved, perform-refused}
use homeserver_os.Vm.Delete.{delete-Deleted, delete-missing}
use homeserver_os.Vm.Stats.{add_disk-IsValid, update_stats-IsValid}

-- One call of the interface. A `vm_create` that adds a machine is made while fewer than 2^32 - 2
-- ids have been given out; one that writes past the end of `vms` is no step.
pub data Step (s : Vms) (t : Vms) : Type 0 where
  created :
      (name : List ℕ) (firmware : Firmware) (cpu_cores memory_mb id : ℕ)
      → s.next_id + 1 < 2 ^ 32
      → create name firmware cpu_cores memory_mb s ≡ some (id, t)
      → Step s t
  extended :
      (id : ℕ) (path : List ℕ) (size_gb is_boot : ℕ)
      → t ≡ (add_disk id path size_gb is_boot s).1
      → Step s t
  commanded : (c : Command) (id : ℕ) → t ≡ (perform c id s).1 → Step s t
  deleted : (id : ℕ) → t ≡ (delete id s).1 → Step s t
  sampled : (id : ℕ) → t ≡ update_stats id s → Step s t
  limited : (max : ℤ) → t ≡ set_max max s → Step s t

pub data Reach (s : Vms) : Vms → Type 0 where
  here : Reach s s
  next : {t u : Vms} → Reach s t → Step t u → Reach s u

create-IsValid :
    (name : List ℕ) (firmware : Firmware) (cpu_cores memory_mb id : ℕ) (s t : Vms)
    → IsValid s
    → s.next_id + 1 < 2 ^ 32
    → create name firmware cpu_cores memory_mb s ≡ some (id, t)
    → IsValid t
create-IsValid name firmware cpu_cores memory_mb id s t v small e =
    elim (Bool-cases (at_least s.count s.max)) [
      | inl full ↦
          let same : some (0, s) ≡ some (id, t) =
            sym (create-full name firmware cpu_cores memory_mb s full) ∙ e in
          subst IsValid (ap (λ r. r.1) (some_inj same)) v
      | inr below ↦ elim (dec_lt s.count max_vms) [
        | yes room ↦
            let (u, q, c) = create-Created name firmware cpu_cores memory_mb s v below room small in
            subst IsValid (ap (λ r. r.1) (some_inj (sym q ∙ e))) c.valid
        | no full ↦
            let fault =
              (create-none name firmware cpu_cores memory_mb s v).1
                (omega arith, omega (arith, rounds-lt s.count s.max below, v.within)) in
            absurd (cc (fault, e))
      ]
    ]

perform-IsValid : (c : Command) (id : ℕ) (s : Vms) → IsValid s → IsValid (perform c id s).1
perform-IsValid c id s v = elim (Option-cases (get id s)) [
  | inl missing ↦ rw (perform-refused c id s (inl missing)) v
  | inr (vm, found) ↦ elim (Option-cases (next_state c vm.state)) [
    | inl barred ↦ rw (perform-refused c id s (inr (vm, found, barred))) v
    | inr (q, allowed) ↦ let (t, e, m) = perform-Moved c id s v vm q found allowed in rw e m.valid
  ]
]

delete-IsValid : (id : ℕ) (s : Vms) → IsValid s → IsValid (delete id s).1
delete-IsValid id s v = elim (Option-cases (get id s)) [
  | inl missing ↦ rw (delete-missing id s v missing) v
  | inr (vm, found) ↦ let (t, e, d) = delete-Deleted id s v vm found in rw e d.valid
]

set_max-IsValid : (max : ℤ) (s : Vms) → IsValid s → IsValid (set_max max s)
unfolding set_max
set_max-IsValid max s v = v

Step-IsValid : {s t : Vms} → Step s t → IsValid s → IsValid t
Step-IsValid {s} {t} (created name firmware cpu_cores memory_mb id small e) v =
    create-IsValid name firmware cpu_cores memory_mb id s t v small e
Step-IsValid {s} (extended id path size_gb is_boot e) v =
    rw e (add_disk-IsValid path size_gb is_boot id s v)
Step-IsValid {s} (commanded c id e) v = rw e (perform-IsValid c id s v)
Step-IsValid {s} (deleted id e) v = rw e (delete-IsValid id s v)
Step-IsValid {s} (sampled id e) v = rw e (update_stats-IsValid id s v)
Step-IsValid {s} (limited max e) v = rw e (set_max-IsValid max s v)

pub Reach-IsValid : {s t : Vms} → IsValid s → Reach s t → IsValid t
Reach-IsValid v here = v
Reach-IsValid v (next r st) = Step-IsValid st (Reach-IsValid v r)

-- The array of the file as it is declared; nothing is said of the states in it.
pub record HasStorage (s : Vms) : Type 0 where
  pub storage : length s.vms ≡ max_vms
  pub buffers : All HasArrays s.vms

pub init-IsValid : (s : Vms) → HasStorage s → IsValid (init s)
unfolding init
init-IsValid s h = record {
  storage = length-map s.vms _ ∙ h.storage;
  within = omega arith;
  ids = omega arith;
  slots = All-map HasArrays IsSlot _ fresh s.vms h.buffers;
  small = omega arith;
}
  where
    fresh : (vm : Vm) → HasArrays vm → IsSlot (record vm { state = stopped; id = 0 })
    fresh vm a = record {
      arrays = record {
        name_size = a.name_size;
        disks_size = a.disks_size;
        paths = a.paths;
        disks_fit = a.disks_fit;
      };
      not_starting = λ e. cc;
      not_stopping = λ e. cc;
    }

-- A machine that can be looked up at any time.
pub record IsSettled (vm : Vm) : Type 0 where
  pub state :
      (vm.state ≡ stopped) ⊎ (vm.state ≡ running) ⊎ (vm.state ≡ paused) ⊎ (vm.state ≡ suspended)
  pub disks : vm.disk_count ≤ 8

settled : (vm : Vm) → IsSlot vm → IsSettled vm
settled vm h = record { state = grind (arith, h.not_starting, h.not_stopping); disks = h.disks_fit }

-- After `vm_init` and any calls, in any order, each machine that can be looked up is stopped,
-- running, paused or suspended, and has 8 disks at most.
pub Reach-IsSettled :
    (s t : Vms) (id : ℕ) (vm : Vm)
    → HasStorage s
    → Reach (init s) t
    → get id t ≡ some vm
    → IsSettled vm
Reach-IsSettled s t id vm h r found =
    let v = Reach-IsValid (init-IsValid s h) r in
    settled vm
      (All-find IsSlot (has_id vm_id id) t.count t.vms v.slots (sym (get-eq-find id t) ∙ found))
