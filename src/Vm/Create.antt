-- ===== src/Vm/Create.antt =====
-- The machine table of virtualization/vms/vm.c: its invariant, and `vm_create`.
use homeserver_os.Base.{
  ℕ, suc, ◌+◌, ◌/◌, ◌%◌, ◌^◌, ◌<◌, ◌≤◌, ◌≡◌, ◌≢◌, ◌↔◌, refl, ap, sym, ◌∙◌, true, false, List, [],
  ◌∷◌, ◌++◌, arith, length, none, some, take, Bool-cases, get_or, inl, inr,
}
use homeserver_os.Base.Int.{at_least, rounds, rounds-lt, rounds-le}
use homeserver_os.Base.Text.{text, text-copy_text, length-copy_text}
use homeserver_os.Base.Table.{find, write_at}
use homeserver_os.Base.Table.Ids.{has_id, find-append_self, find-append_other}
use homeserver_os.Base.Table.Slots.{All, All-get_elem?}
use homeserver_os.Base.Table.Laws.{write_at-Wrote, write_at-none, find_first-eq-find}
use homeserver_os.Base.Table.Valid.{IsTable, write_at-in_bounds, IsTable-write_at, find_next}
use homeserver_os.Vm.{
  Vms, Vm, stopped, starting, stopping, Firmware, Disk, vm_id, fill_vm, create, get, inc, max_vms,
  mac, digit,
}
use mathlib.Core.Option
use native.Mathlib.Decide.{dec_lt}

-- The machines that exist, in the order of the table.
abbrev pub live : Vms → List Vm
live s = take s.count s.vms

-- `char path[256]`
abbrev pub HasPath : Disk → Type 0
HasPath d = length d.path ≡ 256

-- A slot of `vms`: its arrays have the declared sizes.
pub record HasArrays (v : Vm) : Type 0 where
  pub name_size : length v.name ≡ 64
  pub disks_size : length v.disks ≡ 8
  pub paths : All HasPath v.disks
  pub disks_fit : v.disk_count ≤ 8

-- And its state is one of the four that a machine has between two calls.
pub record IsSlot (v : Vm) : Type 0 where
  pub arrays : HasArrays v
  pub open arrays use {name_size, disks_size, paths, disks_fit}
  pub not_starting : v.state ≢ starting
  pub not_stopping : v.state ≢ stopping

-- Between two calls.
abbrev pub IsValid : Vms → Type 0
IsValid s = IsTable vm_id IsSlot max_vms s.vms s.count s.next_id

pub get-eq-find : (id : ℕ) (s : Vms) → get id s ≡ find (has_id vm_id id) (live s)
unfolding get
get-eq-find id s = find_first-eq-find (has_id vm_id id) s.count s.vms

-- The parameters of one call of `vm_create`.
module _ (name : List ℕ) (firmware : Firmware) (cpu_cores memory_mb : ℕ) where
  abbrev fill : ℕ → Vm → Vm
  fill id = fill_vm id name firmware cpu_cores memory_mb

  -- A stopped machine with the parameters of the call, the name cut at 63 bytes, and no disk.
  pub record IsNew (id : ℕ) (v : Vm) : Type 0 where
    pub named : v.id ≡ id
    pub called : text v.name ≡ take 63 (text name)
    pub is_stopped : v.state ≡ stopped
    pub on_firmware : v.firmware ≡ firmware
    pub with_cores : v.cores ≡ cpu_cores
    pub with_memory : v.size_mb ≡ memory_mb
    pub no_disk : v.disk_count ≡ 0
    pub no_uptime : v.uptime ≡ 0
    pub address : v.network.mac_address ≡ mac id

  fill-IsNew : (id : ℕ) (v : Vm) → IsSlot v → IsNew id (fill id v)
  unfolding fill_vm
  fill-IsNew id v h = record {
    named = refl;
    called = text-copy_text 63 name v.name (omega (arith, h.name_size));
    is_stopped = refl;
    on_firmware = refl;
    with_cores = refl;
    with_memory = refl;
    no_disk = refl;
    no_uptime = refl;
    address = refl;
  }

  fill-id : (id : ℕ) (v : Vm) → vm_id (fill id v) ≡ id
  unfolding fill_vm
  fill-id id v = refl

  fill-IsSlot : (id : ℕ) (v : Vm) → IsSlot v → IsSlot (fill id v)
  unfolding fill_vm
  fill-IsSlot id v h = record {
    arrays = record {
      name_size = length-copy_text 63 name v.name ∙ h.name_size;
      disks_size = h.disks_size;
      paths = h.paths;
      disks_fit = omega arith;
    };
    not_starting = λ e. cc;
    not_stopping = λ e. cc;
  }

  -- What a successful `vm_create` leaves: the new machine under a fresh id, the others as they were.
  pub record Created (s t : Vms) : Type 0 where
    pub vm : Vm
    pub is_new : IsNew s.next_id vm
    pub fresh : get s.next_id s ≡ none
    pub found : get s.next_id t ≡ some vm
    pub others : (j : ℕ) → j ≢ s.next_id → get j t ≡ get j s
    pub appended : live t ≡ live s ++ vm ∷ []
    pub more : t.count ≡ s.count + 1
    pub counter : t.next_id ≡ s.next_id + 1
    pub valid : IsValid t

  -- In a valid table, below the limit, with a slot left and an id counter below its last value,
  -- `vm_create` returns the counter and appends a stopped machine with the parameters of the call
  -- under that id; no other machine changes, and the table stays valid.
  pub create-Created :
      (s : Vms)
      → IsValid s
      → at_least s.count s.max ≡ false
      → s.count < max_vms
      → s.next_id + 1 < 2 ^ 32
      → (t : Vms) × (create name firmware cpu_cores memory_mb s ≡ some (s.next_id, t)) × Created s t
  unfolding create
  create-Created s v below room small =
      let (vms, e) = write_at-in_bounds vm_id IsSlot v (fill s.next_id) room in
      let w = write_at-Wrote s.count (fill s.next_id) s.vms e in
      let next : s.count + 1 ≡ suc s.count = omega arith in
      let exact : inc s.next_id ≡ s.next_id + 1 = omega arith in
      let t : Vms = record s { vms = vms; count = s.count + 1; next_id = inc s.next_id } in
      let appended : live t ≡ live s ++ fill s.next_id w.old ∷ [] = rw next w.live in
      let free : find (has_id vm_id s.next_id) (live s) ≡ none = find_next vm_id IsSlot v in
      (
        t,
        rw (below, e),
        record {
          vm = fill s.next_id w.old;
          is_new = fill-IsNew s.next_id w.old (All-get_elem? IsSlot s.count s.vms v.slots w.slot);
          fresh = get-eq-find s.next_id s ∙ free;
          found =
              rw (get-eq-find s.next_id t, appended)
                (find-append_self vm_id s.next_id (live s) (fill s.next_id w.old) free
                  (fill-id s.next_id w.old));
          others = λ j ne.
              rw (get-eq-find j t, get-eq-find j s, appended)
                (find-append_other vm_id j (live s) (fill s.next_id w.old)
                  (λ q. ne (sym q ∙ fill-id s.next_id w.old)));
          appended = appended;
          more = refl;
          counter = exact;
          valid =
              IsTable-write_at vm_id IsSlot v (fill s.next_id) (fill-id s.next_id)
                (fill-IsSlot s.next_id) e room small;
        },
      )

  -- At the limit nothing changes, and 0 is returned.
  pub create-full :
      (s : Vms)
      → at_least s.count s.max ≡ true
      → create name firmware cpu_cores memory_mb s ≡ some (0, s)
  unfolding create
  create-full s full = rw full

  -- `vm_create` writes past the end of `vms` exactly where the table is full and the limit that
  -- `vm_set_max` took is larger than the table.
  pub create-none :
      (s : Vms)
      → IsValid s
      → (create name firmware cpu_cores memory_mb s ≡ none)
        ↔ ((s.count ≡ max_vms) × (max_vms < rounds s.max))
  unfolding create
  create-none s v = elim (Bool-cases (at_least s.count s.max)) [
    | inl full ↦
        (λ e. absurd (cc (e, full)), λ h. absurd (omega (arith, rounds-le s.count s.max full)))
    | inr below ↦
        (forward below, λ h. rw (below, write_at-none s.count (fill s.next_id) s.vms (omega arith)))
  ]
    where
      forward :
          at_least s.count s.max ≡ false
          → create name firmware cpu_cores memory_mb s ≡ none
          → (s.count ≡ max_vms) × (max_vms < rounds s.max)
      forward below e =
          let faulted : write_at s.count (fill s.next_id) s.vms ≡ none =
            (Option.map-eq-none_iff _ _).0 (rw below at e) in
          let over = rounds-lt s.count s.max below in
          elim (dec_lt s.count max_vms) [
            | yes room ↦
                let (vms, q) = write_at-in_bounds vm_id IsSlot v (fill s.next_id) room in
                absurd (cc (q, faulted))
            | no full ↦ (omega arith, omega arith)
          ]

-- Two ids get one address exactly where their last three digits agree.
pub mac-mod : (i j : ℕ) → (mac i ≡ mac j) ↔ (i % 1000 ≡ j % 1000)
unfolding mac
mac-mod i j = (forward, backward)
  where
    forward : mac i ≡ mac j → i % 1000 ≡ j % 1000
    forward e =
        omega
          (arith, ap (λ l. get_or l 9 0) e, ap (λ l. get_or l 10 0) e, ap (λ l. get_or l 12 0) e)

    backward : i % 1000 ≡ j % 1000 → mac i ≡ mac j
    backward e =
        let hundreds : digit (i / 100) ≡ digit (j / 100) = omega arith in
        let tens : digit (i / 10) ≡ digit (j / 10) = omega arith in
        let ones : digit i ≡ digit j = omega arith in cc (hundreds, tens, ones)
