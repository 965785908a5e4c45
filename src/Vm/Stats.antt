-- ===== src/Vm/Stats.antt =====
-- `vm_add_disk` and `vm_update_stats` of virtualization/vms/vm.c.
use homeserver_os.Base.{
  ℕ, ◌+◌, ◌*◌, ◌/◌, ◌%◌, ◌^◌, ◌<◌, ◌≤◌, ◌≡◌, ◌≢◌, refl, ap, sym, ◌∙◌, true, false, List, arith,
  Option, none, some, take, ◌&&◌, leb, if◌then◌else◌, inl, inr, some_inj, get_elem?, Option-cases,
}
use homeserver_os.Base.Int.{pos, minus_one}
use homeserver_os.Base.Text.{text, copy_text, text-copy_text, length-copy_text}
use homeserver_os.Base.Table.{find, update_first, update_at}
use homeserver_os.Base.Table.Ids.{has_id, find-map}
use homeserver_os.Base.Table.Slots.{
  All-get_elem?, All-update_at, length-update_at, get_elem?-update_at, get_elem?-some, All-find,
}
use homeserver_os.Base.Table.Updates.{
  update_first-Updated, update_first-some, update_first_unfit, take-update_all,
}
use homeserver_os.Base.Table.Valid.{
  IsTable-update_first, IsTable-update_all, find_updated_self, find_updated_ne,
}
use homeserver_os.Vm.{
  Vms, Vm, Disk, vm_id, get, is_running, answer, add_disk_to, add_disk, sample, update_stats,
}
use homeserver_os.Vm.Create.{live, IsSlot, IsValid, HasPath, get-eq-find}
use mathlib.Core.Option
use mathlib.Core.Path.{subst}
use native.Mathlib.Decide.{dec_lt}

-- The parameters of one call of `vm_add_disk`.
module _ (path : List ℕ) (size_gb is_boot : ℕ) where
  abbrev attach : Vm → Option Vm
  attach = add_disk_to path size_gb is_boot

  attach-id : (v w : Vm) → attach v ≡ some w → vm_id w ≡ vm_id v
  unfolding add_disk_to
  attach-id v w e = ground arith

  -- The machine `w` is `v` with one more disk, which has the parameters of the call.
  pub record HasMore (v w : Vm) : Type 0 where
    pub disk : Disk
    pub stored : get_elem? w.disks v.disk_count ≡ some disk
    pub more : w.disk_count ≡ v.disk_count + 1
    pub at_path : text disk.path ≡ take 255 (text path)
    pub sized : disk.size_gb ≡ size_gb
    pub boots : disk.is_boot_disk ≡ is_boot
    pub same_state : w.state ≡ v.state
    pub same_name : w.name ≡ v.name

  store : Disk → Disk
  store disk = record {
    path = copy_text 255 path disk.path;
    size_gb = size_gb;
    is_boot_disk = is_boot;
  }

  attached : Vm → Vm
  unfolding store
  attached v = record v {
    disks = update_at v.disk_count store v.disks;
    disk_count = v.disk_count + 1;
  }

  attach-attached : (v : Vm) → v.disk_count < 8 → attach v ≡ some (attached v)
  unfolding add_disk_to attached
  attach-attached v h = let room : leb 8 v.disk_count ≡ false = ground arith in rw room

  attach-full : (v : Vm) → 8 ≤ v.disk_count → attach v ≡ none
  unfolding add_disk_to
  attach-full v h = let full : leb 8 v.disk_count ≡ true = ground arith in rw full

  attached-HasMore : (v : Vm) → IsSlot v → v.disk_count < 8 → HasMore v (attached v)
  unfolding attached
  attached-HasMore v h room =
      let (d, e) = get_elem?-some v.disk_count v.disks (omega (arith, h.disks_size)) in
      record {
        disk = store d;
        stored = get_elem?-update_at v.disk_count store v.disks e;
        more = refl;
        at_path =
            text-copy_text 255 path d.path
              (omega (arith, All-get_elem? HasPath v.disk_count v.disks h.paths e));
        sized = refl;
        boots = refl;
        same_state = refl;
        same_name = refl;
      }

  store-HasPath : (d : Disk) → HasPath d → HasPath (store d)
  unfolding store
  store-HasPath d h = length-copy_text 255 path d.path ∙ h

  attached-IsSlot : (v : Vm) → IsSlot v → v.disk_count < 8 → IsSlot (attached v)
  unfolding attached
  attached-IsSlot v h room = record {
    arrays = record {
      name_size = h.name_size;
      disks_size = length-update_at v.disk_count store v.disks ∙ h.disks_size;
      paths = All-update_at HasPath v.disk_count store store-HasPath v.disks h.paths;
      disks_fit = omega arith;
    };
    not_starting = h.not_starting;
    not_stopping = h.not_stopping;
  }

  attach-IsSlot : (v w : Vm) → IsSlot v → attach v ≡ some w → IsSlot w
  attach-IsSlot v w h e = elim (dec_lt v.disk_count 8) [
    | yes room ↦
        subst IsSlot (some_inj (sym (attach-attached v room) ∙ e)) (attached-IsSlot v h room)
    | no full ↦ absurd (cc (e, attach-full v (omega arith)))
  ]

  -- What a successful `vm_add_disk` leaves.
  pub record Attached (id : ℕ) (v : Vm) (s t : Vms) : Type 0 where
    pub vm : Vm
    pub found : get id t ≡ some vm
    pub has_more : HasMore v vm
    pub others : (j : ℕ) → j ≢ id → get j t ≡ get j s
    pub same_count : t.count ≡ s.count
    pub valid : IsValid t

  module _ (id : ℕ) (s : Vms) (valid : IsValid s) (v : Vm) (found : get id s ≡ some v) where
    here : find (has_id vm_id id) (live s) ≡ some v
    here = sym (get-eq-find id s) ∙ found

    -- A machine with fewer than 8 disks gets the disk behind those that it has, and 0 is returned.
    pub add_disk-Attached :
        v.disk_count < 8
        → (t : Vms) × (add_disk id path size_gb is_boot s ≡ (pos 0, t)) × Attached id v s t
    unfolding add_disk answer
    add_disk-Attached room =
        let slot = All-find IsSlot (has_id vm_id id) s.count s.vms valid.slots here in
        let (vms, made) =
          update_first-some (has_id vm_id id) attach s.count s.vms here (attach-attached v room) in
        let u = update_first-Updated (has_id vm_id id) attach s.count s.vms made in
        let t : Vms = record s { vms = vms } in
        let old : u.old ≡ v = some_inj (sym u.found ∙ here) in
        let new : u.new ≡ attached v =
          some_inj (sym (rw old at u.passed) ∙ attach-attached v room) in
        (
          t,
          rw made,
          record {
            vm = attached v;
            found = rw (get-eq-find id t) (
                find_updated_self vm_id IsSlot valid id attach attach-id made
                ∙ ap (λ w. some w) new);
            has_more = attached-HasMore v slot room;
            others = λ j ne.
                rw (get-eq-find j t, get-eq-find j s)
                  (find_updated_ne vm_id IsSlot valid id j attach attach-id ne made);
            same_count = refl;
            valid = IsTable-update_first vm_id IsSlot valid id attach attach-id attach-IsSlot made;
          },
        )

    -- A machine with 8 disks is refused a ninth: -1, and nothing changes.
    pub add_disk-full : 8 ≤ v.disk_count → add_disk id path size_gb is_boot s ≡ (minus_one, s)
    unfolding add_disk answer
    add_disk-full full =
        rw (update_first_unfit (has_id vm_id id) attach s.count s.vms here (attach-full v full))

  pub add_disk-IsValid :
      (id : ℕ) (s : Vms) → IsValid s → IsValid (add_disk id path size_gb is_boot s).1
  unfolding add_disk answer
  add_disk-IsValid id s v =
      elim (Option-cases (update_first (has_id vm_id id) attach s.count s.vms)) [
        | inl e ↦ rw (e, answer) v
        | inr (vms, e) ↦
            rw (e, answer) (IsTable-update_first vm_id IsSlot v id attach attach-id attach-IsSlot e)
      ]

-- The change that `vm_update_stats` makes to a machine under any id.
abbrev pub sampled : ℕ → Vm → Vm
sampled id v = if has_id vm_id id v && is_running v then sample id v else v

sampled-id : (id : ℕ) (v : Vm) → vm_id (sampled id v) ≡ vm_id v
unfolding sample
sampled-id id v = ground arith

sample-IsSlot : (id : ℕ) (v : Vm) → IsSlot v → IsSlot (sample id v)
unfolding sample
sample-IsSlot id v h = record {
  arrays = record {
    name_size = h.name_size;
    disks_size = h.disks_size;
    paths = h.paths;
    disks_fit = h.disks_fit;
  };
  not_starting = h.not_starting;
  not_stopping = h.not_stopping;
}

pub update_stats-IsValid : (id : ℕ) (s : Vms) → IsValid s → IsValid (update_stats id s)
unfolding update_stats
update_stats-IsValid id s v =
    IsTable-update_all vm_id IsSlot v (λ w. has_id vm_id id w && is_running w) (sample id)
      (sampled-id id) (sample-IsSlot id)

-- `vm_update_stats` samples the machine under the id if it runs, and no other.
pub get-update_stats :
    (id j : ℕ) (s : Vms) → get j (update_stats id s) ≡ Option.map (sampled id) (get j s)
unfolding update_stats
get-update_stats id j s =
    rw
      (
        get-eq-find j (update_stats id s),
        get-eq-find j s,
        take-update_all (λ w. has_id vm_id id w && is_running w) (sample id) s.count s.vms,
      )
      (find-map vm_id (sampled id) (sampled-id id) j (live s))

le_scaled : (m a b : ℕ) → a ≤ b → m * a ≤ m * b
le_scaled m a b h = grind arith

-- A sample is in range: the processor between 20 and 59 per cent, and, for a machine whose memory
-- is small enough for 32-bit arithmetic, between 50 and 79 per cent of the memory, rounded down.
pub sample_range :
    (id : ℕ) (v : Vm)
    → v.size_mb * 79 < 2 ^ 32
    → (20 ≤ (sample id v).cpu_usage)
      × ((sample id v).cpu_usage < 60)
      × (v.size_mb * 50 / 100 ≤ (sample id v).memory_usage)
      × ((sample id v).memory_usage ≤ v.size_mb * 79 / 100)
unfolding sample
sample_range id v h =
    let below : v.size_mb * (id % 30) ≤ v.size_mb * 29 =
      le_scaled v.size_mb (id % 30) 29 (omega arith) in
    (omega arith, omega arith, omega arith, omega arith)
