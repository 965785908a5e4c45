-- ===== src/Vm.antt =====
-- virtualization/vms/vm.c, the virtual machine manager. The file's static variables are the fields
-- of `Vms`; a function takes them and returns them behind its result.
pub mod Create
pub mod Control
pub mod Delete
pub mod Stats
pub mod Reach
mod Tests
use homeserver_os.Base.{
  ℕ, suc, ◌+◌, ◌-◌, ◌*◌, ◌/◌, ◌%◌, ◌^◌, Bool, true, false, ◌&&◌, ◌||◌, not, List, [], ◌∷◌, ◌++◌,
  map, Option, none, some, ◌==◌, leb, if◌then◌else◌, ◌>>=◌, replicate, get_elem?,
}
use homeserver_os.Base.Int.{ℤ, pos, minus_one, min_int, rounds, at_least}
use homeserver_os.Base.Text.{codes, copy_text}
use homeserver_os.Base.Table.{
  find_index, find_first, update_first, update_all, count_if, write_at, update_at, shift_down,
  copy_out,
}
use homeserver_os.Base.Table.Ids.{has_id}
use mathlib.Core.Option

-- MAX_VMS
abbrev pub max_vms : ℕ
max_vms = 32

-- `vm_state_t`
pub data VmState : Type 0 where
  stopped starting running paused stopping suspended : VmState

-- `vm_firmware_t`
pub data Firmware : Type 0 where
  bios uefi : Firmware

-- The values that C gives the states, which it compares.
abbrev pub state_value : VmState → ℕ
state_value stopped = 0
state_value starting = 1
state_value running = 2
state_value paused = 3
state_value stopping = 4
state_value suspended = 5

infix 50 ◌is◌
abbrev pub ◌is◌ : VmState → VmState → Bool
a is b = state_value a == state_value b

-- `vm_disk_t`
pub record Disk : Type 0 where
  pub path : List ℕ  -- char[256]
  pub size_gb : ℕ  -- uint32_t
  pub is_boot_disk : ℕ  -- int

-- `vm_network_t`
pub record Network : Type 0 where
  pub bridge : List ℕ  -- char[32]
  pub mac_address : List ℕ  -- char[18]
  pub enabled : ℕ  -- int

-- `vm_t`, with `vm_cpu_config_t` and `vm_memory_config_t` spelled out
pub record Vm : Type 0 where
  pub id : ℕ  -- uint32_t
  pub name : List ℕ  -- char[64]
  pub state : VmState
  pub firmware : Firmware
  pub cores : ℕ  -- uint32_t
  pub threads_per_core : ℕ  -- uint32_t
  pub size_mb : ℕ  -- uint32_t
  pub ballooning_enabled : ℕ  -- int
  pub disks : List Disk  -- [8]
  pub disk_count : ℕ
  pub network : Network
  pub created_time : ℕ  -- uint64_t
  pub started_time : ℕ  -- uint64_t
  pub cpu_usage : ℕ  -- uint32_t
  pub memory_usage : ℕ  -- uint32_t
  pub uptime : ℕ  -- uint32_t

abbrev pub vm_id : Vm → ℕ
vm_id v = v.id

-- The static variables of the file.
pub record Vms : Type 0 where
  pub vms : List Vm  -- [MAX_VMS]
  pub count : ℕ
  pub next_id : ℕ  -- uint32_t
  pub max : ℤ  -- int

-- `x++` on a uint32_t
abbrev pub inc : ℕ → ℕ
inc x = (x + 1) % 2 ^ 32

-- `vm_init`. `max_vms` is left as it is.
unfoldable pub init : Vms → Vms
init s = record s {
  vms = map {A = Vm} (λ v. record v { state = stopped; id = 0 }) s.vms;
  count = 0;
  next_id = 1;
}

-- The last digit of a number, as a character.
abbrev pub digit : ℕ → ℕ
digit n = n % 10 + b'0'

-- The address that `vm_create` generates from the id.
unfoldable pub mac : ℕ → List ℕ
mac id =
    codes "52:54:00:"
    ++ (digit (id / 100) ∷ digit (id / 10) ∷ b':' ∷ digit id ∷ b'0' ∷ b':' ∷ b'0' ∷ b'1' ∷ 0 ∷ [])

-- What `vm_create` stores in the slot that `vm` points to.
unfoldable pub fill_vm : ℕ → List ℕ → Firmware → ℕ → ℕ → Vm → Vm
fill_vm id name firmware cpu_cores memory_mb vm = record vm {
  id = id;
  state = stopped;
  firmware = firmware;
  created_time = 0;
  started_time = 0;
  cpu_usage = 0;
  memory_usage = 0;
  uptime = 0;
  disk_count = 0;
  name = copy_text 63 name vm.name;
  cores = cpu_cores;
  threads_per_core = 1;
  size_mb = memory_mb;
  ballooning_enabled = 1;
  network = record { bridge = codes "br0" ++ replicate 29 0; mac_address = mac id; enabled = 1 };
}

-- `vm_create`. `none` is a write past the end of `vms`.
unfoldable pub create : List ℕ → Firmware → (cpu_cores memory_mb : ℕ) → Vms → Option (ℕ × Vms)
create name firmware cpu_cores memory_mb s =
    if at_least s.count s.max
    then some (0, s)
    else Option.map
        (λ vms. (s.next_id, record s { vms = vms; count = s.count + 1; next_id = inc s.next_id }))
        (write_at s.count (fill_vm s.next_id name firmware cpu_cores memory_mb) s.vms)

-- The two ways out of a function that looks for one machine: -1 and no change, or 0 and the new array.
unfoldable pub answer : Vms → Option (List Vm) → ℤ × Vms
answer s none = (minus_one, s)
answer s (some vms) = (pos 0, record s { vms = vms })

-- The body of the loop of `vm_add_disk`.
unfoldable pub add_disk_to : List ℕ → ℕ → ℕ → Vm → Option Vm
add_disk_to path size_gb is_boot vm =
    if leb 8 vm.disk_count
    then none
    else some (record vm {
      disks =
          update_at vm.disk_count
            (λ disk. record {
              path = copy_text 255 path disk.path;
              size_gb = size_gb;
              is_boot_disk = is_boot;
            })
            vm.disks;
      disk_count = vm.disk_count + 1;
    })

-- `vm_add_disk`
unfoldable pub add_disk : ℕ → List ℕ → ℕ → ℕ → Vms → ℤ × Vms
add_disk id path size_gb is_boot s =
    answer s (update_first (has_id vm_id id) (add_disk_to path size_gb is_boot) s.count s.vms)

-- The bodies of the loops of `vm_start`, `vm_stop`, `vm_pause`, `vm_resume` and `vm_suspend`.
unfoldable pub start_vm : Vm → Option Vm
start_vm vm =
    if not (vm.state is stopped) && not (vm.state is suspended)
    then none
    else some (
        let launched = record vm { state = starting; started_time = 0 } in
        record launched { state = running; uptime = 0 })

unfoldable pub stop_vm : Vm → Option Vm
stop_vm vm =
    if not (vm.state is running) && not (vm.state is paused)
    then none
    else some (let halting = record vm { state = stopping } in record halting { state = stopped })

unfoldable pub pause_vm : Vm → Option Vm
pause_vm vm = if not (vm.state is running) then none else some (record vm { state = paused })

unfoldable pub resume_vm : Vm → Option Vm
resume_vm vm = if not (vm.state is paused) then none else some (record vm { state = running })

unfoldable pub suspend_vm : Vm → Option Vm
suspend_vm vm = if not (vm.state is running) then none else some (record vm { state = suspended })

-- `vm_start`
unfoldable pub start : ℕ → Vms → ℤ × Vms
start id s = answer s (update_first (has_id vm_id id) start_vm s.count s.vms)

-- `vm_stop`
unfoldable pub stop : ℕ → Vms → ℤ × Vms
stop id s = answer s (update_first (has_id vm_id id) stop_vm s.count s.vms)

-- `vm_pause`
unfoldable pub pause : ℕ → Vms → ℤ × Vms
pause id s = answer s (update_first (has_id vm_id id) pause_vm s.count s.vms)

-- `vm_resume`
unfoldable pub resume : ℕ → Vms → ℤ × Vms
resume id s = answer s (update_first (has_id vm_id id) resume_vm s.count s.vms)

-- `vm_suspend`
unfoldable pub suspend : ℕ → Vms → ℤ × Vms
suspend id s = answer s (update_first (has_id vm_id id) suspend_vm s.count s.vms)

-- `vms[i].state == VM_RUNNING`
abbrev pub is_running : Vm → Bool
is_running vm = vm.state is running

abbrev pub is_running_at : ℕ → Vms → Bool
is_running_at i s = elim (get_elem? s.vms i) [ some vm ↦ is_running vm | none ↦ false ]

-- `vm_delete`: the machine at `i` is stopped if it runs, then the later ones move down.
unfoldable pub delete : ℕ → Vms → ℤ × Vms
delete id s = elim (find_index (has_id vm_id id) s.count s.vms) [
  | none ↦ (minus_one, s)
  | some i ↦
      let t = if is_running_at i s then (stop id s).1 else s in
      (pos 0, record t { vms = shift_down (t.count - 1 - i) i t.vms; count = t.count - 1 })
]

-- `vm_get`: what the pointer points to, or NULL.
unfoldable pub get : ℕ → Vms → Option Vm
get id s = find_first (has_id vm_id id) s.count s.vms

-- `vm_get_list`: the result, and the caller's buffer.
unfoldable pub get_list : List Vm → ℤ → Vms → ℤ × List Vm
get_list buffer max_count s =
    let n = min_int s.count max_count in (n, copy_out (rounds n) s.vms buffer)

-- `vm_get_count`
unfoldable pub get_count : Vms → ℕ
get_count s = s.count

-- `vm_get_running_count`
unfoldable pub get_running_count : Vms → ℕ
get_running_count s = count_if is_running s.count s.vms

-- The body of the loop of `vm_update_stats`, in uint32_t arithmetic.
unfoldable pub sample : ℕ → Vm → Vm
sample id vm = record vm {
  cpu_usage = 20 + id % 40;
  memory_usage = vm.size_mb * (50 + id % 30) % 2 ^ 32 / 100;
  uptime = inc vm.uptime;
}

-- `vm_update_stats`
unfoldable pub update_stats : ℕ → Vms → Vms
update_stats id s = record s {
  vms = update_all (λ vm. has_id vm_id id vm && is_running vm) (sample id) s.count s.vms;
}

-- `vm_set_max`
unfoldable pub set_max : ℤ → Vms → Vms
set_max max s = record s { max = max }

-- `vm_get_max`
unfoldable pub get_max : Vms → ℤ
get_max s = s.max
