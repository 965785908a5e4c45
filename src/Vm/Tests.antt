-- ===== src/Vm/Tests.antt =====
-- Runs of virtualization/vms/vm.c on small inputs.
use homeserver_os.Base.{◌≡◌, refl, [], ◌∷◌, ◌++◌, some, arith, replicate}
use homeserver_os.Base.Int.{pos}
use homeserver_os.Base.Text.{codes}
use homeserver_os.Base.Table.{update_first, find_first, write_at}
use homeserver_os.Base.Table.Slots.{All-replicate}
use homeserver_os.Vm.{
  Vms, Vm, Disk, stopped, running, bios, uefi, create, delete, get, mac, init, start_vm,
  start as vm_start, answer, fill_vm,
}
use homeserver_os.Vm.Create.{IsValid, IsSlot, HasArrays, HasPath}
use homeserver_os.Vm.Control.{start, perform, Moved, perform-Moved}
use homeserver_os.Vm.Delete.{Deleted, delete-Deleted}
use homeserver_os.Vm.Reach.{HasStorage, Reach, here, next, created, IsSettled, Reach-IsSettled}

abbrev no_disk : Disk
no_disk = record { path = replicate 256 0; size_gb = 0; is_boot_disk = 0 }

abbrev blank : Vm
blank = record {
  id = 0;
  name = replicate 64 0;
  state = stopped;
  firmware = bios;
  cores = 0;
  threads_per_core = 0;
  size_mb = 0;
  ballooning_enabled = 0;
  disks = replicate 8 no_disk;
  disk_count = 0;
  network = record { bridge = replicate 32 0; mac_address = replicate 18 0; enabled = 0 };
  created_time = 0;
  started_time = 0;
  cpu_usage = 0;
  memory_usage = 0;
  uptime = 0;
}

blank-HasArrays : HasArrays blank
blank-HasArrays = record {
  name_size = refl;
  disks_size = refl;
  paths = All-replicate HasPath 8 no_disk refl;
  disks_fit = omega arith;
}

-- The memory as the program is loaded.
abbrev loaded : Vms
loaded = record { vms = replicate 32 blank; count = 0; next_id = 1; max = pos 5 }

loaded-HasStorage : HasStorage loaded
loaded-HasStorage = record {
  storage = refl;
  buffers = All-replicate HasArrays 32 blank blank-HasArrays;
}

abbrev builder : Vm
builder = record blank { id = 1; size_mb = 2048; cores = 2 }

abbrev one : Vms
one = record loaded { vms = builder ∷ replicate 31 blank; count = 1; next_id = 2 }

one-IsValid : IsValid one
one-IsValid = record {
  storage = refl;
  within = omega arith;
  ids = omega arith;
  slots = (
    record { arrays = blank_arrays; not_starting = λ e. cc; not_stopping = λ e. cc },
    All-replicate IsSlot 31 blank
        (record { arrays = blank-HasArrays; not_starting = λ e. cc; not_stopping = λ e. cc }),
  );
  small = omega arith;
}
  where
    blank_arrays : HasArrays builder
    blank_arrays = record {
      name_size = refl;
      disks_size = refl;
      paths = All-replicate HasPath 8 no_disk refl;
      disks_fit = omega arith;
    }

found_one : get 1 one ≡ some builder
unfolding get find_first
found_one = refl

mac_of_42 : mac 42 ≡ codes "52:54:00:04:20:01" ++ (0 ∷ [])
unfolding mac
mac_of_42 = refl

started : (vm_start 1 one).0 ≡ pos 0
unfolding vm_start answer update_first start_vm
started = refl

perform-Moved_example :
    (t : Vms) × (perform start 1 one ≡ (pos 0, t)) × Moved start 1 builder running one t
perform-Moved_example = perform-Moved start 1 one one-IsValid builder running found_one refl

delete-Deleted_example : (t : Vms) × (delete 1 one ≡ (pos 0, t)) × Deleted 1 one t
delete-Deleted_example = delete-Deleted 1 one one-IsValid builder found_one

-- A machine as it comes out of `vm_create`.
abbrev created_vm : Vm
created_vm = fill_vm 1 (codes "web") uefi 2 512 (record blank { state = stopped; id = 0 })

history : (t : Vms) × Reach (init loaded) t × (get 1 t ≡ some created_vm)
unfolding init create get find_first write_at fill_vm
history = (
  record (init loaded) { vms = created_vm ∷ replicate 31 blank; count = 1; next_id = 2 },
  next here (created (codes "web") uefi 2 512 1 (omega arith) refl),
  refl,
)

Reach-IsSettled_example : IsSettled created_vm
Reach-IsSettled_example =
    Reach-IsSettled loaded history.0 1 created_vm loaded-HasStorage history.1 history.2
