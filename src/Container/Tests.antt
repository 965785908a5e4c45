-- ===== src/Container/Tests.antt =====
-- Runs of virtualization/containers/container.c on small inputs.
use homeserver_os.Base.{◌≡◌, refl, ◌∷◌, none, some, arith, replicate}
use homeserver_os.Base.Int.{pos}
use homeserver_os.Base.Text.{codes}
use homeserver_os.Base.Table.{update_first, find_first, write_at, count_if}
use homeserver_os.Base.Table.Slots.{All-replicate}
use homeserver_os.Container.{
  Containers, Container, stopped, running, create, get, init, start_one, start as container_start,
  answer, fill_container, get_running_count, default_limits,
}
use homeserver_os.Container.Create.{IsValid, IsSlot}
use homeserver_os.Container.Control.{start, perform, Switched, perform-Switched}
use homeserver_os.Container.Reach.{
  HasArrays, HasStorage, Reach, here, next, created, IsAtRest, Reach-IsAtRest,
}

abbrev blank : Container
blank = record {
  id = 0;
  name = replicate 64 0;
  image = replicate 128 0;
  state = stopped;
  limits = record { cpu_limit = 0; memory_limit = 0; disk_limit = 0; network_limit = 0 };
  pid = 0;
  created_time = 0;
  started_time = 0;
  cpu_usage = 0;
  memory_usage = 0;
  network_rx = 0;
  network_tx = 0;
  exposed_ports = replicate 16 0;
  port_count = 0;
}

-- The memory as the program is loaded.
abbrev loaded : Containers
loaded = record { containers = replicate 64 blank; count = 0; next_id = 1; max = pos 10 }

loaded-HasStorage : HasStorage loaded
loaded-HasStorage = record {
  storage = refl;
  buffers =
      All-replicate HasArrays 64 blank (record {
        name_size = refl;
        image_size = refl;
        ports_size = refl;
        ports_fit = omega arith;
      });
}

abbrev web : Container
web = record blank { id = 1; limits = default_limits }

abbrev one : Containers
one = record loaded { containers = web ∷ replicate 63 blank; count = 1; next_id = 2 }

blank-IsSlot : IsSlot blank
blank-IsSlot = record {
  name_size = refl;
  image_size = refl;
  ports_size = refl;
  ports_fit = omega arith;
  not_starting = λ e. cc;
  not_stopping = λ e. cc;
}

web-IsSlot : IsSlot web
web-IsSlot = record {
  name_size = refl;
  image_size = refl;
  ports_size = refl;
  ports_fit = omega arith;
  not_starting = λ e. cc;
  not_stopping = λ e. cc;
}

one-IsValid : IsValid one
one-IsValid = record {
  storage = refl;
  within = omega arith;
  ids = omega arith;
  slots = (web-IsSlot, All-replicate IsSlot 63 blank blank-IsSlot);
  small = omega arith;
}

found_one : get 1 one ≡ some web
unfolding get find_first
found_one = refl

running_count : get_running_count (container_start 1 one).1 ≡ 1
unfolding container_start answer update_first start_one get_running_count count_if
running_count = refl

perform-Switched_example :
    (t : Containers) × (perform start 1 one ≡ (pos 0, t)) × Switched start 1 web running one t
perform-Switched_example = perform-Switched start 1 one one-IsValid web running found_one refl

-- A container as it comes out of `container_create`.
abbrev created_one : Container
created_one =
    fill_container 1 (codes "db") (codes "postgres:16") none
      (record blank { state = stopped; id = 0 })

history : (t : Containers) × Reach (init loaded) t × (get 1 t ≡ some created_one)
unfolding init create get find_first write_at fill_container
history = (
  record (init loaded) { containers = created_one ∷ replicate 63 blank; count = 1; next_id = 2 },
  next here (created (codes "db") (codes "postgres:16") none 1 (omega arith) refl),
  refl,
)

Reach-IsAtRest_example : IsAtRest created_one
Reach-IsAtRest_example =
    Reach-IsAtRest loaded history.0 1 created_one loaded-HasStorage history.1 history.2
