-- ===== src/Container.antt =====
-- virtualization/containers/container.c, the container manager. The file's static variables are the
-- fields of `Containers`; a function takes them and returns them behind its result.
pub mod Create
pub mod Control
pub mod Delete
pub mod Ports
pub mod Reach
mod Tests
use homeserver_os.Base.{
  ℕ, suc, ◌+◌, ◌-◌, ◌*◌, ◌%◌, ◌^◌, Bool, true, false, ◌&&◌, not, List, map, Option, none, some,
  ◌==◌, leb, if◌then◌else◌, get_elem?,
}
use homeserver_os.Base.Int.{ℤ, pos, minus_one, min_int, rounds, at_least}
use homeserver_os.Base.Text.{copy_text}
use homeserver_os.Base.Table.{
  find_index, find_first, update_first, update_all, count_if, write_at, update_at, shift_down,
  copy_out,
}
use homeserver_os.Base.Table.Ids.{has_id}
use mathlib.Core.Option

-- MAX_CONTAINERS
abbrev pub max_containers : ℕ
max_containers = 64

-- `container_state_t`
pub data ContainerState : Type 0 where
  stopped starting running paused stopping : ContainerState

-- The values that C gives the states, which it compares.
abbrev pub state_value : ContainerState → ℕ
state_value stopped = 0
state_value starting = 1
state_value running = 2
state_value paused = 3
state_value stopping = 4

infix 50 ◌is◌
abbrev pub ◌is◌ : ContainerState → ContainerState → Bool
a is b = state_value a == state_value b

-- `resource_limits_t`, of uint32_t
pub record Limits : Type 0 where
  pub cpu_limit : ℕ
  pub memory_limit : ℕ
  pub disk_limit : ℕ
  pub network_limit : ℕ

-- `container_t`
pub record Container : Type 0 where
  pub id : ℕ  -- uint32_t
  pub name : List ℕ  -- char[64]
  pub image : List ℕ  -- char[128]
  pub state : ContainerState
  pub limits : Limits
  pub pid : ℕ  -- uint32_t
  pub created_time : ℕ  -- uint64_t
  pub started_time : ℕ  -- uint64_t
  pub cpu_usage : ℕ  -- uint32_t
  pub memory_usage : ℕ  -- uint32_t
  pub network_rx : ℕ  -- uint32_t
  pub network_tx : ℕ  -- uint32_t
  pub exposed_ports : List ℕ  -- uint16_t[16]
  pub port_count : ℕ

abbrev pub container_id : Container → ℕ
container_id c = c.id

-- The static variables of the file.
pub record Containers : Type 0 where
  pub containers : List Container  -- [MAX_CONTAINERS]
  pub count : ℕ
  pub next_id : ℕ  -- uint32_t
  pub max : ℤ  -- int

-- `x++` on a uint32_t
abbrev pub inc : ℕ → ℕ
inc x = (x + 1) % 2 ^ 32

-- `container_init`. `max_containers` is left as it is.
unfoldable pub init : Containers → Containers
init s = record s {
  containers = map {A = Container} (λ c. record c { state = stopped; id = 0 }) s.containers;
  count = 0;
  next_id = 1;
}

-- The limits of a container for which the caller passes NULL.
abbrev pub default_limits : Limits
default_limits = record {
  cpu_limit = 100;
  memory_limit = 512;
  disk_limit = 10240;
  network_limit = 10240;
}

abbrev pub limits_or : Limits → Option Limits → Limits
limits_or d none = d
limits_or d (some l) = l

-- What `container_create` stores in the slot that `container` points to.
unfoldable pub fill_container : ℕ → List ℕ → List ℕ → Option Limits → Container → Container
fill_container id name image limits container = record container {
  id = id;
  state = stopped;
  pid = 0;
  created_time = 0;
  started_time = 0;
  cpu_usage = 0;
  memory_usage = 0;
  network_rx = 0;
  network_tx = 0;
  port_count = 0;
  name = copy_text 63 name container.name;
  image = copy_text 127 image container.image;
  limits = limits_or default_limits limits;
}

-- `container_create`. `none` is a write past the end of `containers`.
unfoldable pub create : (name image : List ℕ) → Option Limits → Containers → Option (ℕ × Containers)
create name image limits s =
    if at_least s.count s.max
    then some (0, s)
    else Option.map
        (λ cs.
          (s.next_id, record s { containers = cs; count = s.count + 1; next_id = inc s.next_id }))
        (write_at s.count (fill_container s.next_id name image limits) s.containers)

-- The two ways out of a function that looks for one container: -1 and no change, or 0 and the new
-- array.
unfoldable pub answer : Containers → Option (List Container) → ℤ × Containers
answer s none = (minus_one, s)
answer s (some cs) = (pos 0, record s { containers = cs })

-- The bodies of the loops of `container_start`, which is given the id counter, `container_stop`,
-- `container_pause` and `container_resume`.
unfoldable pub start_one : ℕ → Container → Option Container
start_one next_id c =
    if not (c.state is stopped)
    then none
    else some (
        let launched = record c {
          state = starting;
          pid = next_id * 1000 % 2 ^ 32;
          started_time = 0;
        } in
        record launched { state = running })

unfoldable pub stop_one : Container → Option Container
stop_one c =
    if not (c.state is running)
    then none
    else some
        (let halting = record c { state = stopping } in record halting { state = stopped; pid = 0 })

unfoldable pub pause_one : Container → Option Container
pause_one c = if not (c.state is running) then none else some (record c { state = paused })

unfoldable pub resume_one : Container → Option Container
resume_one c = if not (c.state is paused) then none else some (record c { state = running })

-- `container_start`
unfoldable pub start : ℕ → Containers → ℤ × Containers
start id s =
    answer s (update_first (has_id container_id id) (start_one s.next_id) s.count s.containers)

-- `container_stop`
unfoldable pub stop : ℕ → Containers → ℤ × Containers
stop id s = answer s (update_first (has_id container_id id) stop_one s.count s.containers)

-- `container_pause`
unfoldable pub pause : ℕ → Containers → ℤ × Containers
pause id s = answer s (update_first (has_id container_id id) pause_one s.count s.containers)

-- `container_resume`
unfoldable pub resume : ℕ → Containers → ℤ × Containers
resume id s = answer s (update_first (has_id container_id id) resume_one s.count s.containers)

-- `containers[i].state == CONTAINER_RUNNING`
abbrev pub is_running : Container → Bool
is_running c = c.state is running

abbrev pub is_running_at : ℕ → Containers → Bool
is_running_at i s = elim (get_elem? s.containers i) [ some c ↦ is_running c | none ↦ false ]

-- `container_delete`: the container at `i` is stopped if it runs, then the later ones move down.
unfoldable pub delete : ℕ → Containers → ℤ × Containers
delete id s = elim (find_index (has_id container_id id) s.count s.containers) [
  | none ↦ (minus_one, s)
  | some i ↦
      let t = if is_running_at i s then (stop id s).1 else s in
      (
        pos 0,
        record t { containers = shift_down (t.count - 1 - i) i t.containers; count = t.count - 1 },
      )
]

-- The body of the loop of `container_expose_port`.
unfoldable pub expose : ℕ → Container → Option Container
expose port c =
    if leb 16 c.port_count
    then none
    else some (record c {
      exposed_ports = update_at c.port_count (λ old. port) c.exposed_ports;
      port_count = c.port_count + 1;
    })

-- `container_expose_port`
unfoldable pub expose_port : ℕ → ℕ → Containers → ℤ × Containers
expose_port id port s =
    answer s (update_first (has_id container_id id) (expose port) s.count s.containers)

-- `container_get`: what the pointer points to, or NULL.
unfoldable pub get : ℕ → Containers → Option Container
get id s = find_first (has_id container_id id) s.count s.containers

-- `container_get_list`: the result, and the caller's buffer.
unfoldable pub get_list : List Container → ℤ → Containers → ℤ × List Container
get_list buffer max_count s =
    let n = min_int s.count max_count in (n, copy_out (rounds n) s.containers buffer)

-- `container_get_count`
unfoldable pub get_count : Containers → ℕ
get_count s = s.count

-- `container_get_running_count`
unfoldable pub get_running_count : Containers → ℕ
get_running_count s = count_if is_running s.count s.containers

-- The body of the loop of `container_update_stats`, in uint32_t arithmetic.
unfoldable pub sample : ℕ → Container → Container
sample id c = record c {
  cpu_usage = 10 + id % 30;
  memory_usage = (128 + id * 32) % 2 ^ 32;
  network_rx = (c.network_rx + 1024) % 2 ^ 32;
  network_tx = (c.network_tx + 512) % 2 ^ 32;
}

-- `container_update_stats`
unfoldable pub update_stats : ℕ → Containers → Containers
update_stats id s = record s {
  containers =
      update_all (λ c. has_id container_id id c && is_running c) (sample id) s.count s.containers;
}

-- `container_set_max`
unfoldable pub set_max : ℤ → Containers → Containers
set_max max s = record s { max = max }

-- `container_get_max`
unfoldable pub get_max : Containers → ℤ
get_max s = s.max
