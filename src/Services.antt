-- ===== src/Services.antt =====
-- system/init/init.c: the services that are started with the system. What the five functions of the
-- other parts do when they are called is a parameter: a function on the state `S` of those parts. The
-- list ends before the entry with the name NULL.
pub mod Start
mod Tests
use homeserver_os.Base.{
  ℕ, zero, suc, ◌+◌, Bool, true, false, not, List, [], ◌∷◌, ◌==◌, ◌&&◌, if◌then◌else◌,
}
use homeserver_os.Base.Int.{ℤ, pos, minus_one}
use homeserver_os.Base.Text.{codes}

-- `service_t`
pub record Service (S : Type 0) : Type 0 where
  pub name : List ℕ  -- const char *
  pub init_func : S → S
  pub enabled : ℕ  -- int
  pub initialized : ℕ  -- int

-- `for (j = 0; a[j] && b[j]; j++) if (a[j] != b[j]) { match = 0; break; }`
unfoldable pub match_names : List ℕ → List ℕ → Bool
match_names [] b = true
match_names (x ∷ a) [] = true
match_names (x ∷ a) (y ∷ b) =
    if x == 0 then true else if y == 0 then true else (x == y) && match_names a b

-- The test that a service is enabled, or initialized.
abbrev pub is_set : ℕ → Bool
is_set n = not (n == 0)

module _ {S : Type 0} where
  -- The array as the program is loaded.
  unfoldable pub loaded_services :
      (S → S) → (S → S) → (S → S) → (S → S) → (S → S) → List (Service S)
  loaded_services memory_init scheduler_init fs_init storage_init network_init =
      record {
        name = codes "Memory Manager";
        init_func = memory_init;
        enabled = 1;
        initialized = 0;
      }
      ∷ record {
        name = codes "Task Scheduler";
        init_func = scheduler_init;
        enabled = 1;
        initialized = 0;
      }
      ∷ record { name = codes "Filesystem"; init_func = fs_init; enabled = 1; initialized = 0 }
      ∷ record {
        name = codes "Storage Driver";
        init_func = storage_init;
        enabled = 1;
        initialized = 0;
      }
      ∷ record {
        name = codes "Network Stack";
        init_func = network_init;
        enabled = 1;
        initialized = 0;
      }
      ∷ []

  -- `init_system`: the services, and the state of the other parts.
  unfoldable pub init_system : List (Service S) → S → List (Service S) × S
  init_system [] s = ([], s)
  init_system (x ∷ xs) s =
      let (y, t) : Service S × S =
        if is_set x.enabled then (record x { initialized = 1 }, x.init_func s) else (x, s) in
      let (ys, u) = init_system xs t in (y ∷ ys, u)

  -- `get_service_status`
  unfoldable pub get_service_status : List ℕ → List (Service S) → ℤ
  get_service_status name [] = minus_one
  get_service_status name (x ∷ xs) =
      if match_names x.name name then pos x.initialized else get_service_status name xs

  -- The loop of `enable_service` and `disable_service`
  unfoldable pub set_enabled : ℕ → List ℕ → List (Service S) → List (Service S)
  set_enabled value name [] = []
  set_enabled value name (x ∷ xs) =
      if match_names x.name name
      then record x { enabled = value } ∷ xs
      else x ∷ set_enabled value name xs

  -- `enable_service`
  unfoldable pub enable_service : List ℕ → List (Service S) → List (Service S)
  enable_service name xs = set_enabled 1 name xs

  -- `disable_service`
  unfoldable pub disable_service : List ℕ → List (Service S) → List (Service S)
  disable_service name xs = set_enabled 0 name xs

  -- `get_enabled_services_count`
  unfoldable pub get_enabled_services_count : List (Service S) → ℕ
  get_enabled_services_count [] = 0
  get_enabled_services_count (x ∷ xs) =
      (if is_set x.enabled then 1 else 0) + get_enabled_services_count xs

  -- `get_initialized_services_count`
  unfoldable pub get_initialized_services_count : List (Service S) → ℕ
  get_initialized_services_count [] = 0
  get_initialized_services_count (x ∷ xs) =
      (if is_set x.initialized then 1 else 0) + get_initialized_services_count xs
