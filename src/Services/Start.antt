-- ===== src/Services/Start.antt =====
-- What `init_system` of system/init/init.c starts, and what disabling a service changes.
use homeserver_os.Base.{
  ℕ, ◌+◌, ◌≡◌, refl, ap, Bool, true, false, List, [], ◌∷◌, Bool-cases, inl, inr, if◌then◌else◌,
}
use homeserver_os.Base.Int.{pos, minus_one}
use homeserver_os.Base.Table.Slots.{All}
use homeserver_os.Services.{
  Service, match_names, is_set, init_system, get_service_status, set_enabled, disable_service,
  enable_service, get_enabled_services_count, get_initialized_services_count,
}

module _ {S : Type 0} where
  -- The functions of the services that are enabled, in the order of the list.
  abbrev pub enabled_functions : List (Service S) → List (S → S)
  enabled_functions [] = []
  enabled_functions (x ∷ xs) =
      if is_set x.enabled then x.init_func ∷ enabled_functions xs else enabled_functions xs

  abbrev pub run_all : List (S → S) → S → S
  run_all [] s = s
  run_all (f ∷ fs) s = run_all fs (f s)

  abbrev pub IsStopped : Service S → Type 0
  IsStopped x = x.initialized ≡ 0

  -- Whether a service answers to the name.
  abbrev pub is_known : List ℕ → List (Service S) → Bool
  is_known name [] = false
  is_known name (x ∷ xs) = if match_names x.name name then true else is_known name xs

  -- The services after the start: no name, function or test of being enabled has changed.
  abbrev pub SameServices : List (Service S) → List (Service S) → Type 0
  SameServices [] [] = Unit
  SameServices [] (y ∷ ys) = ⊥
  SameServices (x ∷ xs) [] = ⊥
  SameServices (x ∷ xs) (y ∷ ys) =
      (y.name ≡ x.name)
      × (y.enabled ≡ x.enabled)
      × (is_set y.initialized ≡ is_set x.enabled)
      × SameServices xs ys

  -- `init_system`, where no service was initialized: it calls the functions of the services that are
  -- enabled, each once and in the order of the list, and exactly those services count as
  -- initialized afterwards.
  pub init_system-run_all :
      (xs : List (Service S)) (s : S)
      → All IsStopped xs
      → ((init_system xs s).1 ≡ run_all (enabled_functions xs) s)
        × SameServices xs (init_system xs s).0
        × (get_initialized_services_count (init_system xs s).0 ≡ get_enabled_services_count xs)
  unfolding init_system get_initialized_services_count get_enabled_services_count
  init_system-run_all [] s h = (refl, tt, refl)
  init_system-run_all (x ∷ xs) s h = elim (Bool-cases (is_set x.enabled)) [
    | inl e ↦
        let (r, same, n) = init_system-run_all xs (x.init_func s) h.1 in
        rw e (r, (refl, refl, refl, same), ap (λ k. 1 + k) n)
    | inr e ↦
        let (r, same, n) = init_system-run_all xs s h.1 in
        rw (e, h.0) (r, (refl, refl, refl, same), ap (λ k. 0 + k) n)
  ]

  status_set :
      (value : ℕ) (name : List ℕ) (xs : List (Service S)) (s : S)
      → All IsStopped xs
      → get_service_status name (init_system (set_enabled value name xs) s).0
        ≡ (if is_known name xs then pos (if is_set value then 1 else 0) else minus_one)
  unfolding init_system get_service_status set_enabled
  status_set value name [] s h = refl
  status_set value name (x ∷ xs) s h = elim (Bool-cases (match_names x.name name)) [
    | inl e ↦ elim (Bool-cases (is_set value)) [
      | inl v ↦ rw (e, v, e) refl
      | inr v ↦ rw (e, v, e, h.0) refl
    ]
    | inr e ↦ elim (Bool-cases (is_set x.enabled)) [
      | inl v ↦ rw (e, v, e) (status_set value name xs (x.init_func s) h.1)
      | inr v ↦ rw (e, v, e) (status_set value name xs s h.1)
    ]
  ]

  -- Of services that were not initialized, the first one that answers to a name is initialized by
  -- `init_system` after `enable_service` of the name and not after `disable_service` of it, as
  -- `get_service_status` of the name says then; where none answers to it, the status is -1.
  pub status-init_system :
      (name : List ℕ) (xs : List (Service S)) (s : S)
      → All IsStopped xs
      → (get_service_status name (init_system (enable_service name xs) s).0
          ≡ (if is_known name xs then pos 1 else minus_one))
        × (get_service_status name (init_system (disable_service name xs) s).0
            ≡ (if is_known name xs then pos 0 else minus_one))
  unfolding enable_service disable_service
  status-init_system name xs s h = (status_set 1 name xs s h, status_set 0 name xs s h)
