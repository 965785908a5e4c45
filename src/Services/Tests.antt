-- ===== src/Services/Tests.antt =====
-- Runs of system/init/init.c, with functions that note their calls.
use homeserver_os.Base.{ℕ, ◌≡◌, refl, List, [], ◌∷◌}
use homeserver_os.Services.{
  Service, loaded_services, init_system, get_enabled_services_count, get_initialized_services_count,
}
use homeserver_os.Services.Start.{enabled_functions, run_all, SameServices, init_system-run_all}

abbrev loaded : List (Service (List ℕ))
unfolding loaded_services
loaded = loaded_services (λ s. 1 ∷ s) (λ s. 2 ∷ s) (λ s. 3 ∷ s) (λ s. 4 ∷ s) (λ s. 5 ∷ s)

init_system-run_all_example :
    ((init_system loaded []).1 ≡ run_all (enabled_functions loaded) [])
    × SameServices loaded (init_system loaded []).0
    × (get_initialized_services_count (init_system loaded []).0 ≡ get_enabled_services_count loaded)
unfolding loaded_services
init_system-run_all_example =
    init_system-run_all loaded [] (refl, (refl, (refl, (refl, (refl, tt)))))
