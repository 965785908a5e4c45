-- ===== src/Api/Tests.antt =====
-- Runs of web/api/api.c on small inputs.
use homeserver_os.Base.{◌≡◌, refl, [], ◌++◌, replicate}
use homeserver_os.Base.Text.{codes}
use homeserver_os.Base.Table.Slots.{All-replicate}
use homeserver_os.Api.{
  Api, Route, HttpRequest, get, init, handle_request, not_found, get_system_info,
}
use homeserver_os.Api.Dispatch.{answer_of}
use homeserver_os.Api.Routes.{IsCleared, endpoints, handle_request-init}

abbrev blank : Route
blank = record { method = get; path = replicate 256 0; handler = not_found }

-- The memory as the program is loaded.
abbrev loaded : Api
loaded = record { routes = replicate 64 blank; count = 0 }

loaded-IsCleared : IsCleared loaded
loaded-IsCleared = record {
  storage = refl;
  paths = All-replicate (λ (r : Route). r.path ≡ replicate 256 0) 64 blank refl;
}

abbrev ask_system : HttpRequest
ask_system = record {
  method = get;
  path = codes "/api/system" ++ replicate 245 0;
  body = [];
  body_length = 0;
}

handle_request-init_example :
    handle_request ask_system (init loaded) ≡ answer_of ask_system endpoints
handle_request-init_example = handle_request-init ask_system loaded loaded-IsCleared refl

-- The endpoint that the request names.
ask_system_info : answer_of ask_system endpoints ≡ get_system_info ask_system
ask_system_info = refl
