-- ===== src/Api.antt =====
-- web/api/api.c: the route table of the REST API and the dispatch of a request. A handler is a function
-- of the request; the texts of the responses are the source's.
pub mod Paths
pub mod Dispatch
pub mod Routes
mod Tests
use homeserver_os.Base.{
  ℕ, zero, suc, ◌+◌, ◌%◌, ◌^◌, Bool, true, false, not, List, [], ◌∷◌, Option, none, some, ◌==◌,
  ◌&&◌, leb, if◌then◌else◌,
}
use homeserver_os.Base.Text.{codes, copy_chars}
use homeserver_os.Base.Table.{update_at, find_first}

-- MAX_ROUTES and MAX_PATH_LENGTH
abbrev pub max_routes : ℕ
max_routes = 64

abbrev pub max_path_length : ℕ
max_path_length = 256

-- `http_method_t`
pub data HttpMethod : Type 0 where
  get post put delete : HttpMethod

-- The values that C gives the methods, which it compares.
abbrev pub method_value : HttpMethod → ℕ
method_value get = 0
method_value post = 1
method_value put = 2
method_value delete = 3

-- `http_response_t`
pub record HttpResponse : Type 0 where
  pub status_code : ℕ  -- int
  pub body : List ℕ  -- char *
  pub body_length : ℕ  -- uint32_t
  pub content_type : List ℕ  -- char *

-- `http_request_t`
pub record HttpRequest : Type 0 where
  pub method : HttpMethod
  pub path : List ℕ  -- char[MAX_PATH_LENGTH]
  pub body : List ℕ  -- char *
  pub body_length : ℕ  -- uint32_t

-- `route_handler_t`
abbrev pub RouteHandler : Type 0
RouteHandler = HttpRequest → HttpResponse

-- `route_t`
pub record Route : Type 0 where
  pub method : HttpMethod
  pub path : List ℕ  -- char[MAX_PATH_LENGTH]
  pub handler : RouteHandler

-- The static variables of the file.
pub record Api : Type 0 where
  pub routes : List Route  -- [MAX_ROUTES]
  pub count : ℕ  -- int

-- `for (char *p = res.body; *p; p++) res.body_length++;`
unfoldable pub count_bytes : ℕ → List ℕ → ℕ
count_bytes n [] = n
count_bytes n (c ∷ body) = if c == 0 then n else count_bytes ((n + 1) % 2 ^ 32) body

-- What all handlers do with their status and their body.
unfoldable pub respond : ℕ → List ℕ → HttpResponse
respond status body = record {
  status_code = status;
  content_type = codes "application/json";
  body = body;
  body_length = count_bytes 0 body;
}

unfoldable pub get_system_info : RouteHandler
get_system_info req =
    respond 200 (codes "{\"version\":\"0.1.0\",\"uptime\":3600,\"processes\":12,\"cpu_usage\":15}")

unfoldable pub get_memory_info : RouteHandler
get_memory_info req = respond 200 (codes "{\"total\":16777216,\"used\":4404019,\"free\":12373197}")

unfoldable pub get_storage_info : RouteHandler
get_storage_info req = respond 200 (codes "{\"total\":1048576,\"used\":350208,\"free\":698368}")

unfoldable pub get_network_info : RouteHandler
get_network_info req = respond 200 (
    codes
      "{\"ip\":\"192.168.1.100\",\"rx_bytes\":131072000,\"tx_bytes\":93323264,\"connections\":24}")

unfoldable pub get_services : RouteHandler
get_services req = respond 200 (
    codes
      "{\"services\":[{\"name\":\"web\",\"status\":\"running\"},{\"name\":\"ssh\",\"status\":\"running\"},{\"name\":\"dns\",\"status\":\"running\"},{\"name\":\"ftp\",\"status\":\"stopped\"}]}")

unfoldable pub control_service : RouteHandler
control_service req = respond 200 (codes "{\"status\":\"success\",\"message\":\"Service updated\"}")

unfoldable pub get_containers : RouteHandler
get_containers req = respond 200 (
    codes
      "{\"containers\":[{\"id\":1,\"name\":\"web-app\",\"status\":\"running\"},{\"id\":2,\"name\":\"database\",\"status\":\"running\"},{\"id\":3,\"name\":\"cache\",\"status\":\"running\"}],\"total\":3,\"max\":10}")

unfoldable pub get_vms : RouteHandler
get_vms req = respond 200 (
    codes
      "{\"vms\":[{\"id\":1,\"name\":\"test-vm\",\"status\":\"running\"}],\"total\":1,\"max\":5}")

unfoldable pub not_found : RouteHandler
not_found req = respond 404 (codes "{\"error\":\"Not found\"}")

-- What `api_register_route` stores in the entry.
unfoldable pub fill_route : HttpMethod → List ℕ → RouteHandler → Route → Route
fill_route method path handler r = record {
  method = method;
  path = copy_chars max_path_length path r.path;
  handler = handler;
}

-- `api_register_route`
unfoldable pub register_route : HttpMethod → List ℕ → RouteHandler → Api → Api
register_route method path handler s = if leb max_routes s.count then s else record s {
  routes = update_at s.count (fill_route method path handler) s.routes;
  count = s.count + 1;
}

-- `api_init`
unfoldable pub init : Api → Api
init s = register_route get (codes "/api/vms") get_vms (
    register_route get (codes "/api/containers") get_containers (
      register_route post (codes "/api/services") control_service (
        register_route get (codes "/api/services") get_services (
          register_route get (codes "/api/network") get_network_info (
            register_route get (codes "/api/storage") get_storage_info (
              register_route get (codes "/api/memory") get_memory_info (
                register_route get (codes "/api/system") get_system_info
                  (record s { count = 0 }))))))))

-- The loop over `j` of `api_handle_request`, with `n` rounds left.
unfoldable pub match_path : ℕ → List ℕ → List ℕ → Bool
match_path zero a b = true
match_path (suc n) [] b = false
match_path (suc n) (x ∷ a) [] = false
match_path (suc n) (x ∷ a) (y ∷ b) =
    if not (x == y) then false else if x == 0 then true else match_path n a b

-- The two tests of the loop over the routes
abbrev pub serves : HttpRequest → Route → Bool
serves req r =
    (method_value r.method == method_value req.method) && match_path max_path_length r.path req.path

-- The two ways out of that loop
abbrev pub handled : HttpRequest → Option Route → HttpResponse
handled req none = not_found req
handled req (some r) = r.handler req

-- `api_handle_request`
unfoldable pub handle_request : HttpRequest → Api → HttpResponse
handle_request req s = handled req (find_first (serves req) s.count s.routes)
