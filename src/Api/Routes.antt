-- ===== src/Api/Routes.antt =====
-- `api_register_route` and `api_init` of web/api/api.c.
use homeserver_os.Base.{
  ℕ, zero, suc, ◌+◌, ◌<◌, ◌≤◌, ◌≡◌, refl, sym, ap, ◌∙◌, false, List, [], ◌∷◌, ◌++◌, some, arith,
  leb, ◌%◌, ◌^◌, length, length-map, length-take, take, get_elem?, replicate, map,
}
use homeserver_os.Base.Text.{text, codes}
use homeserver_os.Base.Table.Slots.{
  All, All-get_elem?, All-update_at, length-update_at, get_elem?-some, get_elem?-update_at_ne,
  take-update_at,
}
use homeserver_os.Api.{
  Api, Route, RouteHandler, HttpMethod, HttpRequest, get, post, fill_route, register_route, init,
  respond, count_bytes, handle_request, get_system_info, get_memory_info, get_storage_info,
  get_network_info, get_services, control_service, get_containers, get_vms,
}
use homeserver_os.Api.Paths.{text-copy_chars, length-copy_chars}
use homeserver_os.Api.Dispatch.{
  Endpoint, endpoint_of, answer_of, HasPath, Holds, handle_request-answer_of,
}

take_all {ℓ} : {A : Type ℓ} (n : ℕ) (xs : List A) → length xs ≤ n → take n xs ≡ xs
take_all zero [] h = refl
take_all zero (x ∷ xs) h = absurd (omega arith)
take_all (suc n) [] h = refl
take_all (suc n) (x ∷ xs) h = ap (λ l. x ∷ l) (take_all n xs (omega arith))

map_append_one :
    (f : Route → Endpoint) (xs : List Route) (y : Route)
    → map f (xs ++ y ∷ []) ≡ map f xs ++ f y ∷ []
map_append_one f [] y = refl
map_append_one f (x ∷ xs) y = ap (λ l. f x ∷ l) (map_append_one f xs y)

module _ (method : HttpMethod) (path : List ℕ) (handler : RouteHandler) where
  fill_route-endpoint :
      (r : Route)
      → length (text path) ≤ 256
      → r.path ≡ replicate 256 0
      → endpoint_of (fill_route method path handler r)
        ≡ record { method = method; path = text path; handler = handler }
  unfolding fill_route
  fill_route-endpoint r short e =
      let copied = text-copy_chars 256 256 path in
      let whole = take_all 256 (text path) short in rw (e, copied, whole, whole) refl

  fill_route-HasPath : (r : Route) → HasPath r → HasPath (fill_route method path handler r)
  unfolding fill_route
  fill_route-HasPath r h = length-copy_chars 256 path r.path ∙ h

  -- A table with room takes the endpoint behind those that it holds.
  pub register_route-Holds :
      (s : Api) (es : List Endpoint)
      → Holds s es
      → s.count < 64
      → length (text path) ≤ 256
      → Holds
          (register_route method path handler s)
          (es ++ record { method = method; path = text path; handler = handler } ∷ [])
  unfolding register_route
  register_route-Holds s es h room short =
      let f = fill_route method path handler in
      let below : leb 64 s.count ≡ false = ground arith in
      let next : s.count + 1 ≡ suc s.count = omega arith in
      let (old, here) = get_elem?-some s.count s.routes (omega (arith, h.storage)) in
      let new = fill_route-endpoint old short (h.clear s.count old (omega arith) here) in
      rw below (record {
        storage = length-update_at s.count f s.routes ∙ h.storage;
        within = omega arith;
        paths = All-update_at HasPath s.count f fill_route-HasPath s.routes h.paths;
        live =
            rw (next, take-update_at s.count f s.routes here)
              (map_append_one endpoint_of (take s.count s.routes) (f old)
                ∙ (λ i. h.live i ++ new i ∷ []));
        clear = λ i r lt e.
            h.clear i r (omega arith)
              (sym (get_elem?-update_at_ne s.count i f s.routes (λ q. omega arith)) ∙ e);
      })

Holds-count : (s : Api) (es : List Endpoint) → Holds s es → s.count ≡ length es
Holds-count s es h = omega (
  arith,
  h.storage,
  h.within,
  ap length h.live,
  length-map (take s.count s.routes) endpoint_of,
  length-take s.count s.routes,
)

-- The registration of a route in a table with fewer than 64.
another :
    (method : HttpMethod) (path : List ℕ) (handler : RouteHandler) (s : Api) (es : List Endpoint)
    → length es < 64
    → length (text path) ≤ 256
    → Holds s es
    → Holds
        (register_route method path handler s)
        (es ++ record { method = method; path = text path; handler = handler } ∷ [])
another method path handler s es room short h =
    register_route-Holds method path handler s es h (omega (arith, Holds-count s es h)) short

-- The endpoints of the API, in the order of `api_init`.
abbrev pub endpoints : List Endpoint
endpoints =
    record { method = get; path = codes "/api/system"; handler = get_system_info }
    ∷ record { method = get; path = codes "/api/memory"; handler = get_memory_info }
    ∷ record { method = get; path = codes "/api/storage"; handler = get_storage_info }
    ∷ record { method = get; path = codes "/api/network"; handler = get_network_info }
    ∷ record { method = get; path = codes "/api/services"; handler = get_services }
    ∷ record { method = post; path = codes "/api/services"; handler = control_service }
    ∷ record { method = get; path = codes "/api/containers"; handler = get_containers }
    ∷ record { method = get; path = codes "/api/vms"; handler = get_vms }
    ∷ []

-- The memory as the program is loaded.
pub record IsCleared (s : Api) : Type 0 where
  pub storage : length s.routes ≡ 64
  pub paths : All (λ r. r.path ≡ replicate 256 0) s.routes

cleared_paths : (rs : List Route) → All (λ r. r.path ≡ replicate 256 0) rs → All HasPath rs
cleared_paths [] h = tt
cleared_paths (r ∷ rs) h = (rw (h.0) refl, cleared_paths rs h.1)

cleared_at :
    (i : ℕ) (rs : List Route) (r : Route)
    → All (λ r. r.path ≡ replicate 256 0) rs
    → get_elem? rs i ≡ some r
    → r.path ≡ replicate 256 0
cleared_at i rs r h e = All-get_elem? (λ (r : Route). r.path ≡ replicate 256 0) i rs h e

-- After `api_init` the table holds the eight endpoints of the API, in its order.
pub init-Holds : (s : Api) → IsCleared s → Holds (init s) endpoints
unfolding init
init-Holds s c =
    let s0 : Api = record s { count = 0 } in
    let h0 : Holds s0 [] = record {
      storage = c.storage;
      within = omega arith;
      paths = cleared_paths s.routes c.paths;
      live = refl;
      clear = λ i r lt e. cleared_at i s.routes r c.paths e;
    } in
    let h1 =
      another get (codes "/api/system") get_system_info s0 (take 0 endpoints) (omega arith)
        (omega arith) h0 in
    let s1 = register_route get (codes "/api/system") get_system_info s0 in
    let h2 =
      another get (codes "/api/memory") get_memory_info s1 (take 1 endpoints) (omega arith)
        (omega arith) h1 in
    let s2 = register_route get (codes "/api/memory") get_memory_info s1 in
    let h3 =
      another get (codes "/api/storage") get_storage_info s2 (take 2 endpoints) (omega arith)
        (omega arith) h2 in
    let s3 = register_route get (codes "/api/storage") get_storage_info s2 in
    let h4 =
      another get (codes "/api/network") get_network_info s3 (take 3 endpoints) (omega arith)
        (omega arith) h3 in
    let s4 = register_route get (codes "/api/network") get_network_info s3 in
    let h5 =
      another get (codes "/api/services") get_services s4 (take 4 endpoints) (omega arith)
        (omega arith) h4 in
    let s5 = register_route get (codes "/api/services") get_services s4 in
    let h6 =
      another post (codes "/api/services") control_service s5 (take 5 endpoints) (omega arith)
        (omega arith) h5 in
    let s6 = register_route post (codes "/api/services") control_service s5 in
    let h7 =
      another get (codes "/api/containers") get_containers s6 (take 6 endpoints) (omega arith)
        (omega arith) h6 in
    let s7 = register_route get (codes "/api/containers") get_containers s6 in
    let h8 =
      another get (codes "/api/vms") get_vms s7 (take 7 endpoints) (omega arith) (omega arith) h7 in
    let s8 = register_route get (codes "/api/vms") get_vms s7 in h8

-- After `api_init` of cleared memory, `api_handle_request` answers by the handler of the method and
-- the path for the eight endpoints of the API, and with 404 for every other request.
pub handle_request-init :
    (req : HttpRequest) (s : Api)
    → IsCleared s
    → length req.path ≡ 256
    → handle_request req (init s) ≡ answer_of req endpoints
handle_request-init req s c h = handle_request-answer_of req (init s) endpoints (init-Holds s c) h

-- Every response gives the length of its body.
count_bytes-length :
    (n : ℕ) (body : List ℕ)
    → n + length (text body) < 2 ^ 32
    → count_bytes n body ≡ n + length (text body)
unfolding count_bytes
count_bytes-length n [] h = omega arith
count_bytes-length n (c ∷ body) h = ground (arith, count_bytes-length ((n + 1) % 2 ^ 32) body)

-- A response has the status and the body that its handler gives it, and `body_length` is the number of
-- the bytes before the NUL.
pub respond-length :
    (status : ℕ) (body : List ℕ)
    → length (text body) < 2 ^ 32
    → ((respond status body).body_length ≡ length (text body))
      × ((respond status body).body ≡ body)
      × ((respond status body).status_code ≡ status)
unfolding respond
respond-length status body h = (count_bytes-length 0 body (omega arith) ∙ omega arith, refl, refl)
