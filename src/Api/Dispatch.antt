-- ===== src/Api/Dispatch.antt =====
-- The route table of web/api/api.c as a list of endpoints, and the dispatch by it.
use homeserver_os.Base.{
  ℕ, zero, suc, ◌≤◌, ◌≡◌, refl, sym, ap, ◌∙◌, List, [], ◌∷◌, ◌==◌, ◌&&◌, some, length, take,
  get_elem?, replicate, map, Bool-cases, inl, inr, if◌then◌else◌,
}
use homeserver_os.Base.Text.{text}
use homeserver_os.Base.Table.{find}
use homeserver_os.Base.Table.Laws.{find_first-eq-find}
use homeserver_os.Base.Table.Slots.{All}
use homeserver_os.Api.{
  Api, Route, RouteHandler, HttpMethod, HttpRequest, HttpResponse, method_value, serves, handled,
  not_found, handle_request,
}
use homeserver_os.Api.Paths.{text_eq, match_path-text_eq}

pub record Endpoint : Type 0 where
  pub method : HttpMethod
  pub path : List ℕ
  pub handler : RouteHandler

-- The response of the first endpoint with the method and the path of the request, or Not found.
abbrev pub answer_of : HttpRequest → List Endpoint → HttpResponse
answer_of req [] = not_found req
answer_of req (e ∷ es) =
    if method_value e.method == method_value req.method && text_eq e.path (text req.path)
    then e.handler req
    else answer_of req es

abbrev pub endpoint_of : Route → Endpoint
endpoint_of r = record { method = r.method; path = text r.path; handler = r.handler }

-- `char path[256]`
abbrev pub HasPath : Route → Type 0
HasPath r = length r.path ≡ 256

-- The table holds these endpoints, and no text behind them.
pub record Holds (s : Api) (es : List Endpoint) : Type 0 where
  pub storage : length s.routes ≡ 64
  pub within : s.count ≤ 64
  pub paths : All HasPath s.routes
  pub live : map endpoint_of (take s.count s.routes) ≡ es
  pub clear :
      (i : ℕ) (r : Route) → s.count ≤ i → get_elem? s.routes i ≡ some r → r.path ≡ replicate 256 0

answer_of_live :
    (req : HttpRequest) (rs : List Route)
    → length req.path ≡ 256
    → All HasPath rs
    → handled req (find (serves req) rs) ≡ answer_of req (map endpoint_of rs)
answer_of_live req [] h k = refl
answer_of_live req (r ∷ rs) h k =
    let same = match_path-text_eq 256 r.path req.path k.0 h in
    let test : serves req r ≡ (
        method_value r.method == method_value req.method && text_eq (text r.path) (text req.path)) =
      ap (λ b. (method_value r.method == method_value req.method) && b) same in
    elim (Bool-cases (serves req r)) [
      | inl e ↦ rw (e, sym test ∙ e) refl
      | inr e ↦ rw (e, sym test ∙ e) (answer_of_live req rs h k.1)
    ]

All-take {ℓ κ} : {A : Type ℓ} (P : A → Type κ) (n : ℕ) (xs : List A) → All P xs → All P (take n xs)
All-take P zero xs h = tt
All-take P (suc n) [] h = tt
All-take P (suc n) (x ∷ xs) h = (h.0, All-take P n xs h.1)

-- `api_handle_request` answers by the first endpoint of the table that has exactly the method and the
-- path of the request, and with 404 where none has.
pub handle_request-answer_of :
    (req : HttpRequest) (s : Api) (es : List Endpoint)
    → Holds s es
    → length req.path ≡ 256
    → handle_request req s ≡ answer_of req es
unfolding handle_request
handle_request-answer_of req s es h k =
    ap (handled req) (find_first-eq-find (serves req) s.count s.routes)
    ∙ answer_of_live req (take s.count s.routes) k (All-take HasPath s.count s.routes h.paths)
    ∙ ap (answer_of req) h.live
