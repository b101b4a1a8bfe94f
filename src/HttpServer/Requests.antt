-- ===== src/HttpServer/Requests.antt =====
-- The requests that api/gen/client.gen.go builds against the routes of
-- api/internal/httpserver/router.go.
use Prim.Native.String
use text.Mathlib.TextLemmas.{append-nil}
use fleetcontrol.Common.{
  ◌≡◌, refl, sym, ap, ◌∙◌, ◌⊎◌, inl, inr, String, false, Option, none, some, Result, ok, err, arith,
}
use fleetcontrol.Auth.Principal.{Uuid}
use fleetcontrol.Gen.Models.{
  CreateSatelliteRequest, UpdateSatelliteRequest, CreateUserRequest, LoginRequest,
}
use fleetcontrol.Gen.Client.{HttpRequest, and_then}
use fleetcontrol.Gen.Client.Requests
use fleetcontrol.Gen.Client.Requests.{RequestLibrary, request_for, request_with_body, add_header}
use fleetcontrol.Gen.Client.Laws.{and_then-eq-ok}
use fleetcontrol.HttpServer.Pattern.{has_parameter, fill}
use fleetcontrol.HttpServer.Router
use fleetcontrol.HttpServer.Router.{Endpoint, registered}

-- What the methods of the client take.
pub record Arguments : Type 0 where
  pub id : Uuid
  pub login : LoginRequest
  pub satellite : CreateSatelliteRequest
  pub region : UpdateSatelliteRequest
  pub user : CreateUserRequest

-- The request of the method for an operation; the client has none for the documentation.
abbrev pub request_of : RequestLibrary → String → Arguments → Endpoint → Option (Result HttpRequest)
request_of lib server a Router.post_auth_login =
    some (Requests.new_post_auth_login_request lib server a.login)
request_of lib server a Router.get_health = some (Requests.new_get_health_request lib server)
request_of lib server a Router.get_version = some (Requests.new_get_version_request lib server)
request_of lib server a Router.get_openapi = none
request_of lib server a Router.get_docs = none
request_of lib server a Router.post_satellites =
    some (Requests.new_post_satellites_request lib server a.satellite)
request_of lib server a Router.get_satellites =
    some (Requests.new_get_satellites_request lib server)
request_of lib server a Router.get_satellites_id =
    some (Requests.new_get_satellites_id_request lib server a.id)
request_of lib server a Router.patch_satellites_id =
    some (Requests.new_patch_satellites_id_request lib server a.id a.region)
request_of lib server a Router.delete_satellites_id =
    some (Requests.new_delete_satellites_id_request lib server a.id)
request_of lib server a Router.post_satellites_id_heartbeat =
    some (Requests.new_post_satellites_id_heartbeat_request lib server a.id)
request_of lib server a Router.post_users = some (Requests.new_post_users_request lib server a.user)
request_of lib server a Router.get_users = some (Requests.new_get_users_request lib server)
request_of lib server a Router.delete_users_id =
    some (Requests.new_delete_users_id_request lib server a.id)

module _ (lib : RequestLibrary) where
  -- http.NewRequest returns a request with the method and the URL that it was given.
  abbrev pub KeepsTarget : Type 0
  KeepsTarget =
      (method url : String) (body : Option String) (req : HttpRequest)
      → lib.new_request method url body ≡ ok req
      → (req.method ≡ method) × (req.url ≡ url)

  abbrev pub Targets : String → String → String → HttpRequest → Type 0
  Targets server method path req =
      (req.method ≡ method) × (lib.resolve server (String.◌++◌ "." path) ≡ ok req.url)

  -- The request goes to the registered method and pattern, with the styled id in the pattern's place.
  abbrev pub Addresses : String → Uuid → Endpoint → HttpRequest → Type 0
  Addresses server id e req =
      (param : String) × ((has_parameter (registered e).1 ≡ false)
        ⊎ (lib.style_param id ≡ ok param))
      × Targets server (registered e).0 (fill param (registered e).1) req

abbrev get_or : Result HttpRequest → Option (Result HttpRequest) → Result HttpRequest
get_or r none = r
get_or r (some r') = r'

abbrev value_or : HttpRequest → Result HttpRequest → HttpRequest
value_or req (ok r) = r
value_or req (err e) = req

module _ (lib : RequestLibrary) (keeps : KeepsTarget lib) (server : String) where
  request_for-Targets :
      (method path : String) (body : Option String) (req : HttpRequest)
      → request_for lib method server path body ≡ ok req
      → Targets lib server method path req
  request_for-Targets method path body req h =
      let (url, resolved, made) =
        and_then-eq-ok (lib.resolve server (String.◌++◌ "." path))
          (λ url. lib.new_request method url body) req h in
      let (same_method, same_url) = keeps method url body req made in
      (same_method, resolved ∙ ap ok (sym same_url))

  request_with_body-Targets :
      (method path content_type body : String) (req : HttpRequest)
      → request_with_body lib method server path content_type body ≡ ok req
      → Targets lib server method path req
  request_with_body-Targets method path content_type body req h =
      let (base, built, headed) =
        and_then-eq-ok (request_for lib method server path (some body))
          (λ r. ok (add_header "Content-Type" content_type r)) req h in
      rw (← ap (value_or req) headed) (request_for-Targets method path (some body) base built)

  module _ (id : Uuid) where
    -- A request that needs no parameter, and one that styles the id first.
    plain :
        (e : Endpoint) (req : HttpRequest)
        → has_parameter (registered e).1 ≡ false
        → Targets lib server (registered e).0 (fill "" (registered e).1) req
        → Addresses lib server id e req
    plain e req none_there target = ("", inl none_there, target)

    styled :
        (e : Endpoint) (build : String → Result HttpRequest) (req : HttpRequest)
        → ((param : String)
            → build param ≡ ok req
            → Targets lib server (registered e).0 (fill param (registered e).1) req)
        → and_then (lib.style_param id) build ≡ ok req
        → Addresses lib server id e req
    styled e build req targets h =
        let (param, done, built) = and_then-eq-ok (lib.style_param id) build req h in
        (param, inr done, targets param built)

  built_of :
      (req : HttpRequest) (r : Result HttpRequest)
      → ◌≡◌ {A = Option (Result HttpRequest)} (some r) (some (ok req))
      → r ≡ ok req
  built_of req r h = ap (λ o. get_or r o) h

  -- If http.NewRequest keeps the method and the URL that it is given, every request that the
  -- generated client builds has the method that the router registers for its operation, and the
  -- URL that the registered path, with the styled id in the place of its parameter, resolves to on
  -- the server.
  pub request_of-Addresses :
      (a : Arguments) (e : Endpoint) (req : HttpRequest)
      → request_of lib server a e ≡ some (ok req)
      → Addresses lib server a.id e req
  unfolding Requests.new_post_auth_login_request Requests.new_get_health_request
      Requests.new_get_version_request Requests.new_post_satellites_request
      Requests.new_get_satellites_request Requests.new_get_satellites_id_request
      Requests.new_patch_satellites_id_request Requests.new_delete_satellites_id_request
      Requests.new_post_satellites_id_heartbeat_request Requests.new_post_users_request
      Requests.new_get_users_request Requests.new_delete_users_id_request
  request_of-Addresses a Router.get_health req h =
      plain a.id Router.get_health req refl
        (request_for-Targets "GET" "/health" none req (built_of req _ h))
  request_of-Addresses a Router.get_version req h =
      plain a.id Router.get_version req refl
        (request_for-Targets "GET" "/version" none req (built_of req _ h))
  request_of-Addresses a Router.get_satellites req h =
      plain a.id Router.get_satellites req refl
        (request_for-Targets "GET" "/satellites" none req (built_of req _ h))
  request_of-Addresses a Router.get_users req h =
      plain a.id Router.get_users req refl
        (request_for-Targets "GET" "/users" none req (built_of req _ h))
  request_of-Addresses a Router.get_openapi req h = absurd (ground arith)
  request_of-Addresses a Router.get_docs req h = absurd (ground arith)
  request_of-Addresses a Router.post_auth_login req h =
      let (body, _, built) = and_then-eq-ok (lib.marshal_login a.login) _ req (built_of req _ h) in
      plain a.id Router.post_auth_login req refl
        (request_with_body-Targets "POST" "/auth/login" _ body req built)
  request_of-Addresses a Router.post_satellites req h =
      let (body, _, built) =
        and_then-eq-ok (lib.marshal_create_satellite a.satellite) _ req (built_of req _ h) in
      plain a.id Router.post_satellites req refl
        (request_with_body-Targets "POST" "/satellites" _ body req built)
  request_of-Addresses a Router.post_users req h =
      let (body, _, built) =
        and_then-eq-ok (lib.marshal_create_user a.user) _ req (built_of req _ h) in
      plain a.id Router.post_users req refl
        (request_with_body-Targets "POST" "/users" _ body req built)
  request_of-Addresses a Router.get_satellites_id req h =
      styled a.id Router.get_satellites_id _ req
        (λ param built.
          rw (append-nil param)
            (request_for-Targets "GET" (String.◌++◌ "/satellites/" param) none req built))
        (built_of req _ h)
  request_of-Addresses a Router.delete_satellites_id req h =
      styled a.id Router.delete_satellites_id _ req
        (λ param built.
          rw (append-nil param)
            (request_for-Targets "DELETE" (String.◌++◌ "/satellites/" param) none req built))
        (built_of req _ h)
  request_of-Addresses a Router.delete_users_id req h =
      styled a.id Router.delete_users_id _ req
        (λ param built.
          rw (append-nil param)
            (request_for-Targets "DELETE" (String.◌++◌ "/users/" param) none req built))
        (built_of req _ h)
  request_of-Addresses a Router.post_satellites_id_heartbeat req h =
      styled a.id Router.post_satellites_id_heartbeat _ req
        (λ param built.
          request_for-Targets "POST" (String.◌++◌ "/satellites/" (String.◌++◌ param "/heartbeat"))
            none req built)
        (built_of req _ h)
  request_of-Addresses a Router.patch_satellites_id req h =
      let (body, _, built) =
        and_then-eq-ok (lib.marshal_update_satellite a.region) _ req (built_of req _ h) in
      styled a.id Router.patch_satellites_id _ req
        (λ param built.
          rw (append-nil param)
            (request_with_body-Targets "PATCH" (String.◌++◌ "/satellites/" param) _ body req built))
        built
