-- ===== src/HttpServer/Router.antt =====
-- api/internal/httpserver/router.go. Which route chi picks for a method and a path is the parameter
-- `pick`; `unmatched` is chi's own answer where no route fits.
use fleetcontrol.Common.{String, Option, none, some, []}
use fleetcontrol.Auth.Principal.{role_admin}
use fleetcontrol.Auth.Jwt.{Time, JwtLibrary, JwtManager}
use fleetcontrol.Auth.Middleware.{middleware, require_human_role}
use fleetcontrol.Gen.Server.{ServerInterface, ServerInterfaceWrapper}
use fleetcontrol.Gen.Wrapper
use fleetcontrol.Http.{Request, Outcome, Handler, Wire}

-- The registered routes.
pub data Endpoint : Type 0 where
  post_auth_login get_health get_version get_openapi get_docs : Endpoint
  post_satellites get_satellites get_satellites_id patch_satellites_id : Endpoint
  delete_satellites_id post_satellites_id_heartbeat : Endpoint
  post_users get_users delete_users_id : Endpoint

-- The method and the pattern of each registration.
abbrev pub registered : Endpoint → String × String
registered post_auth_login = ("POST", "/auth/login")
registered get_health = ("GET", "/health")
registered get_version = ("GET", "/version")
registered get_openapi = ("GET", "/openapi.yaml")
registered get_docs = ("GET", "/docs")
registered post_satellites = ("POST", "/satellites")
registered get_satellites = ("GET", "/satellites")
registered get_satellites_id = ("GET", "/satellites/{id}")
registered patch_satellites_id = ("PATCH", "/satellites/{id}")
registered delete_satellites_id = ("DELETE", "/satellites/{id}")
registered post_satellites_id_heartbeat = ("POST", "/satellites/{id}/heartbeat")
registered post_users = ("POST", "/users")
registered get_users = ("GET", "/users")
registered delete_users_id = ("DELETE", "/users/{id}")

pub data Pick : Type 0 where
  matched : Endpoint → Pick
  unmatched : Outcome → Pick

module _ {S : Type 0} where
  -- `&gen.ServerInterfaceWrapper{Handler: server}`: no middleware, and a nil error handler.
  abbrev pub new_wrapper : ServerInterface S → ServerInterfaceWrapper S
  new_wrapper server = record {
    handler = server;
    handler_middlewares = [];
    error_handler_func = none;
  }

-- What the router is built from.
pub record Parts (S : Type 0) : Type 0 where
  pub wire : Wire
  pub jwt : JwtLibrary
  pub tokens : JwtManager
  pub now : Time
  pub server : ServerInterface S
  pub serve_spec : Handler S
  pub serve_ui : Handler S

module _ {S : Type 0} (parts : Parts S) where
  -- r.Use(auth.Middleware(tokens))
  abbrev pub with_token : Handler S → Handler S
  with_token = middleware parts.jwt parts.tokens parts.now

  -- r.Use(auth.RequireHumanRole(auth.RoleAdmin)), inside the above
  abbrev pub with_admin : Handler S → Handler S
  with_admin h = with_token (require_human_role role_admin h)

  abbrev pub unguarded : Endpoint → Handler S
  unguarded post_auth_login = Wrapper.post_auth_login parts.wire (new_wrapper parts.server)
  unguarded get_health = Wrapper.get_health parts.wire (new_wrapper parts.server)
  unguarded get_version = Wrapper.get_version parts.wire (new_wrapper parts.server)
  unguarded get_openapi = parts.serve_spec
  unguarded get_docs = parts.serve_ui
  unguarded post_satellites = Wrapper.post_satellites parts.wire (new_wrapper parts.server)
  unguarded get_satellites = Wrapper.get_satellites parts.wire (new_wrapper parts.server)
  unguarded get_satellites_id = Wrapper.get_satellites_id parts.wire (new_wrapper parts.server)
  unguarded patch_satellites_id = Wrapper.patch_satellites_id parts.wire (new_wrapper parts.server)
  unguarded delete_satellites_id =
      Wrapper.delete_satellites_id parts.wire (new_wrapper parts.server)
  unguarded post_satellites_id_heartbeat =
      Wrapper.post_satellites_id_heartbeat parts.wire (new_wrapper parts.server)
  unguarded post_users = Wrapper.post_users parts.wire (new_wrapper parts.server)
  unguarded get_users = Wrapper.get_users parts.wire (new_wrapper parts.server)
  unguarded delete_users_id = Wrapper.delete_users_id parts.wire (new_wrapper parts.server)

  -- The group in which each route is registered.
  unfoldable pub route : Endpoint → Handler S
  route post_auth_login = unguarded post_auth_login
  route get_health = unguarded get_health
  route get_version = unguarded get_version
  route get_openapi = unguarded get_openapi
  route get_docs = unguarded get_docs
  route post_satellites = with_token (unguarded post_satellites)
  route get_satellites = with_token (unguarded get_satellites)
  route get_satellites_id = with_token (unguarded get_satellites_id)
  route patch_satellites_id = with_token (unguarded patch_satellites_id)
  route delete_satellites_id = with_token (unguarded delete_satellites_id)
  route post_satellites_id_heartbeat = with_token (unguarded post_satellites_id_heartbeat)
  route post_users = with_admin (unguarded post_users)
  route get_users = with_admin (unguarded get_users)
  route delete_users_id = with_admin (unguarded delete_users_id)

  abbrev pub picked : Pick → Handler S
  picked (matched e) r s = route e r s
  picked (unmatched o) r s = (o, s)

  abbrev pub logged_by : Option (Handler S → Handler S) → Handler S → Handler S
  logged_by none h = h
  logged_by (some logger) h = logger h

  -- NewRouter
  unfoldable pub new_router : Option (Handler S → Handler S) → (Request → Pick) → Handler S
  unfolding route
  new_router logger pick = logged_by logger (λ r s. picked (pick r) r s)
