-- ===== src/HttpServer/Logging.antt =====
-- api/internal/httpserver/router.go with the middleware of api/pkg/logger/middleware.go in front: the
-- router over a state with a log, of handlers that do not know of it.
use fleetcontrol.Common.{
  ◌≡◌, refl, Bool, not, ◌||◌, none, some, List, ◌∷◌, ◌==◌, Bool-cases, inl, inr, Result, ok, err,
  starts_with,
}
use fleetcontrol.Auth.Principal.{Principal, Uuid, role_admin}
use fleetcontrol.Auth.Middleware.{
  middleware, authenticated, bearer, with_principal, require_human_role, require_role,
  principal_from_context,
}
use fleetcontrol.Auth.Principal.{human_role}
use fleetcontrol.Gen.Server.{ServerInterface, serve_bound}
use fleetcontrol.Gen.Wrapper
use fleetcontrol.Http.{Request, Outcome, responded, panicked, Handler}
use fleetcontrol.HttpServer.Router
use fleetcontrol.HttpServer.Router.{
  Endpoint, Parts, Pick, matched, unmatched, new_wrapper, unguarded, route, with_token, with_admin,
  picked, new_router,
}
use fleetcontrol.Logger.{Entry, Logged, after_serve, request_logger}

-- What a handler gives with the log at hand, which it leaves as it is.
abbrev pub beside : {S : Type 0} → List Entry → Outcome × S → Outcome × Logged S
beside log (o, s) = (o, (s, log))

abbrev pub lift : {S : Type 0} → Handler S → Handler (Logged S)
lift h r (s, log) = beside log (h r s)

abbrev pub lift_server : {S : Type 0} → ServerInterface S → ServerInterface (Logged S)
lift_server server = record {
  post_auth_login = lift server.post_auth_login;
  get_health = lift server.get_health;
  get_satellites = lift server.get_satellites;
  post_satellites = lift server.post_satellites;
  delete_satellites_id = λ id. lift (server.delete_satellites_id id);
  get_satellites_id = λ id. lift (server.get_satellites_id id);
  patch_satellites_id = λ id. lift (server.patch_satellites_id id);
  post_satellites_id_heartbeat = λ id. lift (server.post_satellites_id_heartbeat id);
  get_users = lift server.get_users;
  post_users = lift server.post_users;
  delete_users_id = λ id. lift (server.delete_users_id id);
  get_version = lift server.get_version;
}

abbrev pub lift_parts : {S : Type 0} → Parts S → Parts (Logged S)
lift_parts parts = record {
  wire = parts.wire;
  jwt = parts.jwt;
  tokens = parts.tokens;
  now = parts.now;
  server = lift_server parts.server;
  serve_spec = lift parts.serve_spec;
  serve_ui = lift parts.serve_ui;
}

-- The log after a request with this outcome.
abbrev pub log_after : Request → Outcome → List Entry → List Entry
log_after r (responded resp) log =
    record { method = r.method; path = r.path; status = resp.status } ∷ log
log_after r (panicked reason) log = log

module _ {S : Type 0} (parts : Parts S) where
  -- The second handler does as the first, beside the log.
  abbrev Follows : Handler S → Handler (Logged S) → Type 0
  Follows h h' = (r : Request) (s : S) (log : List Entry) → h' r (s, log) ≡ beside log (h r s)

  authenticated-Follows :
      (h : Handler S) (h' : Handler (Logged S))
      → Follows h h'
      → (r : Request) (p : Result Principal) (s : S) (log : List Entry)
      → authenticated h' r p (s, log) ≡ beside log (authenticated h r p s)
  authenticated-Follows h h' same r (err e) s log = refl
  authenticated-Follows h h' same r (ok p) s log = same (with_principal r p) s log

  token-Follows :
      (h : Handler S) (h' : Handler (Logged S))
      → Follows h h'
      → Follows (with_token parts h) (with_token (lift_parts parts) h')
  unfolding middleware
  token-Follows h h' same r s log =
      let header = r.header "Authorization" in
      elim (Bool-cases (header == "" || not (starts_with header bearer))) [
        | inl missing ↦ rw (missing) refl
        | inr there ↦ rw there (authenticated-Follows h h' same r _ s log)
      ]

  require_role-Follows :
      (h : Handler S) (h' : Handler (Logged S))
      → Follows h h'
      → (r : Request) (who : Principal × Bool) (s : S) (log : List Entry)
      → require_role role_admin h' r who (s, log) ≡ beside log (require_role role_admin h r who s)
  unfolding human_role
  require_role-Follows h h' same r (p, found) s log =
      let (principal_role, is_human) = human_role p in
      elim (Bool-cases (not found || not is_human || not (principal_role == role_admin))) [
        | inl refused ↦ rw refused refl
        | inr admitted ↦ rw admitted (same r s log)
      ]

  admin-Follows :
      (h : Handler S) (h' : Handler (Logged S))
      → Follows h h'
      → Follows (with_admin parts h) (with_admin (lift_parts parts) h')
  unfolding require_human_role
  admin-Follows h h' same =
      token-Follows (require_human_role role_admin h) (require_human_role role_admin h')
        (λ r s log. require_role-Follows h h' same r (principal_from_context r) s log)

  bound-Follows :
      (h : Uuid → Handler S) (id : Result Uuid)
      → Follows
          (serve_bound (new_wrapper parts.server) h id)
          (serve_bound (new_wrapper (lift_server parts.server)) (λ j. lift (h j)) id)
  bound-Follows h (err e) r s log = refl
  bound-Follows h (ok id) r s log = refl

  unguarded-Follows : (e : Endpoint) → Follows (unguarded parts e) (unguarded (lift_parts parts) e)
  unfolding Wrapper.post_auth_login Wrapper.get_health Wrapper.get_version Wrapper.post_satellites
      Wrapper.get_satellites Wrapper.get_satellites_id Wrapper.patch_satellites_id
      Wrapper.delete_satellites_id Wrapper.post_satellites_id_heartbeat Wrapper.post_users
      Wrapper.get_users Wrapper.delete_users_id
  unguarded-Follows Router.get_satellites_id r s log =
      bound-Follows parts.server.get_satellites_id (parts.wire.bind_uuid (r.url_param "id")) r s log
  unguarded-Follows Router.patch_satellites_id r s log =
      bound-Follows parts.server.patch_satellites_id (parts.wire.bind_uuid (r.url_param "id")) r s
        log
  unguarded-Follows Router.delete_satellites_id r s log =
      bound-Follows parts.server.delete_satellites_id (parts.wire.bind_uuid (r.url_param "id")) r s
        log
  unguarded-Follows Router.post_satellites_id_heartbeat r s log =
      bound-Follows parts.server.post_satellites_id_heartbeat
        (parts.wire.bind_uuid (r.url_param "id")) r s log
  unguarded-Follows Router.delete_users_id r s log =
      bound-Follows parts.server.delete_users_id (parts.wire.bind_uuid (r.url_param "id")) r s log
  unguarded-Follows _ r s log = refl

  route-Follows : (e : Endpoint) → Follows (route parts e) (route (lift_parts parts) e)
  unfolding route
  route-Follows Router.post_auth_login = unguarded-Follows Router.post_auth_login
  route-Follows Router.get_health = unguarded-Follows Router.get_health
  route-Follows Router.get_version = unguarded-Follows Router.get_version
  route-Follows Router.get_openapi = unguarded-Follows Router.get_openapi
  route-Follows Router.get_docs = unguarded-Follows Router.get_docs
  route-Follows Router.post_users = admin-Follows _ _ (unguarded-Follows Router.post_users)
  route-Follows Router.get_users = admin-Follows _ _ (unguarded-Follows Router.get_users)
  route-Follows Router.delete_users_id =
      admin-Follows _ _ (unguarded-Follows Router.delete_users_id)
  route-Follows Router.post_satellites =
      token-Follows _ _ (unguarded-Follows Router.post_satellites)
  route-Follows Router.get_satellites = token-Follows _ _ (unguarded-Follows Router.get_satellites)
  route-Follows Router.get_satellites_id =
      token-Follows _ _ (unguarded-Follows Router.get_satellites_id)
  route-Follows Router.patch_satellites_id =
      token-Follows _ _ (unguarded-Follows Router.patch_satellites_id)
  route-Follows Router.delete_satellites_id =
      token-Follows _ _ (unguarded-Follows Router.delete_satellites_id)
  route-Follows Router.post_satellites_id_heartbeat =
      token-Follows _ _ (unguarded-Follows Router.post_satellites_id_heartbeat)

  picked-Follows : (pick : Pick) → Follows (picked parts pick) (picked (lift_parts parts) pick)
  picked-Follows (matched e) r s log = route-Follows e r s log
  picked-Follows (unmatched o) r s log = refl

  after_serve-beside :
      (r : Request) (result : Outcome × S) (log : List Entry)
      → after_serve r (beside log result) ≡ beside (log_after r result.0 log) result
  after_serve-beside r (responded resp, s) log = refl
  after_serve-beside r (panicked reason, s) log = refl

  -- The router with the request logger in front answers and changes the state as the router
  -- without it, and adds one entry to the log, with the method and the path of the request and the
  -- status of the answer, unless a panic ends the request: then the log is as it was.
  pub new_router-Logs :
      (pick : Request → Pick) (r : Request) (s : S) (log : List Entry)
      → let result = new_router parts none pick r s in
        new_router (lift_parts parts) (some request_logger) pick r (s, log)
        ≡ beside (log_after r result.0 log) result
  unfolding new_router request_logger
  new_router-Logs pick r s log =
      rw (picked-Follows (pick r) r s log) (after_serve-beside r (picked parts (pick r) r s) log)
