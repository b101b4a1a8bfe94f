-- ===== src/Gen/Server.antt =====
-- api/gen/server.gen.go: the interface of the server, and the wrappers that the routes call.
use fleetcontrol.Gen.Errors.{ParamError, invalid_format}
use fleetcontrol.Common.{Result, ok, err, Option, none, some, List, [], ◌∷◌}
use fleetcontrol.Auth.Principal.{Uuid}
use fleetcontrol.Http.{Request, Handler, Wire, Payload, panicked, responded}

pub record ServerInterface (S : Type 0) : Type 0 where
  pub post_auth_login : Handler S
  pub get_health : Handler S
  pub get_satellites : Handler S
  pub post_satellites : Handler S
  pub delete_satellites_id : Uuid → Handler S
  pub get_satellites_id : Uuid → Handler S
  pub patch_satellites_id : Uuid → Handler S
  pub post_satellites_id_heartbeat : Uuid → Handler S
  pub get_users : Handler S
  pub post_users : Handler S
  pub delete_users_id : Uuid → Handler S
  pub get_version : Handler S

-- Unimplemented: every endpoint answers 501 with no body.
abbrev pub not_implemented : {S : Type 0} → Handler S
not_implemented r s =
    (responded (record { status = 501; content_type = ""; payload = Payload.empty }), s)

abbrev pub unimplemented : {S : Type 0} → ServerInterface S
unimplemented = record {
  post_auth_login = not_implemented;
  get_health = not_implemented;
  get_satellites = not_implemented;
  post_satellites = not_implemented;
  delete_satellites_id = λ id. not_implemented;
  get_satellites_id = λ id. not_implemented;
  patch_satellites_id = λ id. not_implemented;
  post_satellites_id_heartbeat = λ id. not_implemented;
  get_users = not_implemented;
  post_users = not_implemented;
  delete_users_id = λ id. not_implemented;
  get_version = not_implemented;
}

-- ServerInterfaceWrapper; a nil ErrorHandlerFunc is `none`.
pub record ServerInterfaceWrapper (S : Type 0) : Type 0 where
  pub handler : ServerInterface S
  pub handler_middlewares : List (Handler S → Handler S)
  pub error_handler_func : Option (ParamError → Handler S)

-- `context.WithValue(ctx, BearerAuthScopes, []string{})`
abbrev pub with_scopes : Request → Request
with_scopes r = record r { scopes = some [] }

module _ {S : Type 0} where
  -- The loop over HandlerMiddlewares, and the call of what it built.
  abbrev pub serve_through : List (Handler S → Handler S) → Handler S → Handler S
  serve_through [] handler = handler
  serve_through (middleware ∷ middlewares) handler = serve_through middlewares (middleware handler)

  -- siw.ErrorHandlerFunc(w, r, &InvalidParamFormatError{…}): a nil function panics.
  abbrev pub bind_failed : Option (ParamError → Handler S) → ParamError → Handler S
  bind_failed none e r s =
      (panicked "runtime error: invalid memory address or nil pointer dereference", s)
  bind_failed (some f) e r s = f e r s

  abbrev pub serve_bound : ServerInterfaceWrapper S → (Uuid → Handler S) → Result Uuid → Handler S
  serve_bound siw h (err e) r s =
      bind_failed siw.error_handler_func (invalid_format (record { param_name = "id"; error = e }))
        r s
  serve_bound siw h (ok id) r s = serve_through siw.handler_middlewares (h id) (with_scopes r) s

  -- The body of the wrappers of routes with a path parameter `id`, of routes with a credential, and
  -- of public routes.
  abbrev pub wrap_id : Wire → ServerInterfaceWrapper S → (Uuid → Handler S) → Handler S
  wrap_id wire siw h r s = serve_bound siw h (wire.bind_uuid (r.url_param "id")) r s

  abbrev pub wrap_scoped : ServerInterfaceWrapper S → Handler S → Handler S
  wrap_scoped siw h r s = serve_through siw.handler_middlewares h (with_scopes r) s

  abbrev pub wrap_public : ServerInterfaceWrapper S → Handler S → Handler S
  wrap_public siw h r s = serve_through siw.handler_middlewares h r s
