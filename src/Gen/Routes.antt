-- ===== src/Gen/Routes.antt =====
-- api/gen/server.gen.go: the registration of the wrappers on a router, which is the list of its
-- routes in the order of their registration.
use Prim.Native.String
use fleetcontrol.Common.{ℕ, String, Option, none, some, List, [], ◌∷◌, ◌++◌}
use fleetcontrol.Http.{Handler, Wire, http_error}
use fleetcontrol.Gen.Errors.{ParamError, param_error_text}
use fleetcontrol.Gen.Server.{ServerInterface, ServerInterfaceWrapper}
use fleetcontrol.Gen.Wrapper

pub record Route (S : Type 0) : Type 0 where
  pub method : String
  pub pattern : String
  pub handler : Handler S

-- ChiServerOptions; a nil BaseRouter and a nil ErrorHandlerFunc are `none`.
pub record ChiServerOptions (S : Type 0) : Type 0 where
  pub base_url : String
  pub base_router : Option (List (Route S))
  pub middlewares : List (Handler S → Handler S)
  pub error_handler_func : Option (ParamError → Handler S)

abbrev pub no_options : {S : Type 0} → ChiServerOptions S
no_options = record {
  base_url = "";
  base_router = none;
  middlewares = [];
  error_handler_func = none;
}

abbrev pub routes_of : {S : Type 0} → Option (List (Route S)) → List (Route S)
routes_of none = []
routes_of (some routes) = routes

module _ {S : Type 0} (wire : Wire) (decimal : ℕ → String) where
  -- The default error handler.
  abbrev pub bad_request : ParamError → Handler S
  bad_request e r s = (http_error (param_error_text decimal e) 400, s)

  abbrev pub or_bad_request : Option (ParamError → Handler S) → ParamError → Handler S
  or_bad_request none = bad_request
  or_bad_request (some f) = f

  abbrev pub wrapper_of : ServerInterface S → ChiServerOptions S → ServerInterfaceWrapper S
  wrapper_of si options = record {
    handler = si;
    handler_middlewares = options.middlewares;
    error_handler_func = some (or_bad_request options.error_handler_func);
  }

  abbrev pub at : String → String → String → Handler S → Route S
  at base method pattern h = record {
    method = method;
    pattern = String.◌++◌ base pattern;
    handler = h;
  }

  -- The twelve groups.
  abbrev pub wrapped_routes : String → ServerInterfaceWrapper S → List (Route S)
  wrapped_routes base w =
      at base "POST" "/auth/login" (Wrapper.post_auth_login wire w)
      ∷ at base "GET" "/health" (Wrapper.get_health wire w)
      ∷ at base "GET" "/satellites" (Wrapper.get_satellites wire w)
      ∷ at base "POST" "/satellites" (Wrapper.post_satellites wire w)
      ∷ at base "DELETE" "/satellites/{id}" (Wrapper.delete_satellites_id wire w)
      ∷ at base "GET" "/satellites/{id}" (Wrapper.get_satellites_id wire w)
      ∷ at base "PATCH" "/satellites/{id}" (Wrapper.patch_satellites_id wire w)
      ∷ at base "POST" "/satellites/{id}/heartbeat" (Wrapper.post_satellites_id_heartbeat wire w)
      ∷ at base "GET" "/users" (Wrapper.get_users wire w)
      ∷ at base "POST" "/users" (Wrapper.post_users wire w)
      ∷ at base "DELETE" "/users/{id}" (Wrapper.delete_users_id wire w)
      ∷ at base "GET" "/version" (Wrapper.get_version wire w)
      ∷ []

  -- HandlerWithOptions
  unfoldable pub handler_with_options : ServerInterface S → ChiServerOptions S → List (Route S)
  handler_with_options si options =
      routes_of options.base_router ++ wrapped_routes options.base_url (wrapper_of si options)

  -- HandlerFromMuxWithBaseURL
  unfoldable pub handler_from_mux_with_base_url :
      ServerInterface S → List (Route S) → String → List (Route S)
  unfolding handler_with_options
  handler_from_mux_with_base_url si r base =
      handler_with_options si (record no_options { base_url = base; base_router = some r })

  -- HandlerFromMux
  unfoldable pub handler_from_mux : ServerInterface S → List (Route S) → List (Route S)
  unfolding handler_with_options
  handler_from_mux si r = handler_with_options si (record no_options { base_router = some r })

  -- Handler
  unfoldable pub handler : ServerInterface S → List (Route S)
  unfolding handler_with_options
  handler si = handler_with_options si no_options
