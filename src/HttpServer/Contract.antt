-- ===== src/HttpServer/Contract.antt =====
-- The routes of api/internal/httpserver/router.go against those that api/gen/server.gen.go registers
-- from the OpenAPI document.
use fleetcontrol.Common.{
  ℕ, ◌≡◌, refl, ◌⊎◌, inl, inr, String, Bool, true, false, List, [], ◌∷◌, Error, message, Result, ok,
  err,
}
use Prim.Native.String
use fleetcontrol.Gen.Errors.{param_error_text, invalid_param_format_text}
use fleetcontrol.Gen.Routes.{Route, handler}
use fleetcontrol.Gen.Routes
use fleetcontrol.Gen.Wrapper
use fleetcontrol.Gen.Server.{ServerInterfaceWrapper, serve_bound}
use fleetcontrol.Auth.Principal.{Uuid}
use fleetcontrol.Http.{Request, Handler, panicked, http_error}
use fleetcontrol.HttpServer.Router
use fleetcontrol.HttpServer.Router.{Endpoint, Parts, registered, unguarded, route, new_wrapper}

-- The routes that deliver the documentation.
abbrev pub on_documents : Endpoint → Bool
on_documents Router.get_openapi = true
on_documents Router.get_docs = true
on_documents e = false

-- The operations of the document, in the order in which the generated server registers them.
abbrev pub operations : List Endpoint
operations =
    Router.post_auth_login ∷ Router.get_health ∷ Router.get_satellites ∷ Router.post_satellites
    ∷ Router.delete_satellites_id ∷ Router.get_satellites_id ∷ Router.patch_satellites_id
    ∷ Router.post_satellites_id_heartbeat ∷ Router.get_users ∷ Router.post_users
    ∷ Router.delete_users_id ∷ Router.get_version ∷ []

abbrev pub IsAmong : Endpoint → List Endpoint → Type 0
IsAmong e [] = ⊥
IsAmong e (f ∷ es) = (e ≡ f) ⊎ IsAmong e es

abbrev pub Pairwise : {A B : Type 0} → (A → B → Type 0) → List A → List B → Type 0
Pairwise P [] [] = Unit
Pairwise P (a ∷ as') (b ∷ bs) = P a b × Pairwise P as' bs
Pairwise P _ _ = ⊥

listed : (e : Endpoint) → (on_documents e ≡ true) ⊎ IsAmong e operations
listed Router.get_openapi = inl refl
listed Router.get_docs = inl refl
listed Router.post_auth_login = inr (inl refl)
listed Router.get_health = inr (inr (inl refl))
listed Router.get_satellites = inr (inr (inr (inl refl)))
listed Router.post_satellites = inr (inr (inr (inr (inl refl))))
listed Router.delete_satellites_id = inr (inr (inr (inr (inr (inl refl)))))
listed Router.get_satellites_id = inr (inr (inr (inr (inr (inr (inl refl))))))
listed Router.patch_satellites_id = inr (inr (inr (inr (inr (inr (inr (inl refl)))))))
listed Router.post_satellites_id_heartbeat =
    inr (inr (inr (inr (inr (inr (inr (inr (inl refl))))))))
listed Router.get_users = inr (inr (inr (inr (inr (inr (inr (inr (inr (inl refl)))))))))
listed Router.post_users = inr (inr (inr (inr (inr (inr (inr (inr (inr (inr (inl refl))))))))))
listed Router.delete_users_id =
    inr (inr (inr (inr (inr (inr (inr (inr (inr (inr (inr (inl refl)))))))))))
listed Router.get_version =
    inr (inr (inr (inr (inr (inr (inr (inr (inr (inr (inr (inr (inl refl))))))))))))

module _ {S : Type 0} (parts : Parts S) (decimal : ℕ → String) where
  -- The same outcome; or the id in the path is refused, and where the generated server answers 400
  -- the router panics.
  abbrev pub SameOrPanics : Endpoint → Handler S → Request → S → Type 0
  SameOrPanics e h r s =
      (unguarded parts e r s ≡ h r s)
      ⊎ ((e' : Error) × (parts.wire.bind_uuid (r.url_param "id") ≡ err e')
          × (h r s ≡ (
            http_error
                (String.◌++◌ "Invalid format for parameter "
                  (String.◌++◌ "id" (String.◌++◌ ": " (message e'))))
                400,
            s,
          ))
          × (unguarded parts e r s
              ≡ (panicked "runtime error: invalid memory address or nil pointer dereference", s)))

  abbrev pub Agrees : Request → S → Endpoint → Route S → Type 0
  Agrees r s e route =
      (registered e ≡ (route.method, route.pattern)) × SameOrPanics e route.handler r s

  abbrev generated : ServerInterfaceWrapper S
  generated = Routes.wrapper_of parts.wire decimal parts.server Routes.no_options

  -- A wrapper that binds an id, with the router's error handler and with the generated default.
  bound-Same :
      (e : Endpoint) (h : Uuid → Handler S) (r : Request) (s : S) (o : Result Uuid)
      → parts.wire.bind_uuid (r.url_param "id") ≡ o
      → unguarded parts e r s ≡ serve_bound (new_wrapper parts.server) h o r s
      → SameOrPanics e (λ r s. serve_bound generated h o r s) r s
  unfolding param_error_text invalid_param_format_text
  bound-Same e h r s (ok id) bound same = inl same
  bound-Same e h r s (err e') refused same = inr (e', refused, refl, same)

  module _ (r : Request) (s : S) where
    abbrev id : Result Uuid
    id = parts.wire.bind_uuid (r.url_param "id")

    -- The router registers the operations of the OpenAPI document as the generated Handler does,
    -- in method, pattern and what a request comes to behind the middlewares, but for an id that
    -- the path binder refuses, where the generated server answers 400 and the router panics; every
    -- other route of the router is GET /openapi.yaml or GET /docs and goes, without a token, to
    -- the handler of that document.
    pub handler-Agrees :
        Pairwise (Agrees r s) operations (Routes.handler parts.wire decimal parts.server)
        × ((e : Endpoint) → (on_documents e ≡ true) ⊎ IsAmong e operations)
        × (registered Router.get_openapi ≡ ("GET", "/openapi.yaml"))
        × (registered Router.get_docs ≡ ("GET", "/docs"))
        × (route parts Router.get_openapi r s ≡ parts.serve_spec r s)
        × (route parts Router.get_docs r s ≡ parts.serve_ui r s)
    unfolding route Routes.handler Wrapper.post_auth_login Wrapper.get_health Wrapper.get_version
        Wrapper.post_satellites Wrapper.get_satellites Wrapper.get_satellites_id
        Wrapper.patch_satellites_id Wrapper.delete_satellites_id
        Wrapper.post_satellites_id_heartbeat Wrapper.post_users Wrapper.get_users
        Wrapper.delete_users_id
    handler-Agrees = (
      (
        (refl, inl refl),
        (
          (refl, inl refl),
          (
            (refl, inl refl),
            (
              (refl, inl refl),
              (
                (
                  refl,
                  bound-Same Router.delete_satellites_id parts.server.delete_satellites_id r s id
                      refl refl,
                ),
                (
                  (
                    refl,
                    bound-Same Router.get_satellites_id parts.server.get_satellites_id r s id refl
                        refl,
                  ),
                  (
                    (
                      refl,
                      bound-Same Router.patch_satellites_id parts.server.patch_satellites_id r s id
                          refl refl,
                    ),
                    (
                      (
                        refl,
                        bound-Same Router.post_satellites_id_heartbeat
                            parts.server.post_satellites_id_heartbeat r s id refl refl,
                      ),
                      (
                        (refl, inl refl),
                        (
                          (refl, inl refl),
                          (
                            (
                              refl,
                              bound-Same Router.delete_users_id parts.server.delete_users_id r s id
                                  refl refl,
                            ),
                            ((refl, inl refl), tt),
                          ),
                        ),
                      ),
                    ),
                  ),
                ),
              ),
            ),
          ),
        ),
      ),
      listed,
      refl,
      refl,
      refl,
      refl,
    )
