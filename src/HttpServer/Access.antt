-- ===== src/HttpServer/Access.antt =====
-- Whom the routes let through, whatever the handlers behind them do.
use Prim.Native.String
use fleetcontrol.Common.{
  Error, err, ◌≡◌, ◌⊎◌, inl, inr, String, Bool, true, false, Option, some, ok, trim_prefix,
  starts_with, arith, ◌∙◌,
}
use fleetcontrol.Auth.Principal.{Principal, actor_human, role_admin}
use fleetcontrol.Auth.Principal.Invariant.{IsValid}
use fleetcontrol.Auth.Jwt.{parse_human_token}
use fleetcontrol.Auth.Middleware.{
  missing_token, rejected_token, insufficient_role, bearer, with_principal, require_human_role,
}
use fleetcontrol.Auth.Middleware.Access.{
  middleware-Admitted, middleware-bearer, require_human_role_iff,
}
use fleetcontrol.Gen.Wrapper
use fleetcontrol.Http.{Request, Outcome, Handler, panicked}
use fleetcontrol.HttpServer.Router
use fleetcontrol.HttpServer.Router.{Endpoint, Parts, unguarded, route, with_token, with_admin}

-- The routes on Satellites, those of them with an id, and the routes on users.
abbrev pub on_satellites : Endpoint → Bool
on_satellites Router.post_satellites = true
on_satellites Router.get_satellites = true
on_satellites Router.get_satellites_id = true
on_satellites Router.patch_satellites_id = true
on_satellites Router.delete_satellites_id = true
on_satellites Router.post_satellites_id_heartbeat = true
on_satellites e = false

abbrev pub on_satellite_id : Endpoint → Bool
on_satellite_id Router.get_satellites_id = true
on_satellite_id Router.patch_satellites_id = true
on_satellite_id Router.delete_satellites_id = true
on_satellite_id Router.post_satellites_id_heartbeat = true
on_satellite_id e = false

abbrev pub on_users : Endpoint → Bool
on_users Router.post_users = true
on_users Router.get_users = true
on_users Router.delete_users_id = true
on_users e = false

module _ {S : Type 0} (parts : Parts S) where
  -- The bearer token of a request authenticates a valid human.
  abbrev pub Authenticates : Request → Principal → Type 0
  Authenticates r p =
      (starts_with (r.header "Authorization") bearer ≡ true)
      × (parse_human_token parts.jwt parts.tokens parts.now
            (trim_prefix (r.header "Authorization") bearer)
          ≡ ok p)
      × IsValid p
      × (p.kind ≡ actor_human)

  abbrev pub Unauthorized : S → Outcome × S → Type 0
  Unauthorized s result = (result ≡ (missing_token, s)) ⊎ (result ≡ (rejected_token, s))

  abbrev pub TokenVerdict : Handler S → Request → S → Outcome × S → Type 0
  TokenVerdict h r s result =
      Unauthorized s result
      ⊎ ((p : Principal) × Authenticates r p × (result ≡ h (with_principal r p) s))

  abbrev pub AdminVerdict : Handler S → Request → S → Outcome × S → Type 0
  AdminVerdict h r s result =
      Unauthorized s result
      ⊎ ((result ≡ (insufficient_role, s))
          ⊎ ((p : Principal) × Authenticates r p
              × (p.role ≡ role_admin)
              × (result ≡ h (with_principal r p) s)))

  pub with_token-verdict :
      (h : Handler S) (r : Request) (s : S) → TokenVerdict h r s (with_token parts h r s)
  with_token-verdict h r s = elim (middleware-Admitted parts.jwt parts.tokens parts.now h r s) [
    | inl refused ↦ inl refused
    | inr (p, parsed, starts, valid, is_human, runs) ↦
        inr (p, (starts, parsed, valid, is_human), runs)
  ]

  same_principal : (p q : Principal) → ◌≡◌ {A = Option Principal} (some p) (some q) → q ≡ p
  same_principal p q e = ground arith

  pub with_admin-verdict :
      (h : Handler S) (r : Request) (s : S) → AdminVerdict h r s (with_admin parts h r s)
  with_admin-verdict h r s = elim (with_token-verdict (require_human_role role_admin h) r s) [
    | inl refused ↦ inl refused
    | inr (p, who, runs) ↦ elim (require_human_role_iff role_admin h (with_principal r p) s) [
      | inl stopped ↦ inr (inl (runs ∙ stopped))
      | inr (q, somebody, valid, is_human, is_admin, passed) ↦
          let is_role : p.role ≡ role_admin = rw (same_principal p q somebody) at is_admin in
          inr (inr (p, who, is_role, runs ∙ passed))
    ]
  ]

  -- A request on a Satellite route is answered 401 and changes nothing, or its bearer token
  -- authenticates a valid human and the handler of the route runs for that human.
  pub route-on_satellites :
      (e : Endpoint) (r : Request) (s : S)
      → on_satellites e ≡ true
      → TokenVerdict (unguarded parts e) r s (route parts e r s)
  unfolding route
  route-on_satellites Router.post_satellites r s h = with_token-verdict _ r s
  route-on_satellites Router.get_satellites r s h = with_token-verdict _ r s
  route-on_satellites Router.get_satellites_id r s h = with_token-verdict _ r s
  route-on_satellites Router.patch_satellites_id r s h = with_token-verdict _ r s
  route-on_satellites Router.delete_satellites_id r s h = with_token-verdict _ r s
  route-on_satellites Router.post_satellites_id_heartbeat r s h = with_token-verdict _ r s
  route-on_satellites _ r s h = cc

  -- A request on a user route is answered 401 or 403 and changes nothing, or its bearer token
  -- authenticates a valid human with the role admin and the handler of the route runs for that
  -- human.
  pub route-on_users :
      (e : Endpoint) (r : Request) (s : S)
      → on_users e ≡ true
      → AdminVerdict (unguarded parts e) r s (route parts e r s)
  unfolding route
  route-on_users Router.post_users r s h = with_admin-verdict _ r s
  route-on_users Router.get_users r s h = with_admin-verdict _ r s
  route-on_users Router.delete_users_id r s h = with_admin-verdict _ r s
  route-on_users _ r s h = cc

  -- An authenticated request on a Satellite whose id the path binder refuses makes the server
  -- panic, and no handler runs.
  pub route_panics :
      (e : Endpoint) (r : Request) (s : S) (token : String) (p : Principal) (e' : Error)
      → on_satellite_id e ≡ true
      → r.header "Authorization" ≡ String.◌++◌ bearer token
      → parse_human_token parts.jwt parts.tokens parts.now token ≡ ok p
      → parts.wire.bind_uuid (r.url_param "id") ≡ err e'
      → route parts e r s
        ≡ (panicked "runtime error: invalid memory address or nil pointer dereference", s)
  unfolding route Wrapper.get_satellites_id Wrapper.patch_satellites_id Wrapper.delete_satellites_id
      Wrapper.post_satellites_id_heartbeat
  route_panics Router.get_satellites_id r s token p e' h sent parsed bad =
      rw (middleware-bearer parts.jwt parts.tokens parts.now _ r s token sent, parsed, bad)
  route_panics Router.patch_satellites_id r s token p e' h sent parsed bad =
      rw (middleware-bearer parts.jwt parts.tokens parts.now _ r s token sent, parsed, bad)
  route_panics Router.delete_satellites_id r s token p e' h sent parsed bad =
      rw (middleware-bearer parts.jwt parts.tokens parts.now _ r s token sent, parsed, bad)
  route_panics Router.post_satellites_id_heartbeat r s token p e' h sent parsed bad =
      rw (middleware-bearer parts.jwt parts.tokens parts.now _ r s token sent, parsed, bad)
  route_panics _ r s token p e' h sent parsed bad = cc
