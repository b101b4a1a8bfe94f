-- ===== src/HttpServer/Declared/Routes.antt =====
-- What any route writes from a sound database.
use fleetcontrol.Common.{refl, inl, inr, String, Result, ok, err, List}
use fleetcontrol.Auth.Principal.{Uuid}
use fleetcontrol.Auth.Jwt.{JwtManager}
use fleetcontrol.Auth.Middleware.{with_principal}
use fleetcontrol.Database.{Db}
use fleetcontrol.Docs
use fleetcontrol.Gen.Server.{serve_bound, with_scopes}
use fleetcontrol.Gen.Wrapper
use fleetcontrol.Health
use fleetcontrol.Http.{Request, Handler}
use fleetcontrol.Satellite.Handler.Runs as SatelliteRuns
use fleetcontrol.User.Handler.Runs as UserRuns
use fleetcontrol.HttpServer.Access.{with_token-verdict, with_admin-verdict}
use fleetcontrol.HttpServer.Adapter.{Packages, Moment, new_server}
use fleetcontrol.HttpServer.Declared.{Declares}
use fleetcontrol.HttpServer.Declared.Handlers.{
  Writes, satellite-Writes, user-Writes, login-Writes, health-Writes,
}
use fleetcontrol.HttpServer.Router
use fleetcontrol.HttpServer.Router.{
  Endpoint, Parts, Pick, unguarded, route, new_wrapper, with_token, with_admin,
}
use fleetcontrol.HttpServer.System.{IsSound, parts_of, serve_all, serve_all-IsSound}

module _ (p : Packages) (m : JwtManager) (spec page : String) (t : Moment) where
  abbrev parts : Parts Db
  parts = parts_of p m spec page t

  abbrev Declared : Handler Db → Type 0
  Declared = Writes p m t

  token-Declared : (h : Handler Db) → Declared h → Declared (with_token parts h)
  token-Declared h writes r db sound = elim (with_token-verdict parts h r db) [
    | inl (inl refused) ↦ rw refused refl
    | inl (inr refused) ↦ rw refused refl
    | inr (who, _, runs) ↦ rw runs (writes (with_principal r who) db sound)
  ]

  admin-Declared : (h : Handler Db) → Declared h → Declared (with_admin parts h)
  admin-Declared h writes r db sound = elim (with_admin-verdict parts h r db) [
    | inl (inl refused) ↦ rw refused refl
    | inl (inr refused) ↦ rw refused refl
    | inr (inl stopped) ↦ rw stopped refl
    | inr (inr (who, _, _, runs)) ↦ rw runs (writes (with_principal r who) db sound)
  ]

  bound-Declared :
      (h : Handler Db) (id : Result Uuid)
      → Declared h
      → Declared (serve_bound (new_wrapper (new_server p m t)) (λ _. h) id)
  bound-Declared h (err e) writes r db sound = refl
  bound-Declared h (ok id) writes r db sound = writes (with_scopes r) db sound

  -- The handlers behind the wrappers of routes with an id, and of others with a credential.
  module _ (op : SatelliteRuns.Operation) where
    abbrev satellite : Handler Db
    satellite = SatelliteRuns.handle p.wire p.postgres op

    satellite_id : Declared (λ r.
        serve_bound
          (new_wrapper (new_server p m t))
          (λ _. satellite)
          (p.wire.bind_uuid (r.url_param "id"))
          r)
    satellite_id r =
        bound-Declared satellite (p.wire.bind_uuid (r.url_param "id")) (satellite-Writes p m t op) r

    satellite_scoped : Declared (λ r. satellite (with_scopes r))
    satellite_scoped r = satellite-Writes p m t op (with_scopes r)

  module _ (op : UserRuns.Operation) where
    abbrev user : Handler Db
    user = UserRuns.handle p.wire p.bcrypt p.postgres t.salt op

    user_id : Declared (λ r.
        serve_bound
          (new_wrapper (new_server p m t))
          (λ _. user)
          (p.wire.bind_uuid (r.url_param "id"))
          r)
    user_id r = bound-Declared user (p.wire.bind_uuid (r.url_param "id")) (user-Writes p m t op) r

    user_scoped : Declared (λ r. user (with_scopes r))
    user_scoped r = user-Writes p m t op (with_scopes r)

  route-Declared : (e : Endpoint) → Declared (route parts e)
  unfolding route Wrapper.post_auth_login Wrapper.get_health Wrapper.get_version
      Wrapper.post_satellites Wrapper.get_satellites Wrapper.get_satellites_id
      Wrapper.patch_satellites_id Wrapper.delete_satellites_id Wrapper.post_satellites_id_heartbeat
      Wrapper.post_users Wrapper.get_users Wrapper.delete_users_id Health.version Docs.serve_spec
      Docs.serve_ui
  route-Declared Router.post_auth_login = login-Writes p m t
  route-Declared Router.get_health = health-Writes p m t t.ping
  route-Declared Router.get_version = λ r db sound. refl
  route-Declared Router.get_openapi = λ r db sound. refl
  route-Declared Router.get_docs = λ r db sound. refl
  route-Declared Router.post_satellites =
      token-Declared (unguarded parts Router.post_satellites)
        (satellite_scoped SatelliteRuns.create)
  route-Declared Router.get_satellites =
      token-Declared (unguarded parts Router.get_satellites) (satellite_scoped SatelliteRuns.list)
  route-Declared Router.get_satellites_id =
      token-Declared (unguarded parts Router.get_satellites_id)
        (satellite_id SatelliteRuns.get_by_id)
  route-Declared Router.patch_satellites_id =
      token-Declared (unguarded parts Router.patch_satellites_id)
        (satellite_id SatelliteRuns.update)
  route-Declared Router.delete_satellites_id =
      token-Declared (unguarded parts Router.delete_satellites_id)
        (satellite_id SatelliteRuns.delete)
  route-Declared Router.post_satellites_id_heartbeat =
      token-Declared (unguarded parts Router.post_satellites_id_heartbeat)
        (satellite_id SatelliteRuns.heartbeat)
  route-Declared Router.post_users =
      admin-Declared (unguarded parts Router.post_users) (user_scoped UserRuns.create)
  route-Declared Router.get_users =
      admin-Declared (unguarded parts Router.get_users) (user_scoped UserRuns.list)
  route-Declared Router.delete_users_id =
      admin-Declared (unguarded parts Router.delete_users_id) (user_id UserRuns.delete)

module _ (p : Packages) (m : JwtManager) (spec page : String) where
  -- From a sound database, after any requests in any order and whatever the database does, every
  -- body of a Satellite that a route writes has one of the declared statuses and one of the
  -- declared owners, and every body of a user has one of the declared roles.
  pub served-Declares :
      (pick : Request → Pick) (requests : List (Moment × Request)) (db : Db) (t : Moment)
      (e : Endpoint) (r : Request)
      → IsSound p.bcrypt db
      → Declares (route (parts_of p m spec page t) e r (serve_all p m spec page pick requests db)).0
  served-Declares pick requests db t e r sound =
      route-Declared p m spec page t e r (serve_all p m spec page pick requests db)
        (serve_all-IsSound p m spec page pick requests db sound)
