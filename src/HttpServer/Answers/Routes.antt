-- ===== src/HttpServer/Answers/Routes.antt =====
-- What a request on any route comes to.
use fleetcontrol.Common.{◌≡◌, refl, ◌⊎◌, inl, inr, String, true, Error, Result, ok, err}
use fleetcontrol.Auth.Principal.{Uuid, Principal}
use fleetcontrol.Auth.Jwt.{JwtManager}
use fleetcontrol.Auth.Middleware.{missing_token, rejected_token, insufficient_role, with_principal}
use fleetcontrol.Gen.Server.{serve_bound}
use fleetcontrol.Gen.Wrapper
use fleetcontrol.Health
use fleetcontrol.Docs
use fleetcontrol.Http.{Request, Outcome, Handler, panicked}
use fleetcontrol.Database.{Db}
use fleetcontrol.Satellite.Handler.Runs as SatelliteRuns
use fleetcontrol.User.Handler.Runs as UserRuns
use fleetcontrol.HttpServer.Adapter.{Packages, Moment, new_server}
use fleetcontrol.HttpServer.Router
use fleetcontrol.HttpServer.Router.{
  Endpoint, Parts, unguarded, route, new_wrapper, with_token, with_admin,
}
use fleetcontrol.HttpServer.Access.{Authenticates, with_token-verdict, with_admin-verdict}
use fleetcontrol.HttpServer.Answers.{on_an_id, Answers}
use fleetcontrol.HttpServer.System.{parts_of}
use fleetcontrol.HttpServer.Answers.Handlers.{
  satellite_route, handle-Answers, handle_user-Answers, login-Answers, health-Answers,
}

module _ (p : Packages) (m : JwtManager) (spec page : String) (t : Moment) where
  abbrev parts : Parts Db
  parts = parts_of p m spec page t

  -- The panic of the wrapper for an id in the path that the binder refuses.
  abbrev pub Panics : Endpoint → Request → Db → Outcome × Db → Type 0
  Panics e r db result =
      (on_an_id e ≡ true)
      × ((e' : Error) × (p.wire.bind_uuid (r.url_param "id") ≡ err e'))
      × (result ≡ (panicked "runtime error: invalid memory address or nil pointer dereference", db))

  abbrev pub RouteVerdict : Endpoint → Request → Db → Outcome × Db → Type 0
  RouteVerdict e r db result =
      Answers e result.0 ⊎ ((who : Principal) × Authenticates parts r who × Panics e r db result)

  abbrev HandlerVerdict : Endpoint → Request → Db → Outcome × Db → Type 0
  HandlerVerdict e r db result = Answers e result.0 ⊎ Panics e r db result

  bound-HandlerVerdict :
      (e : Endpoint) (h : Handler Db) (o : Result Uuid) (r : Request) (db : Db)
      → on_an_id e ≡ true
      → p.wire.bind_uuid (r.url_param "id") ≡ o
      → ((r' : Request) → Answers e (h r' db).0)
      → HandlerVerdict e r db (serve_bound (new_wrapper (new_server p m t)) (λ _. h) o r db)
  bound-HandlerVerdict e h (ok a) r db ids bound all = inl (all _)
  bound-HandlerVerdict e h (err e') r db ids bound all = inr (ids, (e', bound), refl)

  module _ (e : Endpoint) (r : Request) (db : Db) where
    token-RouteVerdict :
        (h : Handler Db)
        → Answers e missing_token
        → Answers e rejected_token
        → ((who : Principal)
            → HandlerVerdict e (with_principal r who) db (h (with_principal r who) db))
        → RouteVerdict e r db (with_token parts h r db)
    token-RouteVerdict h missing rejected all = elim (with_token-verdict parts h r db) [
      | inl (inl refused) ↦ rw refused (inl missing)
      | inl (inr refused) ↦ rw refused (inl rejected)
      | inr (who, known, runs) ↦ elim (all who) [
        | inl fine ↦ rw runs (inl fine)
        | inr panics ↦ rw runs (inr (who, known, panics))
      ]
    ]

    admin-RouteVerdict :
        (h : Handler Db)
        → Answers e missing_token
        → Answers e rejected_token
        → Answers e insufficient_role
        → ((who : Principal)
            → HandlerVerdict e (with_principal r who) db (h (with_principal r who) db))
        → RouteVerdict e r db (with_admin parts h r db)
    admin-RouteVerdict h missing rejected insufficient all =
        elim (with_admin-verdict parts h r db) [
          | inl (inl refused) ↦ rw refused (inl missing)
          | inl (inr refused) ↦ rw refused (inl rejected)
          | inr (inl stopped) ↦ rw stopped (inl insufficient)
          | inr (inr (who, known, _, runs)) ↦ elim (all who) [
            | inl fine ↦ rw runs (inl fine)
            | inr panics ↦ rw runs (inr (who, known, panics))
          ]
        ]

  -- A Satellite route with an id.
  satellite_id-HandlerVerdict :
      (op : SatelliteRuns.Operation) (r : Request) (db : Db)
      → on_an_id (satellite_route op) ≡ true
      → HandlerVerdict (satellite_route op) r db (
          serve_bound
            (new_wrapper (new_server p m t))
            (λ _. SatelliteRuns.handle p.wire p.postgres op)
            (p.wire.bind_uuid (r.url_param "id"))
            r
            db)
  satellite_id-HandlerVerdict op r db ids =
      bound-HandlerVerdict (satellite_route op) (SatelliteRuns.handle p.wire p.postgres op)
        (p.wire.bind_uuid (r.url_param "id")) r db ids refl (λ r'. handle-Answers p m t r' db op)

  -- Every request on every route is answered with one of the statuses of that route, whatever the
  -- database, bcrypt and golang-jwt do, unless the path binder refuses the id of an authenticated
  -- request: then the wrapper panics and the database is as it was.
  pub route-Answers :
      (e : Endpoint) (r : Request) (db : Db) → RouteVerdict e r db (route parts e r db)
  unfolding route Wrapper.post_auth_login Wrapper.get_health Wrapper.get_version
      Wrapper.post_satellites Wrapper.get_satellites Wrapper.get_satellites_id
      Wrapper.patch_satellites_id Wrapper.delete_satellites_id Wrapper.post_satellites_id_heartbeat
      Wrapper.post_users Wrapper.get_users Wrapper.delete_users_id Health.version Docs.serve_spec
      Docs.serve_ui
  route-Answers Router.post_auth_login r db = inl (login-Answers p m t r db)
  route-Answers Router.get_health r db = inl (health-Answers p m t r db)
  route-Answers Router.get_version r db = inl refl
  route-Answers Router.get_openapi r db = inl refl
  route-Answers Router.get_docs r db = inl refl
  route-Answers Router.post_satellites r db =
      token-RouteVerdict Router.post_satellites r db (unguarded parts Router.post_satellites) refl
        refl λ who. inl (handle-Answers p m t _ db SatelliteRuns.create)
  route-Answers Router.get_satellites r db =
      token-RouteVerdict Router.get_satellites r db (unguarded parts Router.get_satellites) refl
        refl λ who. inl (handle-Answers p m t _ db SatelliteRuns.list)
  route-Answers Router.get_satellites_id r db =
      token-RouteVerdict Router.get_satellites_id r db (unguarded parts Router.get_satellites_id)
        refl refl
        λ who. satellite_id-HandlerVerdict SatelliteRuns.get_by_id (with_principal r who) db refl
  route-Answers Router.patch_satellites_id r db =
      token-RouteVerdict Router.patch_satellites_id r db
        (unguarded parts Router.patch_satellites_id) refl refl
        λ who. satellite_id-HandlerVerdict SatelliteRuns.update (with_principal r who) db refl
  route-Answers Router.delete_satellites_id r db =
      token-RouteVerdict Router.delete_satellites_id r db
        (unguarded parts Router.delete_satellites_id) refl refl
        λ who. satellite_id-HandlerVerdict SatelliteRuns.delete (with_principal r who) db refl
  route-Answers Router.post_satellites_id_heartbeat r db =
      token-RouteVerdict Router.post_satellites_id_heartbeat r db
        (unguarded parts Router.post_satellites_id_heartbeat) refl refl
        λ who. satellite_id-HandlerVerdict SatelliteRuns.heartbeat (with_principal r who) db refl
  route-Answers Router.post_users r db =
      admin-RouteVerdict Router.post_users r db (unguarded parts Router.post_users) refl refl refl
        λ who. inl (handle_user-Answers p m t _ db UserRuns.create)
  route-Answers Router.get_users r db =
      admin-RouteVerdict Router.get_users r db (unguarded parts Router.get_users) refl refl refl
        λ who. inl (handle_user-Answers p m t _ db UserRuns.list)
  route-Answers Router.delete_users_id r db =
      admin-RouteVerdict Router.delete_users_id r db (unguarded parts Router.delete_users_id) refl
        refl refl
        λ who.
          bound-HandlerVerdict Router.delete_users_id
            (UserRuns.handle p.wire p.bcrypt p.postgres t.salt UserRuns.delete)
            (p.wire.bind_uuid (r.url_param "id")) (with_principal r who) db refl refl
            (λ r'. handle_user-Answers p m t r' db UserRuns.delete)
