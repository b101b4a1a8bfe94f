-- ===== src/HttpServer/System.antt =====
-- The server on its database: the invariants of both tables, over any sequence of requests.
use fleetcontrol.Common.{Result, ok, err, Error, String, Option, none, some, List, [], ◌∷◌, sym}
use mathlib.Core.Path.{subst}
use fleetcontrol.Auth.Jwt.{JwtManager}
use fleetcontrol.Auth.Login.{login, login_decoded, query_user}
use fleetcontrol.Gen.Models.{LoginRequest}
use fleetcontrol.Gen.Wrapper
use fleetcontrol.Health
use fleetcontrol.Docs
use fleetcontrol.Http.{Request, Outcome, Handler}
use fleetcontrol.Database.{Db, run_call_either}
use fleetcontrol.User.Repository.{select_by_username}
use fleetcontrol.Satellite.Repository.Laws.{next}
use fleetcontrol.Auth.Principal.{Uuid}
use fleetcontrol.Gen.Server.{serve_bound, with_scopes}
use fleetcontrol.Satellite.Steps.Invariant.{IsFleet, Step-IsFleet}
use fleetcontrol.Satellite.Handler.Runs as SatelliteRuns
use fleetcontrol.Satellite.Service.Runs as SatelliteService
use fleetcontrol.User.Steps.{IsRegistry, Step-IsRegistry}
use fleetcontrol.User.Handler.Runs as UserRuns
use fleetcontrol.User.Service.Runs as UserService
use fleetcontrol.User.Service.{Bcrypt}
use fleetcontrol.HttpServer.Adapter.{Packages, Moment, new_server}
use fleetcontrol.HttpServer.Router
use fleetcontrol.HttpServer.Router.{
  Endpoint, Parts, Pick, matched, unmatched, new_wrapper, unguarded, route, with_token, with_admin,
  picked, new_router,
}
use fleetcontrol.HttpServer.Guards.{route-Keeps}

-- Both tables are well formed.
pub record IsSound (bcrypt : Bcrypt) (db : Db) : Type 0 where
  pub fleet : IsFleet db.satellites
  pub registry : IsRegistry bcrypt db.users

abbrev pub Keeps : Bcrypt → Handler Db → Type 0
Keeps bcrypt h = (r : Request) (db : Db) → IsSound bcrypt db → IsSound bcrypt (h r db).1

-- The router of api/cmd/server/main.go, without its logger.
abbrev pub parts_of : Packages → JwtManager → String → String → Moment → Parts Db
parts_of p m spec page t = record {
  wire = p.wire;
  jwt = p.jwt;
  tokens = m;
  now = t.now;
  server = new_server p m t;
  serve_spec = Docs.serve_spec spec;
  serve_ui = Docs.serve_ui page;
}

module _ (bcrypt : Bcrypt) (db : Db) (sound : IsSound bcrypt db) where
  fleet_step :
      (result : Outcome × Db) → SatelliteService.OneStep db result → IsSound bcrypt result.1
  fleet_step result (step, users) = record {
    fleet = Step-IsFleet step sound.fleet;
    registry = subst (IsRegistry bcrypt) (sym users) sound.registry;
  }

  registry_step :
      (result : Outcome × Db) → UserService.OneStep bcrypt db result → IsSound bcrypt result.1
  registry_step result (step, satellites) = record {
    fleet = subst IsFleet (sym satellites) sound.fleet;
    registry = Step-IsRegistry step sound.registry;
  }

module _ (p : Packages) (m : JwtManager) (spec page : String) where
  module _ (t : Moment) where
    abbrev Kept : Handler Db → Type 0
    Kept = Keeps p.bcrypt

    abbrev parts : Parts Db
    parts = parts_of p m spec page t

    satellite-Kept :
        (op : SatelliteRuns.Operation) → Kept (SatelliteRuns.handle p.wire p.postgres op)
    satellite-Kept op r db sound =
        fleet_step p.bcrypt db sound (SatelliteRuns.handle p.wire p.postgres op r db)
          (SatelliteRuns.handle-OneStep p.wire p.postgres op r db)

    user-Kept :
        (op : UserRuns.Operation) → Kept (UserRuns.handle p.wire p.bcrypt p.postgres t.salt op)
    user-Kept op r db sound =
        registry_step p.bcrypt db sound (UserRuns.handle p.wire p.bcrypt p.postgres t.salt op r db)
          (UserRuns.handle_user-OneStep p.wire p.bcrypt p.postgres db t.salt op r)

    bound-Kept :
        (h : Handler Db) (id : Result Uuid)
        → Kept h
        → Kept (serve_bound (new_wrapper (new_server p m t)) (λ _. h) id)
    bound-Kept h (err e) keeps r db sound = sound
    bound-Kept h (ok id) keeps r db sound = keeps (with_scopes r) db sound

    satellite_bound :
        (op : SatelliteRuns.Operation) (r : Request) (db : Db)
        → IsSound p.bcrypt db
        → IsSound p.bcrypt
            (serve_bound
              (new_wrapper (new_server p m t))
              (λ _. SatelliteRuns.handle p.wire p.postgres op)
              (p.wire.bind_uuid (r.url_param "id"))
              r
              db).1
    satellite_bound op r =
        bound-Kept (SatelliteRuns.handle p.wire p.postgres op) (p.wire.bind_uuid (r.url_param "id"))
          (satellite-Kept op) r

    login_decoded-Kept :
        (o : Option LoginRequest) (db : Db)
        → IsSound p.bcrypt db
        → IsSound p.bcrypt
            (login_decoded p.wire p.bcrypt p.jwt m p.postgres p.uuid_text t.now o db).1
    unfolding query_user
    login_decoded-Kept none db sound = sound
    login_decoded-Kept (some req) db sound =
        run_call_either (IsSound p.bcrypt) (p.postgres db.calls) (select_by_username req.username)
          (next db) (record { fleet = sound.fleet; registry = sound.registry })
          (record { fleet = sound.fleet; registry = sound.registry })

    health-Kept : (ping : Option Error) → Kept (Health.health ping)
    unfolding Health.health
    health-Kept none r db sound = sound
    health-Kept (some e) r db sound = sound

    unguarded-Kept : (e : Endpoint) → Kept (unguarded parts e)
    unfolding Wrapper.post_auth_login Wrapper.get_health Wrapper.get_version Wrapper.post_satellites
        Wrapper.get_satellites Wrapper.get_satellites_id Wrapper.patch_satellites_id
        Wrapper.delete_satellites_id Wrapper.post_satellites_id_heartbeat Wrapper.post_users
        Wrapper.get_users Wrapper.delete_users_id Health.version Docs.serve_spec Docs.serve_ui login
    unguarded-Kept Router.post_auth_login r db sound =
        login_decoded-Kept (p.wire.decode_login r.body) db sound
    unguarded-Kept Router.get_health r db sound = health-Kept t.ping r db sound
    unguarded-Kept Router.get_version r db sound = sound
    unguarded-Kept Router.get_openapi r db sound = sound
    unguarded-Kept Router.get_docs r db sound = sound
    unguarded-Kept Router.post_satellites r db sound =
        satellite-Kept SatelliteRuns.create (with_scopes r) db sound
    unguarded-Kept Router.get_satellites r db sound =
        satellite-Kept SatelliteRuns.list (with_scopes r) db sound
    unguarded-Kept Router.get_satellites_id r db sound =
        satellite_bound SatelliteRuns.get_by_id r db sound
    unguarded-Kept Router.patch_satellites_id r db sound =
        satellite_bound SatelliteRuns.update r db sound
    unguarded-Kept Router.delete_satellites_id r db sound =
        satellite_bound SatelliteRuns.delete r db sound
    unguarded-Kept Router.post_satellites_id_heartbeat r db sound =
        satellite_bound SatelliteRuns.heartbeat r db sound
    unguarded-Kept Router.post_users r db sound = user-Kept UserRuns.create (with_scopes r) db sound
    unguarded-Kept Router.get_users r db sound = user-Kept UserRuns.list (with_scopes r) db sound
    unguarded-Kept Router.delete_users_id r db sound =
        bound-Kept (UserRuns.handle p.wire p.bcrypt p.postgres t.salt UserRuns.delete)
          (p.wire.bind_uuid (r.url_param "id")) (user-Kept UserRuns.delete) r db sound

    route-Kept : (e : Endpoint) → Kept (route parts e)
    route-Kept e r db sound =
        route-Keeps parts (λ _. Unit) (IsSound p.bcrypt) (λ _ _ q. q) e
          (λ r db _ sound. unguarded-Kept e r db sound) r db tt sound

    picked-Kept : (pick : Pick) → Kept (picked parts pick)
    picked-Kept (matched e) r db sound = route-Kept e r db sound
    picked-Kept (unmatched o) r db sound = sound

    new_router-Kept : (pick : Request → Pick) → Kept (new_router parts none pick)
    unfolding new_router
    new_router-Kept pick r = picked-Kept (pick r) r

  -- The requests one after the other, each with its moment.
  abbrev pub serve_all : (Request → Pick) → List (Moment × Request) → Db → Db
  serve_all pick [] db = db
  serve_all pick ((t, r) ∷ rest) db =
      serve_all pick rest (new_router (parts_of p m spec page t) none pick r db).1

  -- From a sound database, whatever requests reach the router, in whatever order and with whatever
  -- failures of the database, ids, names and usernames stay unique, every Satellite is Pending and
  -- unseen or Ready and seen and owned by manual, and every user has the role admin or viewer and
  -- a bcrypt hash.
  pub serve_all-IsSound :
      (pick : Request → Pick) (requests : List (Moment × Request)) (db : Db)
      → IsSound p.bcrypt db
      → IsSound p.bcrypt (serve_all pick requests db)
  serve_all-IsSound pick [] db sound = sound
  serve_all-IsSound pick ((t, r) ∷ rest) db sound =
      serve_all-IsSound pick rest _ (new_router-Kept t pick r db sound)
