-- ===== src/HttpServer/Ownership.antt =====
-- The Satellites of the operator on the whole server, whatever requests reach it without its mark.
use fleetcontrol.Common.{
  ◌≡◌, String, Bool, true, false, Option, none, some, List, [], ◌∷◌, All, Error, Result, ok, err,
  arith,
}
use fleetcontrol.Auth.Principal.{Uuid}
use fleetcontrol.Auth.Jwt.{JwtManager}
use fleetcontrol.Auth.Login.{login, login_decoded, query_user}
use fleetcontrol.Gen.Models.{LoginRequest, operator, manual, pending}
use fleetcontrol.Gen.Server.{serve_bound, with_scopes}
use fleetcontrol.Gen.Wrapper
use fleetcontrol.Health
use fleetcontrol.Docs
use fleetcontrol.Http.{Request, Outcome, Handler}
use fleetcontrol.Database.{Db, run_call_either}
use fleetcontrol.Satellite.Model.{Satellite}
use fleetcontrol.Satellite.Mapper.{to_domain_create}
use fleetcontrol.Satellite.Repository.{postgres_repository}
use fleetcontrol.Satellite.Repository.Laws.{next}
use fleetcontrol.Satellite.Service
use fleetcontrol.Satellite.Service.Runs.{get_by_id_keeps, list_keeps}
use fleetcontrol.Satellite.Service.Owned.{Has, create-Has, update-Has, delete-Has}
use fleetcontrol.Satellite.Handler as SatelliteHandler
use fleetcontrol.Satellite.Handler.{from_operator, on_id, on_body}
use fleetcontrol.Satellite.Handler.Runs as SatelliteRuns
use fleetcontrol.User.Handler.Runs as UserRuns
use fleetcontrol.User.Repository.{select_by_username}
use fleetcontrol.HttpServer.Adapter.{Packages, Moment, new_server}
use fleetcontrol.HttpServer.Router
use fleetcontrol.HttpServer.Router.{
  Endpoint, Parts, Pick, matched, unmatched, new_wrapper, unguarded, route, picked, new_router,
}
use fleetcontrol.HttpServer.Guards.{Keeps, route-Keeps}
use fleetcontrol.HttpServer.System.{parts_of, serve_all}

-- A request without the mark of the operator, on another route than a heartbeat.
abbrev pub IsUnmarked : Request → Type 0
IsUnmarked r = from_operator r ≡ false

abbrev pub is_heartbeat : Pick → Bool
is_heartbeat (matched Router.post_satellites_id_heartbeat) = true
is_heartbeat pick = false

abbrev pub IsForeign : (Request → Pick) → Moment × Request → Type 0
IsForeign pick (t, r) = IsUnmarked r × (is_heartbeat (pick r) ≡ false)

module _ (p : Packages) (m : JwtManager) (spec page : String) (id : Uuid) (sat : Satellite)
    (owned : sat.managed_by ≡ operator) where
  on_id-Has :
      (o : Option Uuid) (k : Uuid → Db → Outcome × Db) (db : Db)
      → Has id sat db
      → ((a : Uuid) → Has id sat (k a db).1)
      → Has id sat (on_id o k db).1
  on_id-Has none k db has all = has
  on_id-Has (some a) k db has all = all a

  on_body-Has :
      {B : Type 0} (o : Option B) (k : B → Db → Outcome × Db) (db : Db)
      → Has id sat db
      → ((b : B) → Has id sat (k b db).1)
      → Has id sat (on_body o k db).1
  on_body-Has none k db has all = has
  on_body-Has (some b) k db has all = all b

  module _ (t : Moment) where
    abbrev Kept : Handler Db → Type 0
    Kept = Keeps IsUnmarked (Has id sat)

    create-Kept : Kept (SatelliteRuns.handle p.wire p.postgres SatelliteRuns.create)
    unfolding SatelliteHandler.create
    create-Kept r db q has = on_body-Has (p.wire.decode_create_satellite r.body) _ db has λ req.
        create-Has id sat p.postgres db has
          (record (to_domain_create req) { status = pending; managed_by = manual })

    list-Kept : Kept (SatelliteRuns.handle p.wire p.postgres SatelliteRuns.list)
    unfolding SatelliteHandler.list
    list-Kept r db q has = rw (list_keeps p.postgres db) has

    get-Kept : Kept (SatelliteRuns.handle p.wire p.postgres SatelliteRuns.get_by_id)
    unfolding SatelliteHandler.get_by_id
    get-Kept r db q has =
        on_id-Has (p.wire.parse_uuid (r.url_param "id")) _ db has
          λ a. rw (get_by_id_keeps p.postgres db a) has

    unmarked_update-Has :
        (k : Uuid) (region : String) (op : Bool) (db : Db)
        → op ≡ false
        → Has id sat db
        → Has id sat (Service.update (postgres_repository p.postgres) k region op db).1
    unmarked_update-Has k region op db unmarked has =
        rw unmarked (update-Has id sat p.postgres db has owned k region)

    update-Kept : Kept (SatelliteRuns.handle p.wire p.postgres SatelliteRuns.update)
    unfolding SatelliteHandler.update
    update-Kept r db q has = on_id-Has (p.wire.parse_uuid (r.url_param "id")) _ db has λ a.
        on_body-Has (p.wire.decode_update_satellite r.body) _ db has
          λ req. unmarked_update-Has a req.region (from_operator r) db q has

    delete-Kept : Kept (SatelliteRuns.handle p.wire p.postgres SatelliteRuns.delete)
    unfolding SatelliteHandler.delete
    delete-Kept r db q has = rw q (
        on_id-Has (p.wire.parse_uuid (r.url_param "id")) _ db has
          λ a. delete-Has id sat p.postgres db has owned a)

    user-Kept :
        (op : UserRuns.Operation) → Kept (UserRuns.handle p.wire p.bcrypt p.postgres t.salt op)
    user-Kept op r db q has =
        let step = UserRuns.handle_user-OneStep p.wire p.bcrypt p.postgres db t.salt op r in
        rw step.1 has

    login_decoded-Has :
        (o : Option LoginRequest) (db : Db)
        → Has id sat db
        → Has id sat (login_decoded p.wire p.bcrypt p.jwt m p.postgres p.uuid_text t.now o db).1
    unfolding query_user
    login_decoded-Has none db has = has
    login_decoded-Has (some req) db has =
        run_call_either (Has id sat) (p.postgres db.calls) (select_by_username req.username)
          (next db) has has

    health-Has : (ping : Option Error) → Kept (Health.health ping)
    unfolding Health.health
    health-Has none r db q has = has
    health-Has (some e) r db q has = has

    bound-Kept :
        (h : Handler Db) (o : Result Uuid)
        → Kept h
        → Kept (serve_bound (new_wrapper (new_server p m t)) (λ _. h) o)
    bound-Kept h (err e) keeps r db q has = has
    bound-Kept h (ok a) keeps r db q has = keeps (with_scopes r) db q has

    abbrev parts : Parts Db
    parts = parts_of p m spec page t

    unguarded-Kept : (e : Endpoint) → is_heartbeat (matched e) ≡ false → Kept (unguarded parts e)
    unfolding Wrapper.post_auth_login Wrapper.get_health Wrapper.get_version Wrapper.post_satellites
        Wrapper.get_satellites Wrapper.get_satellites_id Wrapper.patch_satellites_id
        Wrapper.delete_satellites_id Wrapper.post_users Wrapper.get_users Wrapper.delete_users_id
        Health.version Docs.serve_spec Docs.serve_ui login
    unguarded-Kept Router.post_auth_login foreign r db q has =
        login_decoded-Has (p.wire.decode_login r.body) db has
    unguarded-Kept Router.get_health foreign r db q has = health-Has t.ping r db q has
    unguarded-Kept Router.get_version foreign r db q has = has
    unguarded-Kept Router.get_openapi foreign r db q has = has
    unguarded-Kept Router.get_docs foreign r db q has = has
    unguarded-Kept Router.post_satellites foreign r db q has = create-Kept (with_scopes r) db q has
    unguarded-Kept Router.get_satellites foreign r db q has = list-Kept (with_scopes r) db q has
    unguarded-Kept Router.get_satellites_id foreign r db q has =
        bound-Kept (SatelliteRuns.handle p.wire p.postgres SatelliteRuns.get_by_id)
          (p.wire.bind_uuid (r.url_param "id")) get-Kept r db q has
    unguarded-Kept Router.patch_satellites_id foreign r db q has =
        bound-Kept (SatelliteRuns.handle p.wire p.postgres SatelliteRuns.update)
          (p.wire.bind_uuid (r.url_param "id")) update-Kept r db q has
    unguarded-Kept Router.delete_satellites_id foreign r db q has =
        bound-Kept (SatelliteRuns.handle p.wire p.postgres SatelliteRuns.delete)
          (p.wire.bind_uuid (r.url_param "id")) delete-Kept r db q has
    unguarded-Kept Router.post_satellites_id_heartbeat foreign r db q has = absurd (ground arith)
    unguarded-Kept Router.post_users foreign r db q has =
        user-Kept UserRuns.create (with_scopes r) db q has
    unguarded-Kept Router.get_users foreign r db q has =
        user-Kept UserRuns.list (with_scopes r) db q has
    unguarded-Kept Router.delete_users_id foreign r db q has =
        bound-Kept (UserRuns.handle p.wire p.bcrypt p.postgres t.salt UserRuns.delete)
          (p.wire.bind_uuid (r.url_param "id")) (user-Kept UserRuns.delete) r db q has

    picked-Kept : (pick : Pick) → is_heartbeat pick ≡ false → Kept (picked parts pick)
    picked-Kept (matched e) foreign r db q has =
        route-Keeps parts IsUnmarked (Has id sat) (λ _ _ q. q) e (unguarded-Kept e foreign) r db q
          has
    picked-Kept (unmatched o) foreign r db q has = has

    pub new_router-Has :
        (pick : Request → Pick) (r : Request) (db : Db)
        → IsForeign pick (t, r)
        → Has id sat db
        → Has id sat (new_router parts none pick r db).1
    unfolding new_router
    new_router-Has pick r db (q, foreign) has = picked-Kept (pick r) foreign r db q has

  -- Whatever requests reach the router, in whatever order and with whatever failures of the
  -- database, a Satellite of the operator stays in the database as it is, if none of them carries
  -- the mark of the operator and none is a heartbeat.
  pub serve_all-Has :
      (pick : Request → Pick) (requests : List (Moment × Request)) (db : Db)
      → All (IsForeign pick) requests
      → Has id sat db
      → Has id sat (serve_all p m spec page pick requests db)
  serve_all-Has pick [] db all has = has
  serve_all-Has pick ((t, r) ∷ rest) db (foreign, all) has =
      serve_all-Has pick rest _ all (new_router-Has t pick r db foreign has)
