-- ===== src/HttpServer/Declared/Handlers.antt =====
-- What the handlers write from a sound database.
use fleetcontrol.Common.{
  refl, String, Option, none, some, List, [], ◌∷◌, All, Error, Result, ok, err,
}
use fleetcontrol.Auth.Principal.{Uuid}
use fleetcontrol.Auth.Jwt.{JwtManager, generate_human_token}
use fleetcontrol.Auth.Login.{
  login, login_decoded, row_reply, compared_reply, token_reply, query_user,
}
use fleetcontrol.Database.{Db}
use fleetcontrol.Gen.Models.{LoginRequest, CreateUserRequest, pending, manual}
use fleetcontrol.Health
use fleetcontrol.Http.{Request, Handler}
use fleetcontrol.Satellite.Handler as SatelliteHandler
use fleetcontrol.Satellite.Handler.Runs as SatelliteRuns
use fleetcontrol.Satellite.Mapper.{to_domain_create}
use fleetcontrol.Satellite.Repository.{postgres_repository}
use fleetcontrol.Satellite.Service
use fleetcontrol.Satellite.Service.Rows as SatelliteRows
use fleetcontrol.User.Handler as UserHandler
use fleetcontrol.User.Handler.Runs as UserRuns
use fleetcontrol.User.Mapper.{create_params_from_request}
use fleetcontrol.User.Model.{User}
use fleetcontrol.User.Repository as UserRepository
use fleetcontrol.User.Service.Rows as UserRows
use fleetcontrol.User.Service.Rows.{HasRole}
use fleetcontrol.User.Service.{Bcrypt}
use fleetcontrol.User.Steps.{IsAccount}
use fleetcontrol.HttpServer.Adapter.{Packages, Moment}
use fleetcontrol.HttpServer.Declared.{Declares}
use fleetcontrol.HttpServer.Declared.Replies.{
  create_reply-Declares, list_reply-Declares, found_reply-Declares, update_reply-Declares,
  delete_reply-Declares, create_user_reply-Declares, list_users_reply-Declares,
  delete_user_reply-Declares, on_id-Declares, on_body-Declares,
}
use fleetcontrol.HttpServer.System.{IsSound}

roles_of : (bcrypt : Bcrypt) (users : List User) → All (IsAccount bcrypt) users → All HasRole users
roles_of bcrypt [] h = tt
roles_of bcrypt (u ∷ users) h = (h.0.0, roles_of bcrypt users h.1)

module _ (p : Packages) (m : JwtManager) (t : Moment) where
  -- From a sound database the handler writes declared values.
  abbrev pub Writes : Handler Db → Type 0
  Writes h = (r : Request) (db : Db) → IsSound p.bcrypt db → Declares (h r db).0

  pub satellite-Writes :
      (op : SatelliteRuns.Operation) → Writes (SatelliteRuns.handle p.wire p.postgres op)
  unfolding SatelliteHandler.create SatelliteHandler.list SatelliteHandler.get_by_id
      SatelliteHandler.update SatelliteHandler.delete SatelliteHandler.heartbeat Service.create
      Service.list Service.get_by_id Service.heartbeat
  satellite-Writes SatelliteRuns.create r db sound =
      on_body-Declares db (p.wire.decode_create_satellite r.body) _ λ req. create_reply-Declares _ (
        SatelliteRows.create-Each p.postgres db sound.fleet.rows
          (record (to_domain_create req) { status = pending; managed_by = manual }) refl refl)
  satellite-Writes SatelliteRuns.list r db sound =
      list_reply-Declares _ (SatelliteRows.list-EachAll p.postgres db sound.fleet.rows)
  satellite-Writes SatelliteRuns.get_by_id r db sound =
      on_id-Declares db (p.wire.parse_uuid (r.url_param "id")) _ λ a.
        found_reply-Declares "GET_FAILED" _
          (SatelliteRows.get_by_id-EachSome p.postgres db sound.fleet.rows a)
  satellite-Writes SatelliteRuns.update r db sound =
      on_id-Declares db (p.wire.parse_uuid (r.url_param "id")) _ λ a.
        on_body-Declares db (p.wire.decode_update_satellite r.body) _ λ req.
          update_reply-Declares _ (
            SatelliteRows.update-EachSome p.postgres db sound.fleet.rows a req.region
              (SatelliteHandler.from_operator r))
  satellite-Writes SatelliteRuns.delete r db sound =
      on_id-Declares db (p.wire.parse_uuid (r.url_param "id")) _ λ a.
        delete_reply-Declares
          (Service.delete (postgres_repository p.postgres) a (SatelliteHandler.from_operator r)
            db).0
  satellite-Writes SatelliteRuns.heartbeat r db sound =
      on_id-Declares db (p.wire.parse_uuid (r.url_param "id")) _ λ a.
        found_reply-Declares "HEARTBEAT_FAILED" _
          (SatelliteRows.update_heartbeat-EachSome p.postgres db sound.fleet.rows a)

  created-Declares :
      (o : Option CreateUserRequest) (db : Db)
      → Declares
          (UserHandler.create_decoded p.wire p.bcrypt
            (UserRepository.postgres_repository p.postgres)
            t.salt
            o
            db).0
  unfolding create_params_from_request
  created-Declares none db = refl
  created-Declares (some req) db =
      create_user_reply-Declares _ (UserRows.create-Each p.bcrypt p.postgres db t.salt _ _ _)

  deleted-Declares :
      (o : Option Uuid) (db : Db)
      → Declares
          (UserHandler.delete_parsed p.wire p.bcrypt
            (UserRepository.postgres_repository p.postgres)
            o
            db).0
  deleted-Declares none db = refl
  deleted-Declares (some a) db = delete_user_reply-Declares _

  pub user-Writes :
      (op : UserRuns.Operation) → Writes (UserRuns.handle p.wire p.bcrypt p.postgres t.salt op)
  unfolding UserHandler.create UserHandler.list UserHandler.delete
  user-Writes UserRuns.create r db sound = created-Declares (p.wire.decode_create_user r.body) db
  user-Writes UserRuns.list r db sound = list_users_reply-Declares _ (
      UserRows.list-EachAll p.bcrypt p.postgres db (roles_of p.bcrypt db.users sound.registry.rows))
  user-Writes UserRuns.delete r db sound =
      deleted-Declares (p.wire.parse_uuid (r.url_param "id")) db

  token_reply-Declares :
      (o : Result String) → Declares (token_reply p.wire p.bcrypt p.jwt m p.postgres p.uuid_text o)
  token_reply-Declares (ok token) = refl
  token_reply-Declares (err e) = refl

  compared-Declares :
      (u : User) (o : Option Error)
      → Declares (compared_reply p.wire p.bcrypt p.jwt m p.postgres p.uuid_text t.now u o)
  compared-Declares u none =
      token_reply-Declares (generate_human_token p.jwt m t.now (p.uuid_text u.id) u.role)
  compared-Declares u (some e) = refl

  row-Declares :
      (password : String) (o : Result User)
      → Declares (row_reply p.wire p.bcrypt p.jwt m p.postgres p.uuid_text t.now password o)
  row-Declares password (ok u) =
      compared-Declares u (p.bcrypt.compare_hash_and_password u.password_hash password)
  row-Declares password (err e) = refl

  decoded-Declares :
      (o : Option LoginRequest) (db : Db)
      → Declares (login_decoded p.wire p.bcrypt p.jwt m p.postgres p.uuid_text t.now o db).0
  decoded-Declares none db = refl
  decoded-Declares (some req) db =
      row-Declares req.password
        (query_user p.wire p.bcrypt p.jwt m p.postgres p.uuid_text req.username db).0

  pub login-Writes : Writes (login p.wire p.bcrypt p.jwt m p.postgres p.uuid_text t.now)
  unfolding login
  login-Writes r db sound = decoded-Declares (p.wire.decode_login r.body) db

  pub health-Writes : (o : Option Error) → Writes (Health.health o)
  unfolding Health.health
  health-Writes none r db sound = refl
  health-Writes (some e) r db sound = refl
