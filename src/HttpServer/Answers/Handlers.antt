-- ===== src/HttpServer/Answers/Handlers.antt =====
-- The handlers behind the routes.
use fleetcontrol.Common.{refl, String, Option, none, some, Error, Result, ok, err}
use fleetcontrol.Auth.Principal.{Uuid}
use fleetcontrol.Auth.Jwt.{JwtManager}
use fleetcontrol.Auth.Login.{
  login, login_decoded, row_reply, compared_reply, token_reply, query_user,
}
use fleetcontrol.Gen.Models.{LoginRequest, CreateUserRequest}
use fleetcontrol.Health
use fleetcontrol.Http.{Request}
use fleetcontrol.Database.{Db}
use fleetcontrol.Satellite.Handler as SatelliteHandler
use fleetcontrol.Satellite.Handler.{on_id, on_body}
use fleetcontrol.Satellite.Handler.Runs as SatelliteRuns
use fleetcontrol.User.Handler as UserHandler
use fleetcontrol.User.Handler.Runs as UserRuns
use fleetcontrol.User.Model.{User}
use fleetcontrol.HttpServer.Adapter.{Packages, Moment}
use fleetcontrol.HttpServer.Router
use fleetcontrol.HttpServer.Router.{
  Endpoint, Parts, unguarded, route, new_wrapper, with_token, with_admin,
}
use fleetcontrol.HttpServer.Answers.{statuses, Answers}
use fleetcontrol.HttpServer.Answers.Replies.{
  create_reply-Answers, list_reply-Answers, found_reply-Answers, update_reply-Answers,
  delete_reply-Answers, create_user_reply-Answers, list_users_reply-Answers,
  delete_user_reply-Answers, on_id-answers, on_body-answers,
}
use fleetcontrol.Satellite.Repository.{Repository, postgres_repository}
use fleetcontrol.Satellite.Service
use fleetcontrol.User.Repository as UserRepository
use fleetcontrol.User.Mapper.{create_params_from_request}
use fleetcontrol.Auth.Jwt.{generate_human_token}

-- The route that each handler is for.
abbrev pub satellite_route : SatelliteRuns.Operation → Endpoint
satellite_route SatelliteRuns.create = Router.post_satellites
satellite_route SatelliteRuns.list = Router.get_satellites
satellite_route SatelliteRuns.get_by_id = Router.get_satellites_id
satellite_route SatelliteRuns.update = Router.patch_satellites_id
satellite_route SatelliteRuns.delete = Router.delete_satellites_id
satellite_route SatelliteRuns.heartbeat = Router.post_satellites_id_heartbeat

abbrev pub user_route : UserRuns.Operation → Endpoint
user_route UserRuns.create = Router.post_users
user_route UserRuns.list = Router.get_users
user_route UserRuns.delete = Router.delete_users_id

module _ (p : Packages) (m : JwtManager) (t : Moment) (r : Request) (db : Db) where
  abbrev id : Option Uuid
  id = p.wire.parse_uuid (r.url_param "id")

  abbrev repo : Repository Db
  repo = postgres_repository p.postgres

  pub handle-Answers :
      (op : SatelliteRuns.Operation)
      → Answers (satellite_route op) (SatelliteRuns.handle p.wire p.postgres op r db).0
  unfolding SatelliteHandler.create SatelliteHandler.list SatelliteHandler.get_by_id
      SatelliteHandler.update SatelliteHandler.delete SatelliteHandler.heartbeat
  handle-Answers SatelliteRuns.create =
      on_body-answers (statuses Router.post_satellites) refl db
        (p.wire.decode_create_satellite r.body) _ λ req. create_reply-Answers _
  handle-Answers SatelliteRuns.list = list_reply-Answers _
  handle-Answers SatelliteRuns.get_by_id =
      on_id-answers (statuses Router.get_satellites_id) refl db id _
        λ a. found_reply-Answers "GET_FAILED" _
  handle-Answers SatelliteRuns.update =
      on_id-answers (statuses Router.patch_satellites_id) refl db id _ λ a.
        on_body-answers (statuses Router.patch_satellites_id) refl db
          (p.wire.decode_update_satellite r.body) _
          λ req.
            update_reply-Answers
              (Service.update repo a req.region (SatelliteHandler.from_operator r) db).0
  handle-Answers SatelliteRuns.delete =
      on_id-answers (statuses Router.delete_satellites_id) refl db id _
        λ a. delete_reply-Answers (Service.delete repo a (SatelliteHandler.from_operator r) db).0
  handle-Answers SatelliteRuns.heartbeat =
      on_id-answers (statuses Router.post_satellites_id_heartbeat) refl db id _
        λ a. found_reply-Answers "HEARTBEAT_FAILED" _

  created-Answers :
      (o : Option CreateUserRequest)
      → Answers Router.post_users
          (UserHandler.create_decoded p.wire p.bcrypt
            (UserRepository.postgres_repository p.postgres)
            t.salt
            o
            db).0
  unfolding create_params_from_request
  created-Answers none = refl
  created-Answers (some req) = create_user_reply-Answers _

  deleted-Answers :
      (o : Option Uuid)
      → Answers Router.delete_users_id
          (UserHandler.delete_parsed p.wire p.bcrypt
            (UserRepository.postgres_repository p.postgres)
            o
            db).0
  deleted-Answers none = refl
  deleted-Answers (some a) = delete_user_reply-Answers _

  pub handle_user-Answers :
      (op : UserRuns.Operation)
      → Answers (user_route op) (UserRuns.handle p.wire p.bcrypt p.postgres t.salt op r db).0
  unfolding UserHandler.create UserHandler.list UserHandler.delete
  handle_user-Answers UserRuns.create = created-Answers (p.wire.decode_create_user r.body)
  handle_user-Answers UserRuns.list = list_users_reply-Answers _
  handle_user-Answers UserRuns.delete = deleted-Answers id

  token_reply-Answers :
      (o : Result String)
      → Answers Router.post_auth_login
          (token_reply p.wire p.bcrypt p.jwt m p.postgres p.uuid_text o)
  token_reply-Answers (ok token) = refl
  token_reply-Answers (err e) = refl

  compared-Answers :
      (u : User) (o : Option Error)
      → Answers Router.post_auth_login
          (compared_reply p.wire p.bcrypt p.jwt m p.postgres p.uuid_text t.now u o)
  compared-Answers u none =
      token_reply-Answers (generate_human_token p.jwt m t.now (p.uuid_text u.id) u.role)
  compared-Answers u (some e) = refl

  row-Answers :
      (password : String) (o : Result User)
      → Answers Router.post_auth_login
          (row_reply p.wire p.bcrypt p.jwt m p.postgres p.uuid_text t.now password o)
  row-Answers password (ok u) =
      compared-Answers u (p.bcrypt.compare_hash_and_password u.password_hash password)
  row-Answers password (err e) = refl

  decoded-Answers :
      (o : Option LoginRequest)
      → Answers Router.post_auth_login
          (login_decoded p.wire p.bcrypt p.jwt m p.postgres p.uuid_text t.now o db).0
  decoded-Answers none = refl
  decoded-Answers (some req) =
      row-Answers req.password
        (query_user p.wire p.bcrypt p.jwt m p.postgres p.uuid_text req.username db).0

  pub login-Answers :
      Answers Router.post_auth_login
        (login p.wire p.bcrypt p.jwt m p.postgres p.uuid_text t.now r db).0
  unfolding login
  login-Answers = decoded-Answers (p.wire.decode_login r.body)

  ping-Answers : (o : Option Error) → Answers Router.get_health (Health.health o r db).0
  unfolding Health.health
  ping-Answers none = refl
  ping-Answers (some e) = refl

  pub health-Answers : Answers Router.get_health (Health.health t.ping r db).0
  health-Answers = ping-Answers t.ping
