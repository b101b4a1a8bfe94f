-- ===== src/HttpServer/Adapter.antt =====
-- api/internal/httpserver/server.go: the generated interface on top of the handlers, which share one
-- database as api/cmd/server/main.go wires them.
use fleetcontrol.Common.{ℕ, String, Option, Error}
use fleetcontrol.Auth.Principal.{Uuid}
use fleetcontrol.Auth.Jwt.{Time, JwtLibrary, JwtManager}
use fleetcontrol.Auth.Login
use fleetcontrol.Gen.Server.{ServerInterface}
use fleetcontrol.Health
use fleetcontrol.Http.{Wire}
use fleetcontrol.Database.{Db, Postgres}
use fleetcontrol.Satellite.Handler.Runs as SatelliteRuns
use fleetcontrol.User.Handler.Runs as UserRuns
use fleetcontrol.User.Service.{Bcrypt}

-- The packages outside the repository that the handlers stand on.
pub record Packages : Type 0 where
  pub wire : Wire
  pub bcrypt : Bcrypt
  pub jwt : JwtLibrary
  pub postgres : Postgres
  pub uuid_text : Uuid → String

-- What one request finds: the clock, the salt that bcrypt draws, and what a ping of the pool returns.
pub record Moment : Type 0 where
  pub now : Time
  pub salt : ℕ
  pub ping : Option Error

abbrev pub new_server : Packages → JwtManager → Moment → ServerInterface Db
new_server p m t =
    let satellite = SatelliteRuns.handle p.wire p.postgres in
    let user = UserRuns.handle p.wire p.bcrypt p.postgres t.salt in
    record {
      post_auth_login = Login.login p.wire p.bcrypt p.jwt m p.postgres p.uuid_text t.now;
      get_health = Health.health t.ping;
      get_satellites = satellite SatelliteRuns.list;
      post_satellites = satellite SatelliteRuns.create;
      delete_satellites_id = λ _. satellite SatelliteRuns.delete;
      get_satellites_id = λ _. satellite SatelliteRuns.get_by_id;
      patch_satellites_id = λ _. satellite SatelliteRuns.update;
      post_satellites_id_heartbeat = λ _. satellite SatelliteRuns.heartbeat;
      get_users = user UserRuns.list;
      post_users = user UserRuns.create;
      delete_users_id = λ _. user UserRuns.delete;
      get_version = Health.version;
    }
