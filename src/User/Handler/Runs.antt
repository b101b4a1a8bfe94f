-- ===== src/User/Handler/Runs.antt =====
-- Every run of a user handler is at most one step of the users table, whatever the database does.
use fleetcontrol.Common.{ℕ, refl, Option, none, some}
use fleetcontrol.Auth.Principal.{Uuid}
use fleetcontrol.Gen.Models.{CreateUserRequest}
use fleetcontrol.Http.{Request, Outcome, Wire}
use fleetcontrol.Database.{Db, Postgres}
use fleetcontrol.User.Repository.{postgres_repository}
use fleetcontrol.User.Steps.{unchanged}
use fleetcontrol.User.Service.{Bcrypt}
use fleetcontrol.User.Service.Runs.{OneStep, create-OneStep, list-OneStep, delete-OneStep}
use fleetcontrol.User.Mapper.{create_params_from_request}
use fleetcontrol.User.Handler
use fleetcontrol.User.Handler.{create_decoded, delete_parsed}

-- The handlers of api/internal/user.
pub data Operation : Type 0 where
  create list delete : Operation

abbrev pub handle : Wire → Bcrypt → Postgres → ℕ → Operation → Request → Db → Outcome × Db
handle wire bcrypt pg salt create = Handler.create wire bcrypt (postgres_repository pg) salt
handle wire bcrypt pg salt list = Handler.list wire bcrypt (postgres_repository pg)
handle wire bcrypt pg salt delete = Handler.delete wire bcrypt (postgres_repository pg)

module _ (wire : Wire) (bcrypt : Bcrypt) (pg : Postgres) (db : Db) where
  decoded-OneStep :
      (salt : ℕ) (o : Option CreateUserRequest)
      → OneStep bcrypt db (create_decoded wire bcrypt (postgres_repository pg) salt o db)
  unfolding create_params_from_request
  decoded-OneStep salt none = (unchanged, refl)
  decoded-OneStep salt (some req) = create-OneStep bcrypt pg db salt _ _ _

  parsed-OneStep :
      (o : Option Uuid)
      → OneStep bcrypt db (delete_parsed wire bcrypt (postgres_repository pg) o db)
  parsed-OneStep none = (unchanged, refl)
  parsed-OneStep (some id) = delete-OneStep bcrypt pg db id

  -- Every user handler, on every request and whatever the database does, is at most one step of
  -- the users table, and changes no Satellite.
  pub handle_user-OneStep :
      (salt : ℕ) (op : Operation) (r : Request)
      → OneStep bcrypt db (handle wire bcrypt pg salt op r db)
  unfolding Handler.create Handler.list Handler.delete
  handle_user-OneStep salt create r = decoded-OneStep salt (wire.decode_create_user r.body)
  handle_user-OneStep salt list r = list-OneStep bcrypt pg db
  handle_user-OneStep salt delete r = parsed-OneStep (wire.parse_uuid (r.url_param "id"))
