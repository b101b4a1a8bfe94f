-- ===== src/Tests/Users.antt =====
-- The theorems on users at a small registry.
use fleetcontrol.Common.{◌≡◌, ok, refl, inr, none, ◌∷◌}
use fleetcontrol.Auth.Principal.{role_viewer}
use fleetcontrol.Http.{Payload, write_json}
use fleetcontrol.Satellite.Repository.Laws.{next}
use fleetcontrol.User.Model.{User}
use fleetcontrol.User.Repository.{postgres_repository}
use fleetcontrol.User.Service
use fleetcontrol.User.Service.{new_user}
use fleetcontrol.User.Service.Spec.{accounts, Created, create-Implements}
use fleetcontrol.User.Mapper.{to_response}
use fleetcontrol.User.Handler
use fleetcontrol.User.Handler.Replies.{create_user-answer}
use fleetcontrol.Tests.Fixtures.{fleet_db, healthy_pg, bcrypt, wire, request}

abbrev bob : User
bob = record {
  id = 10;
  username = "bob";
  password_hash = "hash";
  role = role_viewer;
  created_at = 5;
}

create_user-answer_example :
    Handler.create wire bcrypt (postgres_repository healthy_pg) 0 (request "" "{}") fleet_db ≡ (
      write_json 201 (Payload.user (to_response bob)),
      record (next fleet_db) { users = bob ∷ fleet_db.users },
    )
create_user-answer_example =
    create_user-answer wire bcrypt healthy_pg 0 (request "" "{}") fleet_db
      (record { password = "secret"; role = none; username = "bob" }) "hash" refl refl (inr refl)
      refl refl refl

-- A second user in the registry of the fixture, and a name that is held.
create-Implements_example :
    Created
      (healthy_pg fleet_db.calls)
      "bob"
      role_viewer
      (ok "hash")
      (accounts fleet_db)
      (Service.create bcrypt
        (postgres_repository healthy_pg)
        0
        "bob"
        "secret"
        role_viewer
        fleet_db).0
      (accounts
        (Service.create bcrypt
          (postgres_repository healthy_pg)
          0
          "bob"
          "secret"
          role_viewer
          fleet_db).1)
create-Implements_example =
    create-Implements healthy_pg fleet_db refl bcrypt 0 "bob" "secret" role_viewer (refl, tt) refl
