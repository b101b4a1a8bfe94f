-- ===== src/Tests/Satellites.antt =====
-- The theorems on Satellites at a small fleet.
use mathlib.Core.List.{Perm}
use fleetcontrol.Database.Table.{NewestFirst}
use fleetcontrol.Common.{List, map, ◌≡◌, refl, false, none, some, ◌∷◌}
use fleetcontrol.Gen.Models.{pending, manual}
use fleetcontrol.Http.{Payload, write_json}
use fleetcontrol.Satellite.Model.{Satellite}
use fleetcontrol.Satellite.Repository.{postgres_repository, created_at_of}
use fleetcontrol.Satellite.Repository.Laws.{view, next}
use fleetcontrol.Satellite.Service
use fleetcontrol.Satellite.Service.Spec.{
  Implements, update_spec, delete_spec, heartbeat_spec, update-Implements, delete-Implements,
  heartbeat-Implements,
}
use fleetcontrol.Satellite.Service.Guard.{Refused, update_guarded}
use fleetcontrol.Satellite.Handler
use fleetcontrol.Satellite.Handler.{from_operator}
use fleetcontrol.Satellite.Handler.Replies.{
  body_of, beaten_answer, patched_answer, deleted_answer, create-answer, list-answer,
  heartbeat-answer, update-answer, delete-answer,
}
use fleetcontrol.Tests.Fixtures.{edge, core, fleet_db, healthy_pg, down_pg, wire, request}

update-Implements_example :
    Implements
      (Service.update (postgres_repository healthy_pg) 1 "dn" false fleet_db)
      (update_spec 1 "dn" false (view fleet_db))
update-Implements_example = update-Implements healthy_pg fleet_db refl 1 "dn" false refl

delete-Implements_example :
    Implements
      (Service.delete (postgres_repository healthy_pg) 2 false fleet_db)
      (delete_spec 2 false (view fleet_db))
delete-Implements_example = delete-Implements healthy_pg fleet_db refl 2 false refl

heartbeat-Implements_example :
    Implements
      (Service.heartbeat (postgres_repository healthy_pg) 1 fleet_db)
      (heartbeat_spec 5 1 (view fleet_db))
heartbeat-Implements_example = heartbeat-Implements healthy_pg fleet_db refl 1

update_guarded_example :
    Refused fleet_db (Service.update (postgres_repository down_pg) 2 "dn" false fleet_db)
update_guarded_example = update_guarded down_pg fleet_db 2 core refl "dn" refl

abbrev made : Satellite
made = record {
  id = 10;
  name = "edge-2";
  region = "dn";
  status = pending;
  managed_by = manual;
  last_seen_at = none;
  created_at = 5;
}

create-answer_example :
    Handler.create wire (postgres_repository healthy_pg) (request "" "{}") fleet_db ≡ (
      write_json 201 (Payload.satellite (body_of made)),
      record (next fleet_db) { satellites = made ∷ fleet_db.satellites },
    )
create-answer_example =
    create-answer wire healthy_pg (request "" "{}") fleet_db refl
      (record { name = "edge-2"; region = "dn" }) refl refl refl

update-answer_example :
    (Handler.update wire (postgres_repository healthy_pg) (request "1" "{}") fleet_db).0
    ≡ patched_answer "dn" (from_operator (request "1" "{}")) (some edge)
update-answer_example =
    update-answer wire healthy_pg (request "1" "{}") fleet_db refl refl 1 refl
      (record { region = "dn" }) refl

delete-answer_example :
    (Handler.delete wire (postgres_repository healthy_pg) (request "2" "") fleet_db).0
    ≡ deleted_answer (from_operator (request "2" "")) (some core)
delete-answer_example = delete-answer wire healthy_pg (request "2" "") fleet_db refl refl 2 refl

list-answer_example :
    (rows : List Satellite) × (Handler.list wire
        (postgres_repository healthy_pg)
        (request "" "")
        fleet_db
      ≡ (write_json 200 (Payload.satellites (map body_of rows)), next fleet_db))
    × Perm rows fleet_db.satellites
    × NewestFirst created_at_of rows
list-answer_example = list-answer wire healthy_pg (request "" "") fleet_db refl

heartbeat-answer_example :
    (Handler.heartbeat wire (postgres_repository healthy_pg) (request "1" "") fleet_db).0
    ≡ beaten_answer 5 (some edge)
heartbeat-answer_example = heartbeat-answer wire healthy_pg (request "1" "") fleet_db refl 1 refl
