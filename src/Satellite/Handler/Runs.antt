-- ===== src/Satellite/Handler/Runs.antt =====
-- Every run of a Satellite handler is at most one step of the table, whatever the database does.
use fleetcontrol.Common.{refl, Option, none, some}
use fleetcontrol.Auth.Principal.{Uuid}
use fleetcontrol.Http.{Request, Outcome, Wire}
use fleetcontrol.Database.{Db, Postgres}
use fleetcontrol.Satellite.Repository.{postgres_repository}
use fleetcontrol.Satellite.Steps.{unchanged}
use fleetcontrol.Satellite.Service.Runs.{
  OneStep, get_by_id_keeps, list_keeps, create-OneStep, update-OneStep, delete-OneStep,
  update_heartbeat-OneStep,
}
use fleetcontrol.Satellite.Mapper.{to_domain_create}
use fleetcontrol.Satellite.Handler
use fleetcontrol.Satellite.Handler.{from_operator, on_id, on_body}
use fleetcontrol.Gen.Models.{pending, manual}

module _ (db : Db) where
  on_id-OneStep :
      (o : Option Uuid) (k : Uuid → Db → Outcome × Db)
      → ((id : Uuid) → OneStep db (k id db))
      → OneStep db (on_id o k db)
  on_id-OneStep none k ks = (unchanged, refl)
  on_id-OneStep (some id) k ks = ks id

  on_body-OneStep :
      {B : Type 0} (o : Option B) (k : B → Db → Outcome × Db)
      → ((b : B) → OneStep db (k b db))
      → OneStep db (on_body o k db)
  on_body-OneStep none k ks = (unchanged, refl)
  on_body-OneStep (some b) k ks = ks b

-- The handlers of api/internal/satellite.
pub data Operation : Type 0 where
  create list get_by_id update delete heartbeat : Operation

abbrev pub handle : Wire → Postgres → Operation → Request → Db → Outcome × Db
handle wire pg create = Handler.create wire (postgres_repository pg)
handle wire pg list = Handler.list wire (postgres_repository pg)
handle wire pg get_by_id = Handler.get_by_id wire (postgres_repository pg)
handle wire pg update = Handler.update wire (postgres_repository pg)
handle wire pg delete = Handler.delete wire (postgres_repository pg)
handle wire pg heartbeat = Handler.heartbeat wire (postgres_repository pg)

-- Every Satellite handler, on every request and whatever the database does, is at most one step of
-- the satellites table, and changes no user.
pub handle-OneStep :
    (wire : Wire) (pg : Postgres) (op : Operation) (r : Request) (db : Db)
    → OneStep db (handle wire pg op r db)
unfolding Handler.create Handler.list Handler.get_by_id Handler.update Handler.delete
    Handler.heartbeat
handle-OneStep wire pg create r db =
    on_body-OneStep db (wire.decode_create_satellite r.body) _ λ req.
      create-OneStep pg db (record (to_domain_create req) { status = pending; managed_by = manual })
        refl refl
handle-OneStep wire pg list r db = rw (list_keeps pg db) (unchanged, refl)
handle-OneStep wire pg get_by_id r db =
    on_id-OneStep db (wire.parse_uuid (r.url_param "id")) _
      λ id. rw (get_by_id_keeps pg db id) (unchanged, refl)
handle-OneStep wire pg update r db = on_id-OneStep db (wire.parse_uuid (r.url_param "id")) _ λ id.
    on_body-OneStep db (wire.decode_update_satellite r.body) _
      λ req. update-OneStep pg db id req.region (from_operator r)
handle-OneStep wire pg delete r db =
    on_id-OneStep db (wire.parse_uuid (r.url_param "id")) _
      λ id. delete-OneStep pg db id (from_operator r)
handle-OneStep wire pg heartbeat r db =
    on_id-OneStep db (wire.parse_uuid (r.url_param "id")) _ λ id. update_heartbeat-OneStep pg db id
