-- ===== src/Satellite/Repository.antt =====
-- api/internal/satellite/repository.go: the interface, and its implementation over PostgreSQL with
-- the SQL statements of each method on the table of migration 000001.
pub mod Laws
use fleetcontrol.Common.{
  String, ◌||◌, Option, none, some, List, ◌∷◌, if◌then◌else◌, Result, ok, err, Action,
}
use fleetcontrol.Auth.Principal.{Uuid}
use fleetcontrol.Auth.Jwt.{Time}
use fleetcontrol.Gen.Models.{ready}
use fleetcontrol.Database.{Db, Call, Postgres, statement, scan_row, nil_on_no_rows, duplicate_key}
use fleetcontrol.Database.Table.{find, update, delete, taken, order_by_time_desc}
use fleetcontrol.Satellite.Model.{Satellite}

-- A nil *Satellite is `none`.
pub record Repository (S : Type 0) : Type 0 where
  pub create : Satellite → Action S Satellite
  pub get_by_id : Uuid → Action S (Option Satellite)
  pub list : Action S (List Satellite)
  pub update : Uuid → String → Action S (Option Satellite)
  pub delete : Uuid → Action S Unit
  pub update_heartbeat : Uuid → Action S (Option Satellite)

abbrev pub id_of : Satellite → Uuid
id_of s = s.id

abbrev pub name_of : Satellite → String
name_of s = s.name

abbrev pub created_at_of : Satellite → Time
created_at_of s = s.created_at

-- The row of INSERT … (name, region, status, managed_by), with the defaults of the other columns.
abbrev pub inserted_row : Call → Satellite → Satellite
inserted_row c s = record {
  id = c.fresh;
  name = s.name;
  region = s.region;
  status = s.status;
  managed_by = s.managed_by;
  last_seen_at = none;
  created_at = c.now;
}

-- The INSERT fails on a primary key or a name that is there.
abbrev pub insert_satellite : Satellite → Call → Action Db Satellite
insert_satellite s c db = elim (find id_of c.fresh db.satellites) [
  | some _ ↦ (err (duplicate_key "satellites_pkey"), db)
  | none ↦
      if taken name_of s.name db.satellites
      then (err (duplicate_key "satellites_name_key"), db)
      else (ok (inserted_row c s), record db { satellites = inserted_row c s ∷ db.satellites })
]

abbrev pub set_region : String → Satellite → Satellite
set_region region s = record s { region = region }

abbrev pub set_seen : Time → Satellite → Satellite
set_seen now s = record s { status = ready; last_seen_at = some now }

-- UPDATE … WHERE id = $ RETURNING: the row as it is afterwards.
abbrev pub update_satellite : Uuid → (Satellite → Satellite) → Action Db Satellite
update_satellite id f db =
    let rows = update id_of id f db.satellites in
    (scan_row (find id_of id rows), record db { satellites = rows })

-- The other statements of the repository.
abbrev pub select_by_id : Uuid → Call → Action Db Satellite
select_by_id id c db = (scan_row (find id_of id db.satellites), db)

abbrev pub select_all : Call → Action Db (List Satellite)
select_all c db = (ok (order_by_time_desc created_at_of db.satellites), db)

abbrev pub update_region_where : Uuid → String → Call → Action Db Satellite
update_region_where id region c = update_satellite id (set_region region)

abbrev pub update_seen_where : Uuid → Call → Action Db Satellite
update_seen_where id c = update_satellite id (set_seen c.now)

abbrev pub delete_where : Uuid → Call → Action Db Unit
delete_where id c db = (ok tt, record db { satellites = delete id_of id db.satellites })

-- `return nil, nil` for no row, applied to what a statement returned.
abbrev pub or_nil : {A : Type 0} → Action Db A → Action Db (Option A)
or_nil m db = (nil_on_no_rows (m db).0, (m db).1)

module _ (pg : Postgres) where
  unfoldable pub create : Satellite → Action Db Satellite
  unfolding statement
  create s = statement pg (insert_satellite s)

  unfoldable pub get_by_id : Uuid → Action Db (Option Satellite)
  unfolding statement
  get_by_id id = or_nil (statement pg (select_by_id id))

  unfoldable pub list : Action Db (List Satellite)
  unfolding statement
  list = statement pg select_all

  unfoldable pub update_region : Uuid → String → Action Db (Option Satellite)
  unfolding statement
  update_region id region = or_nil (statement pg (update_region_where id region))

  unfoldable pub delete_satellite : Uuid → Action Db Unit
  unfolding statement
  delete_satellite id = statement pg (delete_where id)

  unfoldable pub update_heartbeat : Uuid → Action Db (Option Satellite)
  unfolding statement
  update_heartbeat id = or_nil (statement pg (update_seen_where id))

  -- NewPostgresRepository
  abbrev pub postgres_repository : Repository Db
  postgres_repository = record {
    create = create;
    get_by_id = get_by_id;
    list = list;
    update = update_region;
    delete = delete_satellite;
    update_heartbeat = update_heartbeat;
  }
