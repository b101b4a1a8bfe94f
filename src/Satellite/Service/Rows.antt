-- ===== src/Satellite/Service/Rows.antt =====
-- What the Satellite service returns from a well-formed table: Satellites as the table holds them.
use fleetcontrol.Common.{
  ◌≡◌, refl, inl, inr, String, Bool, Option, none, some, Bool-cases, Option-cases, All, Action,
  proceed, Result, ok, err,
}
use fleetcontrol.Auth.Principal.{Uuid}
use fleetcontrol.Database.{Db, Call, Postgres, run_call, run_call_result, nil_on_no_rows}
use fleetcontrol.Database.Results.{
  Each, EachSome, EachAll, nil_on_no_rows-EachSome, scan_row-Each, All-order_by_time_desc,
}
use fleetcontrol.Database.Table.{taken, All-update}
use fleetcontrol.Gen.Models.{manual, pending}
use fleetcontrol.Satellite.Model.{Satellite}
use fleetcontrol.Satellite.Repository
use fleetcontrol.Satellite.Repository.{
  id_of, name_of, created_at_of, insert_satellite, select_by_id, select_all, update_region_where,
  update_seen_where, set_region, set_seen, get_by_id, update_region, update_heartbeat,
  postgres_repository,
}
use fleetcontrol.Satellite.Repository.Laws.{view, next}
use fleetcontrol.Satellite.Service
use fleetcontrol.Satellite.Service.{is_guarded, update_found}
use fleetcontrol.Satellite.Service.Runs.{get_by_id_keeps}
use fleetcontrol.Satellite.Steps.Invariant.{IsTracked, set_region-IsTracked, set_seen-IsTracked}

module _ (pg : Postgres) (db : Db) (rows : All IsTracked db.satellites) where
  -- An optional row that a statement scans.
  scanned :
      (run : Call → Action Db Satellite)
      → Each IsTracked (run (pg db.calls) (next db)).0
      → EachSome IsTracked (nil_on_no_rows (run_call (pg db.calls) run (next db)).0)
  scanned run ran =
      run_call_result (λ r. EachSome IsTracked (nil_on_no_rows r)) (pg db.calls) run (next db)
        (nil_on_no_rows-EachSome IsTracked _ ran) (λ text. tt)

  pub get_by_id-EachSome : (id : Uuid) → EachSome IsTracked (get_by_id pg id db).0
  unfolding get_by_id
  get_by_id-EachSome id =
      scanned (select_by_id id) (scan_row-Each IsTracked id_of id db.satellites rows)

  pub update_region-EachSome :
      (id : Uuid) (region : String) → EachSome IsTracked (update_region pg id region db).0
  unfolding update_region
  update_region-EachSome id region = scanned (update_region_where id region) (
      scan_row-Each IsTracked id_of id _ (
        All-update id_of IsTracked (set_region region) (set_region-IsTracked region) id
          db.satellites rows))

  pub update_heartbeat-EachSome : (id : Uuid) → EachSome IsTracked (update_heartbeat pg id db).0
  unfolding update_heartbeat
  update_heartbeat-EachSome id = scanned (update_seen_where id) (
      scan_row-Each IsTracked id_of id _ (
        All-update id_of IsTracked (set_seen (pg db.calls).now)
          (set_seen-IsTracked (pg db.calls).now) id db.satellites rows))

  pub list-EachAll : EachAll IsTracked (Repository.list pg db).0
  unfolding Repository.list
  list-EachAll =
      run_call_result (EachAll IsTracked) (pg db.calls) select_all (next db)
        (All-order_by_time_desc IsTracked created_at_of db.satellites rows) (λ text. tt)

  pub create-Each :
      (s : Satellite)
      → s.status ≡ pending
      → s.managed_by ≡ manual
      → Each IsTracked (Repository.create pg s db).0
  unfolding Repository.create
  create-Each s status owner =
      run_call_result (Each IsTracked) (pg db.calls) (insert_satellite s) (next db)
        (elim (Option-cases (view db (pg db.calls).fresh)) [
          | inr (old, used) ↦ rw (used, insert_satellite) tt
          | inl fresh ↦
              rw (fresh, insert_satellite)
                (elim (Bool-cases (taken name_of s.name db.satellites)) [
                  | inl there ↦ rw there tt
                  | inr free ↦ rw free (owner, inl (status, refl))
                ])
        ])
        (λ text. tt)

-- An update reads the row first.
module _ (pg : Postgres) (db : Db) (rows : All IsTracked db.satellites) where
  update_found-EachSome :
      (id : Uuid) (region : String) (op : Bool) (sat : Option Satellite)
      → EachSome IsTracked (update_found (postgres_repository pg) id region op sat (next db)).0
  update_found-EachSome id region op none = tt
  update_found-EachSome id region op (some sat) = elim (Bool-cases (is_guarded sat op)) [
    | inl guarded ↦ rw guarded tt
    | inr free ↦ rw free (update_region-EachSome pg (next db) rows id region)
  ]

  proceed-EachSome :
      (id : Uuid) (region : String) (op : Bool) (r : Result (Option Satellite))
      → EachSome IsTracked
          (proceed r (update_found (postgres_repository pg) id region op) (next db)).0
  proceed-EachSome id region op (ok sat) = update_found-EachSome id region op sat
  proceed-EachSome id region op (err e) = tt

  pub update-EachSome :
      (id : Uuid) (region : String) (op : Bool)
      → EachSome IsTracked (Service.update (postgres_repository pg) id region op db).0
  unfolding Service.update
  update-EachSome id region op =
      rw (get_by_id_keeps pg db id) (proceed-EachSome id region op (get_by_id pg id db).0)
