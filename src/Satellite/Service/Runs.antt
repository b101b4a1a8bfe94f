-- ===== src/Satellite/Service/Runs.antt =====
-- Every run of the service over PostgreSQL is at most one step of the table, whatever the database
-- does: a call may fail before its statement, or after it.
use fleetcontrol.Common.{
  Action, proceed, ◌≡◌, refl, inl, inr, String, Bool, Option, none, some, Bool-cases, Option-cases,
  Result, ok, err,
}
use fleetcontrol.Auth.Principal.{Uuid}
use fleetcontrol.Database.{run_call, Db, Call, Postgres, run_call_either}
use fleetcontrol.Database.Table.{taken}
use fleetcontrol.Gen.Models.{manual, pending}
use fleetcontrol.Satellite.Model.{Satellite}
use fleetcontrol.Satellite.Repository
use fleetcontrol.Satellite.Repository.{
  id_of, name_of, insert_satellite, select_by_id, select_all, update_region_where, delete_where,
  update_seen_where, set_region, set_seen, get_by_id, update_region, delete_satellite,
  update_heartbeat, postgres_repository,
}
use fleetcontrol.Satellite.Repository.Laws.{view, next}
use fleetcontrol.Satellite.Steps.{Step, unchanged, created, moved, seen, deleted}
use fleetcontrol.Satellite.Service
use fleetcontrol.Satellite.Service.{is_guarded, update_found, delete_found}

-- The state after an action is one step of the table away, and the users are as they were.
abbrev pub OneStep : {A : Type 0} → Db → A × Db → Type 0
OneStep db (_, db') = Step db.satellites db'.satellites × (db'.users ≡ db.users)

module _ (pg : Postgres) (db : Db) where
  abbrev After : Db → Type 0
  After d = Step db.satellites d.satellites × (d.users ≡ db.users)

  pub get_by_id_keeps : (id : Uuid) → (get_by_id pg id db).1 ≡ next db
  unfolding get_by_id
  get_by_id_keeps id =
      run_call_either (λ d. d ≡ next db) (pg db.calls) (select_by_id id) (next db) refl refl

  insert-OneStep :
      (s : Satellite)
      → s.status ≡ pending
      → s.managed_by ≡ manual
      → After (insert_satellite s (pg db.calls) (next db)).1
  insert-OneStep s status owner = elim (Option-cases (view db (pg db.calls).fresh)) [
    | inr (old, used) ↦ rw (used, insert_satellite) (unchanged, refl)
    | inl fresh ↦
        rw (fresh, insert_satellite)
          (elim (Bool-cases (taken name_of s.name db.satellites)) [
            | inl there ↦ rw there (unchanged, refl)
            | inr free ↦ rw free (created (pg db.calls) s fresh free status owner, refl)
          ])
  ]

  sent :
      {A : Type 0} (run : Call → Action Db A)
      → After (run (pg db.calls) (next db)).1
      → After (run_call (pg db.calls) run (next db)).1
  sent run ran = run_call_either After (pg db.calls) run (next db) (unchanged, refl) ran

  pub create-OneStep :
      (s : Satellite)
      → s.status ≡ pending
      → s.managed_by ≡ manual
      → OneStep db (Repository.create pg s db)
  unfolding Repository.create
  create-OneStep s status owner = sent (insert_satellite s) (insert-OneStep s status owner)

  update_region-OneStep : (id : Uuid) (region : String) → OneStep db (update_region pg id region db)
  unfolding update_region
  update_region-OneStep id region = sent (update_region_where id region) (moved id region, refl)

  delete_satellite-OneStep : (id : Uuid) → OneStep db (delete_satellite pg id db)
  unfolding delete_satellite
  delete_satellite-OneStep id = sent (delete_where id) (deleted id, refl)

  pub update_heartbeat-OneStep : (id : Uuid) → OneStep db (update_heartbeat pg id db)
  unfolding update_heartbeat
  update_heartbeat-OneStep id = sent (update_seen_where id) (seen id (pg db.calls).now, refl)

  pub list_keeps : (Repository.list pg db).1 ≡ next db
  unfolding Repository.list
  list_keeps = run_call_either (λ d. d ≡ next db) (pg db.calls) select_all (next db) refl refl

-- What follows a read of the row, by what the read returned.
module _ (pg : Postgres) (db : Db) (id : Uuid) where
  update_found-OneStep :
      (region : String) (op : Bool) (sat : Option Satellite)
      → OneStep db (update_found (postgres_repository pg) id region op sat (next db))
  update_found-OneStep region op none = (unchanged, refl)
  update_found-OneStep region op (some sat) = elim (Bool-cases (is_guarded sat op)) [
    | inl guarded ↦ rw guarded (unchanged, refl)
    | inr free ↦ rw free (update_region-OneStep pg (next db) id region)
  ]

  delete_found-OneStep :
      (op : Bool) (sat : Option Satellite)
      → OneStep db (delete_found (postgres_repository pg) id op sat (next db))
  delete_found-OneStep op none = (unchanged, refl)
  delete_found-OneStep op (some sat) = elim (Bool-cases (is_guarded sat op)) [
    | inl guarded ↦ rw guarded (unchanged, refl)
    | inr free ↦ rw free (delete_satellite-OneStep pg (next db) id)
  ]

  -- A bind takes the step of its second action, if its first one changes no row.
  read_then :
      {A B : Type 0} (r : Result A) (k : A → Action Db B)
      → ((a : A) → OneStep db (k a (next db)))
      → OneStep db (proceed r k (next db))
  read_then (ok a) k ks = ks a
  read_then (err e) k ks = (unchanged, refl)

  pub update-OneStep :
      (region : String) (op : Bool)
      → OneStep db (Service.update (postgres_repository pg) id region op db)
  unfolding Service.update
  update-OneStep region op = rw (get_by_id_keeps pg db id) (
      read_then (get_by_id pg id db).0 (update_found (postgres_repository pg) id region op)
        (update_found-OneStep region op))

  pub delete-OneStep : (op : Bool) → OneStep db (Service.delete (postgres_repository pg) id op db)
  unfolding Service.delete
  delete-OneStep op = rw (get_by_id_keeps pg db id) (
      read_then (get_by_id pg id db).0 (delete_found (postgres_repository pg) id op)
        (delete_found-OneStep op))
