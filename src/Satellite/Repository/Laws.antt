-- ===== src/Satellite/Repository/Laws.antt =====
-- What each method of the PostgreSQL repository does to the fleet, a map from ids to Satellites.
use mathlib.Core.Option
use fleetcontrol.Common.{
  suc, ◌≡◌, refl, inl, inr, String, true, false, Option, none, ◌∷◌, eqb, if◌then◌else◌, arith,
  Option-cases, Bool-cases, external, ok, err,
}
use fleetcontrol.Auth.Principal.{Uuid}
use fleetcontrol.Database.{Db, healthy, Postgres}
use fleetcontrol.Database.Table.{
  find, update, delete, taken, order_by_time_desc, find-update, find-delete,
}
use fleetcontrol.Satellite.Model.{Satellite}
use fleetcontrol.Satellite.Repository.{
  id_of, name_of, created_at_of, inserted_row, set_region, set_seen, create, get_by_id, list,
  update_region, delete_satellite, update_heartbeat,
}

abbrev pub Fleet : Type 0
Fleet = Uuid → Option Satellite

abbrev pub view : Db → Fleet
view db id = find id_of id db.satellites

-- The fleet with the Satellite under one id replaced.
abbrev pub put : Fleet → Uuid → Option Satellite → Fleet
put fleet k s j = if eqb k j then s else fleet j

-- The next statement runs and its reply arrives.
abbrev pub Up : Postgres → Db → Type 0
Up pg db = (pg db.calls).fault ≡ healthy

abbrev pub next : Db → Db
next db = record db { calls = suc db.calls }

module _ (pg : Postgres) (db : Db) (up : Up pg db) where
  pub get_by_id_lem : (id : Uuid) → get_by_id pg id db ≡ (ok (view db id), next db)
  unfolding get_by_id
  get_by_id_lem id = ground (arith, up)

  pub update_region_lem :
      (id : Uuid) (region : String)
      → update_region pg id region db ≡ (
        ok (Option.map (set_region region) (view db id)),
        record (next db) { satellites = update id_of id (set_region region) db.satellites },
      )
  unfolding update_region
  update_region_lem id region =
      ground (arith, find-update id_of (set_region region) (λ s. refl) id id db.satellites)

  pub heartbeat_lem :
      (id : Uuid)
      → let now = (pg db.calls).now in
        update_heartbeat pg id db ≡ (
          ok (Option.map (set_seen now) (view db id)),
          record (next db) { satellites = update id_of id (set_seen now) db.satellites },
        )
  unfolding update_heartbeat
  heartbeat_lem id =
      ground (arith, find-update id_of (set_seen (pg db.calls).now) (λ s. refl) id id db.satellites)

  pub delete_satellite_lem :
      (id : Uuid)
      → delete_satellite pg id db
        ≡ (ok tt, record (next db) { satellites = delete id_of id db.satellites })
  unfolding delete_satellite
  delete_satellite_lem id = ground (arith, up)

  pub list_lem : list pg db ≡ (ok (order_by_time_desc created_at_of db.satellites), next db)
  unfolding list
  list_lem = ground (arith, up)

  pub create_lem :
      (s : Satellite)
      → view db (pg db.calls).fresh ≡ none
      → taken name_of s.name db.satellites ≡ false
      → let row = inserted_row (pg db.calls) s in
        create pg s db ≡ (ok row, record (next db) { satellites = row ∷ db.satellites })
  unfolding create
  create_lem s fresh free = ground (arith, up)

  -- An INSERT that meets a name that is there changes no row.
  pub create_duplicate :
      (s : Satellite)
      → taken name_of s.name db.satellites ≡ true
      → (text : String) × (create pg s db ≡ (err (external text), next db))
  unfolding create
  create_duplicate s there = elim (Option-cases (view db (pg db.calls).fresh)) [
    | inl free ↦ ("satellites_name_key", ground arith)
    | inr (old, used) ↦ ("satellites_pkey", ground arith)
  ]

-- The fleet after a statement on one id.
module _ (db : Db) (id : Uuid) where
  pub view-update :
      (f : Satellite → Satellite) (same : (s : Satellite) → id_of (f s) ≡ id_of s) (j : Uuid)
      → find id_of j (update id_of id f db.satellites)
        ≡ put (view db) id (Option.map f (view db id)) j
  view-update f same j = elim (Bool-cases (eqb id j)) [
    | inl here ↦
        let e : id ≡ j = ground arith in rw (find-update id_of f same j id db.satellites, here, e)
    | inr there ↦ rw (find-update id_of f same j id db.satellites, there)
  ]

  pub view-delete :
      (j : Uuid) → find id_of j (delete id_of id db.satellites) ≡ put (view db) id none j
  view-delete j = find-delete id_of j id db.satellites
