-- ===== src/Satellite/Service/Owned.antt =====
-- A Satellite of the operator, under the calls that do not carry its mark and whatever the database
-- does.
use fleetcontrol.Common.{
  ◌≡◌, refl, inl, inr, String, Bool, false, Bool-cases, Option, none, some, Option-cases, eqb,
  Result, ok, err, arith, Action, proceed,
}
use fleetcontrol.Auth.Principal.{Uuid}
use fleetcontrol.Gen.Models.{operator}
use fleetcontrol.Database.{Db, Postgres, run_call_either}
use fleetcontrol.Database.Table.{find-update, find-delete, taken}
use fleetcontrol.Satellite.Model.{Satellite}
use fleetcontrol.Satellite.Repository
use fleetcontrol.Satellite.Repository.{
  id_of, name_of, inserted_row, insert_satellite, select_all, set_region, get_by_id, update_region,
  delete_satellite, update_region_where, delete_where, postgres_repository,
}
use fleetcontrol.Satellite.Repository.Laws.{view, next}
use fleetcontrol.Satellite.Service
use fleetcontrol.Satellite.Service.{update_found, delete_found, is_guarded}
use fleetcontrol.Satellite.Service.Runs.{get_by_id_keeps}
use fleetcontrol.Satellite.Service.Guard.{update_guarded, delete_guarded}

-- The operator's Satellite with this id is there as it is.
module _ (id : Uuid) (sat : Satellite) where
  abbrev pub Has : Db → Type 0
  Has db = view db id ≡ some sat

  module _ (pg : Postgres) (db : Db) (has : Has db) where
    update_region-Has :
        (k : Uuid) (region : String)
        → eqb k id ≡ false
        → Has (update_region pg k region (next db)).1
    unfolding update_region
    update_region-Has k region other =
        run_call_either Has (pg (next db).calls) (update_region_where k region) (next (next db)) has
          (rw (find-update id_of (set_region region) (λ s. refl) id k db.satellites, other) has)

    delete_satellite-Has : (k : Uuid) → eqb k id ≡ false → Has (delete_satellite pg k (next db)).1
    unfolding delete_satellite
    delete_satellite-Has k other =
        run_call_either Has (pg (next db).calls) (delete_where k) (next (next db)) has
          (rw (find-delete id_of id k db.satellites, other) has)

    insert_satellite-Has : (s : Satellite) → Has (insert_satellite s (pg db.calls) (next db)).1
    insert_satellite-Has s = elim (Option-cases (view db (pg db.calls).fresh)) [
      | inr (old, used) ↦ rw (used, insert_satellite) has
      | inl fresh ↦
          rw (fresh, insert_satellite)
            (elim (Bool-cases (taken name_of s.name db.satellites)) [
              | inl there ↦ rw there has
              | inr free ↦ rw free (elim (Bool-cases (eqb (pg db.calls).fresh id)) [
                | inl same ↦
                    let e : (pg db.calls).fresh ≡ id = ground arith in
                    let none_there : view db id ≡ none = rw e at fresh in
                    absurd (ground (arith, has, none_there))
                | inr other ↦ rw other has
              ])
            ])
    ]

    pub create-Has : (s : Satellite) → Has (Repository.create pg s db).1
    unfolding Repository.create
    create-Has s =
        run_call_either Has (pg db.calls) (insert_satellite s) (next db) has
          (insert_satellite-Has s)

    update_found-Has :
        (k : Uuid) (region : String) (op : Bool) (found : Option Satellite)
        → eqb k id ≡ false
        → Has (update_found (postgres_repository pg) k region op found (next db)).1
    update_found-Has k region op none other = has
    update_found-Has k region op (some s) other = elim (Bool-cases (is_guarded s op)) [
      | inl guarded ↦ rw guarded has
      | inr free ↦ rw free (update_region-Has k region other)
    ]

    delete_found-Has :
        (k : Uuid) (op : Bool) (found : Option Satellite)
        → eqb k id ≡ false
        → Has (delete_found (postgres_repository pg) k op found (next db)).1
    delete_found-Has k op none other = has
    delete_found-Has k op (some s) other = elim (Bool-cases (is_guarded s op)) [
      | inl guarded ↦ rw guarded has
      | inr free ↦ rw free (delete_satellite-Has k other)
    ]

    read_then-Has :
        {A B : Type 0} (r : Result A) (k : A → Action Db B)
        → ((a : A) → Has (k a (next db)).1)
        → Has (proceed r k (next db)).1
    read_then-Has (ok a) k all = all a
    read_then-Has (err e) k all = has

    module _ (owned : sat.managed_by ≡ operator) (k : Uuid) where
      pub update-Has :
          (region : String) → Has (Service.update (postgres_repository pg) k region false db).1
      unfolding Service.update
      update-Has region = elim (Bool-cases (eqb k id)) [
        | inl same ↦
            let e : k ≡ id = ground arith in
            rw e (rw (update_guarded pg db id sat has region owned).0 has)
        | inr other ↦ rw (get_by_id_keeps pg db k) (
            read_then-Has (get_by_id pg k db).0
              (update_found (postgres_repository pg) k region false)
              (λ found. update_found-Has k region false found other))
      ]

      pub delete-Has : Has (Service.delete (postgres_repository pg) k false db).1
      unfolding Service.delete
      delete-Has = elim (Bool-cases (eqb k id)) [
        | inl same ↦
            let e : k ≡ id = ground arith in rw e (rw (delete_guarded pg db id sat has owned).0 has)
        | inr other ↦ rw (get_by_id_keeps pg db k) (
            read_then-Has (get_by_id pg k db).0 (delete_found (postgres_repository pg) k false)
              (λ found. delete_found-Has k false found other))
      ]
