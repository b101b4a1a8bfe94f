-- ===== src/Satellite/Service/Spec.antt =====
-- What the service promises, on the fleet alone: a map from ids to Satellites.
use mathlib.Core.Option
use fleetcontrol.Gen.Models.{operator, ready}
use fleetcontrol.Satellite.Service.{is_guarded}
use fleetcontrol.Common.{
  ◌==◌, false, true, arith, ◌≡◌, refl, String, Bool, Option, none, some, if◌then◌else◌,
  Option-cases, Bool-cases, inl, inr, sentinel, managed_by_operator, Result, ok, err,
}
use fleetcontrol.Auth.Principal.{Uuid}
use fleetcontrol.Auth.Jwt.{Time}
use fleetcontrol.Database.{Db, Postgres}
use fleetcontrol.Satellite.Model.{Satellite}
use fleetcontrol.Satellite.Repository.{postgres_repository}
use fleetcontrol.Satellite.Repository.Laws.{
  Fleet, view, put, Up, next, get_by_id_lem, update_region_lem, heartbeat_lem, delete_satellite_lem,
  view-update, view-delete,
}
use fleetcontrol.Satellite.Service

abbrev pub Reply : Type 0 → Type 0
Reply A = Result A × Fleet

-- The operator's Satellites are withheld from every call without the operator's mark.
abbrev pub is_withheld : Satellite → Bool → Bool
is_withheld sat true = false
is_withheld sat false = sat.managed_by == operator

-- The guard of the service withholds the same Satellites.
pub is_guarded-eq-is_withheld :
    (sat : Satellite) (from_operator : Bool)
    → is_guarded sat from_operator ≡ is_withheld sat from_operator
is_guarded-eq-is_withheld sat true = ground arith
is_guarded-eq-is_withheld sat false = ground arith

abbrev pub update_at : Uuid → String → Bool → Fleet → Option Satellite → Reply (Option Satellite)
update_at id region from_operator fleet none = (ok none, fleet)
update_at id region from_operator fleet (some sat) =
    if is_withheld sat from_operator
    then (err (sentinel managed_by_operator), fleet)
    else let moved : Satellite = record sat { region = region } in
      (ok (some moved), put fleet id (some moved))

abbrev pub update_spec : Uuid → String → Bool → Fleet → Reply (Option Satellite)
update_spec id region from_operator fleet = update_at id region from_operator fleet (fleet id)

abbrev pub delete_at : Uuid → Bool → Fleet → Option Satellite → Reply Unit
delete_at id from_operator fleet none = (ok tt, fleet)
delete_at id from_operator fleet (some sat) =
    if is_withheld sat from_operator
    then (err (sentinel managed_by_operator), fleet)
    else (ok tt, put fleet id none)

abbrev pub delete_spec : Uuid → Bool → Fleet → Reply Unit
delete_spec id from_operator fleet = delete_at id from_operator fleet (fleet id)

abbrev pub heartbeat_spec : Time → Uuid → Fleet → Reply (Option Satellite)
heartbeat_spec now id fleet =
    let seen =
      Option.map (λ (s : Satellite). record s { status = ready; last_seen_at = some now })
        (fleet id) in
    (ok seen, put fleet id seen)

-- A run of the service answers as the specification does, and leaves the specified fleet.
abbrev pub Implements : {A : Type 0} → Result A × Db → Reply A → Type 0
Implements (r, db) (r', fleet) = (r ≡ r') × ((j : Uuid) → view db j ≡ fleet j)

module _ (pg : Postgres) (db : Db) (up : Up pg db) where
  -- While the database answers, Service.Update over PostgreSQL is the specified update of a map
  -- from ids to Satellites: nil for a missing id, ErrManagedByOperator for a guarded Satellite,
  -- and else a new region for that id alone.
  pub update-Implements :
      (id : Uuid) (region : String) (from_operator : Bool)
      → Up pg (next db)
      → Implements
          (Service.update (postgres_repository pg) id region from_operator db)
          (update_spec id region from_operator (view db))
  unfolding Service.update
  update-Implements id region from_operator up' = elim (Option-cases (view db id)) [
    | inl missing ↦ rw (get_by_id_lem pg db up id, missing) (refl, λ j. refl)
    | inr (sat, found) ↦
        rw (get_by_id_lem pg db up id, found, is_guarded-eq-is_withheld sat from_operator)
          (elim (Bool-cases (is_withheld sat from_operator)) [
            | inl guarded ↦ rw guarded (refl, λ j. refl)
            | inr open_to_edits ↦
                rw (open_to_edits, update_region_lem pg (next db) up' id region, found)
                  (
                    refl,
                    λ j. rw (
                      view-update db id (λ (s : Satellite). record s { region = region })
                          (λ s. refl) j,
                      found,
                    ),
                  )
          ])
  ]

  -- While the database answers, Service.Delete over PostgreSQL is the specified deletion: no
  -- change for a missing id, ErrManagedByOperator for a guarded Satellite, and else that id alone
  -- is gone.
  pub delete-Implements :
      (id : Uuid) (from_operator : Bool)
      → Up pg (next db)
      → Implements
          (Service.delete (postgres_repository pg) id from_operator db)
          (delete_spec id from_operator (view db))
  unfolding Service.delete
  delete-Implements id from_operator up' = elim (Option-cases (view db id)) [
    | inl missing ↦ rw (get_by_id_lem pg db up id, missing) (refl, λ j. refl)
    | inr (sat, found) ↦
        rw (get_by_id_lem pg db up id, found, is_guarded-eq-is_withheld sat from_operator)
          (elim (Bool-cases (is_withheld sat from_operator)) [
            | inl guarded ↦ rw guarded (refl, λ j. refl)
            | inr open_to_edits ↦
                rw (open_to_edits, delete_satellite_lem pg (next db) up' id)
                  (refl, view-delete db id)
          ])
  ]

  -- While the database answers, Service.Heartbeat over PostgreSQL makes the Satellite with the id,
  -- if there is one, Ready and seen at the time of the call, and changes no other.
  pub heartbeat-Implements :
      (id : Uuid)
      → Implements
          (Service.heartbeat (postgres_repository pg) id db)
          (heartbeat_spec (pg db.calls).now id (view db))
  unfolding Service.heartbeat
  heartbeat-Implements id = rw (heartbeat_lem pg db up id) (
    refl,
    view-update db id
        (λ (s : Satellite). record s { status = ready; last_seen_at = some (pg db.calls).now })
        (λ s. refl),
  )
