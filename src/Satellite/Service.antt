-- ===== src/Satellite/Service.antt =====
-- api/internal/satellite/service.go, over any Repository.
pub mod Rows
pub mod Spec
pub mod Runs
pub mod Guard
pub mod Owned
use fleetcontrol.Common.{
  String, Bool, not, ◌&&◌, Option, none, some, List, ◌==◌, if◌then◌else◌, sentinel,
  managed_by_operator, Action, pure, fail, ◌>>=◌,
}
use fleetcontrol.Auth.Principal.{Uuid}
use fleetcontrol.Gen.Models.{manual, operator, pending}
use fleetcontrol.Satellite.Model.{Satellite}
use fleetcontrol.Satellite.Repository.{Repository}

-- The guard of Update and Delete.
abbrev pub is_guarded : Satellite → Bool → Bool
is_guarded sat from_operator = sat.managed_by == operator && not from_operator

module _ {S : Type 0} (repo : Repository S) where
  unfoldable pub create : Satellite → Action S Satellite
  create sat = repo.create (record sat { status = pending; managed_by = manual })

  unfoldable pub get_by_id : Uuid → Action S (Option Satellite)
  get_by_id id = repo.get_by_id id

  unfoldable pub list : Action S (List Satellite)
  list = repo.list

  abbrev pub update_found : Uuid → String → Bool → Option Satellite → Action S (Option Satellite)
  update_found id region from_operator none = pure none
  update_found id region from_operator (some sat) =
      if is_guarded sat from_operator
      then fail (sentinel managed_by_operator)
      else repo.update id region

  unfoldable pub update : Uuid → String → Bool → Action S (Option Satellite)
  update id region from_operator = do
    sat ← repo.get_by_id id
    update_found id region from_operator sat

  abbrev pub delete_found : Uuid → Bool → Option Satellite → Action S Unit
  delete_found id from_operator none = pure tt
  delete_found id from_operator (some sat) =
      if is_guarded sat from_operator then fail (sentinel managed_by_operator) else repo.delete id

  unfoldable pub delete : Uuid → Bool → Action S Unit
  delete id from_operator = do sat ← repo.get_by_id id; delete_found id from_operator sat

  unfoldable pub heartbeat : Uuid → Action S (Option Satellite)
  heartbeat id = repo.update_heartbeat id
