-- ===== src/Satellite/Steps.antt =====
-- What one SQL statement of a request does to the satellites table; HttpServer/System shows that the
-- requests are served by such statements.
pub mod Invariant
use fleetcontrol.Common.{String, ◌≡◌, none, false, List, ◌∷◌}
use fleetcontrol.Auth.Principal.{Uuid}
use fleetcontrol.Auth.Jwt.{Time}
use fleetcontrol.Gen.Models.{manual, pending}
use fleetcontrol.Database.{Call}
use fleetcontrol.Database.Table.{find, update, delete, taken}
use fleetcontrol.Satellite.Model.{Satellite}
use fleetcontrol.Satellite.Repository.{id_of, name_of, inserted_row, set_region, set_seen}

-- What one statement of the API can do to the rows.
pub data Step (t : List Satellite) : List Satellite → Type 0 where
  unchanged : Step t t
  created :
      (c : Call) (s : Satellite)
      → find id_of c.fresh t ≡ none
      → taken name_of s.name t ≡ false
      → s.status ≡ pending
      → s.managed_by ≡ manual
      → Step t (inserted_row c s ∷ t)
  moved : (id : Uuid) (region : String) → Step t (update id_of id (set_region region) t)
  seen : (id : Uuid) (now : Time) → Step t (update id_of id (set_seen now) t)
  deleted : (id : Uuid) → Step t (delete id_of id t)
