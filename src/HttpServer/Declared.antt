-- ===== src/HttpServer/Declared.antt =====
-- The bodies of Satellites and users that the server writes, against the values that
-- api/gen/models.gen.go declares for a status, an owner and a role.
pub mod Replies
pub mod Handlers
pub mod Routes
use fleetcontrol.Common.{◌≡◌, String, Bool, true, false, ◌&&◌, Option, none, some, List, [], ◌∷◌}
use fleetcontrol.Gen.Models.{
  SatelliteBody, UserBody, is_declared_status, is_declared_owner, is_declared_role,
}
use fleetcontrol.Http.{Payload, Outcome, responded, panicked}
use fleetcontrol.Http

-- The field is there, with a declared value.
abbrev pub holds : (String → Bool) → Option String → Bool
holds declared none = false
holds declared (some value) = declared value

abbrev pub is_declared_satellite : SatelliteBody → Bool
is_declared_satellite b = holds is_declared_status b.status && holds is_declared_owner b.managed_by

abbrev pub is_declared_user : UserBody → Bool
is_declared_user b = holds is_declared_role b.role

abbrev pub every : {A : Type 0} → (A → Bool) → List A → Bool
every p [] = true
every p (x ∷ xs) = p x && every p xs

abbrev pub declares : Payload → Bool
declares (Http.satellite b) = is_declared_satellite b
declares (Http.satellites bs) = every is_declared_satellite bs
declares (Http.user b) = is_declared_user b
declares (Http.users bs) = every is_declared_user bs
declares _ = true

-- What is written has declared values; a panic writes nothing.
abbrev pub is_declared : Outcome → Bool
is_declared (responded resp) = declares resp.payload
is_declared (panicked text) = true

abbrev pub Declares : Outcome → Type 0
Declares o = is_declared o ≡ true
