-- ===== src/Gen/Models.antt =====
-- api/gen/models.gen.go. A pointer field is an `Option`; the named string types hold any text, and
-- `is_declared_*` are their declared values.
use fleetcontrol.Common.{String, Bool, ◌||◌, Option, none, ◌==◌, ℕ}
use fleetcontrol.Auth.Principal.{Uuid}
use fleetcontrol.Auth.Jwt.{Time}

abbrev pub bearer_auth_scopes : String
bearer_auth_scopes = "BearerAuth.Scopes"

-- The declared values of CreateUserRequestRole.
abbrev pub is_declared_new_role : String → Bool
is_declared_new_role s = s == "admin" || s == "viewer"

-- The declared values of UserRole.
abbrev pub is_declared_role : String → Bool
is_declared_role s = s == "admin" || s == "viewer"

abbrev pub manual : String
manual = "manual"

abbrev pub operator : String
operator = "operator"

abbrev pub pending : String
pending = "Pending"

abbrev pub ready : String
ready = "Ready"

abbrev pub unreachable : String
unreachable = "Unreachable"

abbrev pub failed : String
failed = "Error"

-- The declared values of SatelliteStatus.
abbrev pub is_declared_status : String → Bool
is_declared_status s = s == failed || s == pending || s == ready || s == unreachable

-- The declared values of SatelliteManagedBy.
abbrev pub is_declared_owner : String → Bool
is_declared_owner s = s == manual || s == operator

pub record CreateSatelliteRequest : Type 0 where
  pub name : String
  pub region : String

pub record UpdateSatelliteRequest : Type 0 where
  pub region : String

pub record CreateUserRequest : Type 0 where
  pub password : String
  pub role : Option String
  pub username : String

pub record LoginRequest : Type 0 where
  pub password : String
  pub username : String

pub record LoginResponse : Type 0 where
  pub expires_in : Option ℕ
  pub token : Option String

-- The wire Satellite.
pub record SatelliteBody : Type 0 where
  pub created_at : Option Time
  pub id : Option Uuid
  pub last_seen_at : Option Time
  pub managed_by : Option String
  pub name : Option String
  pub region : Option String
  pub status : Option String

-- `gen.Satellite{}`
abbrev pub empty_satellite_body : SatelliteBody
empty_satellite_body = record {
  created_at = none;
  id = none;
  last_seen_at = none;
  managed_by = none;
  name = none;
  region = none;
  status = none;
}

-- The wire User, which has no field for a password or its hash.
pub record UserBody : Type 0 where
  pub created_at : Option Time
  pub id : Option Uuid
  pub role : Option String
  pub username : Option String

-- The aliases of the request bodies.
abbrev pub PostAuthLoginJsonRequestBody : Type 0
PostAuthLoginJsonRequestBody = LoginRequest

abbrev pub PostSatellitesJsonRequestBody : Type 0
PostSatellitesJsonRequestBody = CreateSatelliteRequest

abbrev pub PatchSatellitesIdJsonRequestBody : Type 0
PatchSatellitesIdJsonRequestBody = UpdateSatelliteRequest

abbrev pub PostUsersJsonRequestBody : Type 0
PostUsersJsonRequestBody = CreateUserRequest
