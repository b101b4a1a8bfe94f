-- ===== src/Gen/Client/Responses.antt =====
-- api/gen/client.gen.go: the types that each operation reads its response into. `unmarshal_*` are json.Unmarshal into
-- the type of the field, and `mentions_json` is strings.Contains of a content type and "json".
use fleetcontrol.Common.{ℕ, String, Bool, Option, none, some, List, Result}
use fleetcontrol.Gen.Models.{SatelliteBody, UserBody, LoginResponse}
use fleetcontrol.Gen.Client.{HttpResponse}

-- ErrorResponse: the code and the message of `error`.
pub record ErrorResponse : Type 0 where
  pub code : Option String
  pub message : Option String

-- The aliases of the documented failures.
abbrev pub Forbidden : Type 0
Forbidden = ErrorResponse

abbrev pub NotFound : Type 0
NotFound = ErrorResponse

abbrev pub Unauthorized : Type 0
Unauthorized = ErrorResponse

pub record HealthResponse : Type 0 where
  pub db : Option String
  pub status : Option String

pub record VersionResponse : Type 0 where
  pub version : Option String

pub record ResponseLibrary : Type 0 where
  pub mentions_json : String → Bool
  pub unmarshal_error : String → Result ErrorResponse
  pub unmarshal_satellite : String → Result SatelliteBody
  pub unmarshal_satellites : String → Result (List SatelliteBody)
  pub unmarshal_user : String → Result UserBody
  pub unmarshal_users : String → Result (List UserBody)
  pub unmarshal_login : String → Result LoginResponse
  pub unmarshal_health : String → Result HealthResponse
  pub unmarshal_version : String → Result VersionResponse

-- The response struct of an operation: the body, HTTPResponse, and its JSON fields, of which the
-- parser fills at most one.
pub record Parsed (F : Type 0) : Type 0 where
  pub body : String
  pub http_response : Option HttpResponse
  pub json : F

-- What the methods Status and StatusCode of each of the types below return; `status_text` is
-- http.StatusText.
abbrev pub status_in : (ℕ → String) → Option HttpResponse → String
status_in status_text none = status_text 0
status_in status_text (some rsp) = rsp.status

abbrev pub status_of : {F : Type 0} → (ℕ → String) → Parsed F → String
status_of status_text r = status_in status_text r.http_response

abbrev pub code_in : Option HttpResponse → ℕ
code_in none = 0
code_in (some rsp) = rsp.status_code

abbrev pub code_of : {F : Type 0} → Parsed F → ℕ
code_of r = code_in r.http_response

-- The types of the operations, and the JSON fields of each.
pub record PostAuthLoginJson : Type 0 where
  pub json_200 : Option LoginResponse
  pub json_401 : Option ErrorResponse

abbrev pub PostAuthLoginResponse : Type 0
PostAuthLoginResponse = Parsed PostAuthLoginJson

pub record GetHealthJson : Type 0 where
  pub json_200 : Option HealthResponse
  pub json_503 : Option HealthResponse

abbrev pub GetHealthResponse : Type 0
GetHealthResponse = Parsed GetHealthJson

pub record GetSatellitesJson : Type 0 where
  pub json_200 : Option (List SatelliteBody)
  pub json_401 : Option Unauthorized

abbrev pub GetSatellitesResponse : Type 0
GetSatellitesResponse = Parsed GetSatellitesJson

pub record PostSatellitesJson : Type 0 where
  pub json_201 : Option SatelliteBody
  pub json_401 : Option Unauthorized

abbrev pub PostSatellitesResponse : Type 0
PostSatellitesResponse = Parsed PostSatellitesJson

pub record DeleteSatellitesIdJson : Type 0 where
  pub json_403 : Option Forbidden
  pub json_404 : Option NotFound

abbrev pub DeleteSatellitesIdResponse : Type 0
DeleteSatellitesIdResponse = Parsed DeleteSatellitesIdJson

pub record GetSatellitesIdJson : Type 0 where
  pub json_200 : Option SatelliteBody
  pub json_401 : Option Unauthorized
  pub json_404 : Option NotFound

abbrev pub GetSatellitesIdResponse : Type 0
GetSatellitesIdResponse = Parsed GetSatellitesIdJson

pub record PatchSatellitesIdJson : Type 0 where
  pub json_200 : Option SatelliteBody
  pub json_403 : Option Forbidden
  pub json_404 : Option NotFound

abbrev pub PatchSatellitesIdResponse : Type 0
PatchSatellitesIdResponse = Parsed PatchSatellitesIdJson

pub record PostSatellitesIdHeartbeatJson : Type 0 where
  pub json_200 : Option SatelliteBody
  pub json_404 : Option NotFound

abbrev pub PostSatellitesIdHeartbeatResponse : Type 0
PostSatellitesIdHeartbeatResponse = Parsed PostSatellitesIdHeartbeatJson

pub record GetUsersJson : Type 0 where
  pub json_200 : Option (List UserBody)
  pub json_403 : Option Forbidden

abbrev pub GetUsersResponse : Type 0
GetUsersResponse = Parsed GetUsersJson

pub record PostUsersJson : Type 0 where
  pub json_201 : Option UserBody
  pub json_403 : Option Forbidden

abbrev pub PostUsersResponse : Type 0
PostUsersResponse = Parsed PostUsersJson

pub record DeleteUsersIdJson : Type 0 where
  pub json_403 : Option Forbidden
  pub json_404 : Option NotFound

abbrev pub DeleteUsersIdResponse : Type 0
DeleteUsersIdResponse = Parsed DeleteUsersIdJson

pub record GetVersionJson : Type 0 where
  pub json_200 : Option VersionResponse

abbrev pub GetVersionResponse : Type 0
GetVersionResponse = Parsed GetVersionJson
