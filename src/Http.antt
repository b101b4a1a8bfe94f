-- ===== src/Http.antt =====
-- What the handlers use of Go's net/http, of chi's URL parameters and of encoding/json: requests,
-- responses, and handlers as functions of a request and of the state S behind the server.
use Prim.Native.String
use fleetcontrol.Common.{ℕ, String, Option, List, Result}
use fleetcontrol.Auth.Principal.{Uuid, Principal}
use fleetcontrol.Gen.Models.{
  CreateSatelliteRequest, UpdateSatelliteRequest, CreateUserRequest, LoginRequest, LoginResponse,
  SatelliteBody, UserBody,
}

-- `header` is r.Header.Get, `url_param` is chi.URLParam; `principal` and `scopes` are the values
-- that the request's context holds under the keys of the auth package and of the generated code.
pub record Request : Type 0 where
  pub method : String
  pub path : String
  pub header : String → String
  pub url_param : String → String
  pub body : String
  pub principal : Option Principal
  pub scopes : Option (List String)

-- What is written to the client: nothing, a text, the JSON error envelope, or the JSON of a value.
pub data Payload : Type 0 where
  empty : Payload
  text : String → Payload
  envelope : String → String → Payload
  satellite : SatelliteBody → Payload
  satellites : List SatelliteBody → Payload
  user : UserBody → Payload
  users : List UserBody → Payload
  login : LoginResponse → Payload
  fields : List (String × String) → Payload

pub record Response : Type 0 where
  pub status : ℕ
  pub content_type : String
  pub payload : Payload

-- A handler answers, or it panics.
pub data Outcome : Type 0 where
  responded : Response → Outcome
  panicked : String → Outcome

abbrev pub Handler : Type 0 → Type 0
Handler S = Request → S → Outcome × S

-- Functions of packages outside the repository that the handlers call: json.Decoder for the request
-- bodies, uuid.Parse, and the path binder of the oapi-codegen runtime. `none` is their error.
pub record Wire : Type 0 where
  pub decode_create_satellite : String → Option CreateSatelliteRequest
  pub decode_update_satellite : String → Option UpdateSatelliteRequest
  pub decode_create_user : String → Option CreateUserRequest
  pub decode_login : String → Option LoginRequest
  pub parse_uuid : String → Option Uuid
  pub bind_uuid : String → Result Uuid

abbrev pub json_type : String
json_type = "application/json"

-- writeJSON
abbrev pub write_json : ℕ → Payload → Outcome
write_json status body =
    responded (record { status = status; content_type = json_type; payload = body })

-- writeError
abbrev pub write_error : ℕ → String → String → Outcome
write_error status code message = write_json status (envelope code message)

-- http.Error
abbrev pub http_error : String → ℕ → Outcome
http_error message status = responded (record {
  status = status;
  content_type = "text/plain; charset=utf-8";
  payload = text (String.◌++◌ message "\n");
})

-- w.WriteHeader(http.StatusNoContent) with no body
abbrev pub no_content : Outcome
no_content = responded (record { status = 204; content_type = ""; payload = empty })
