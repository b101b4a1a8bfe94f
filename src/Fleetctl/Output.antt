-- ===== src/Fleetctl/Output.antt =====
-- fleetctl/internal/output/output.go. `decode` is json.Unmarshal into the error envelope, and gives
-- its code and message; `status_text` is http.StatusText, and `decimal` is the verb %d.
pub mod Status
use Prim.Native.String
use fleetcontrol.Common.{
  ℕ, String, Bool, true, false, not, ◌||◌, Option, none, some, List, [], ◌∷◌, ◌==◌, eqb,
  if◌then◌else◌, Error, Result, ok, err, Action,
}
use fleetcontrol.Gen.Models.{SatelliteBody, UserBody}
use fleetcontrol.Gen.Client.Responses.{HealthResponse}

pub record ApiError : Type 0 where
  pub status_code : ℕ
  pub code : String
  pub message : String

-- What a command fails with: an error built in place or passed on, or an *APIError.
pub data Failure : Type 0 where
  plain : Error → Failure
  api : ApiError → Failure

-- What a command prints: a line, or a value as JSON, where a nil pointer is `none`.
pub data Printed : Type 0 where
  line : String → Printed
  satellite : Option SatelliteBody → Printed
  satellites : Option (List SatelliteBody) → Printed
  user : Option UserBody → Printed
  users : Option (List UserBody) → Printed
  health : Option HealthResponse → Printed

-- How a command ends.
pub data Ending : Type 0 where
  printed : Printed → Ending
  failed : Failure → Ending

pub record Texts : Type 0 where
  pub decode : String → Option (String × String)
  pub status_text : ℕ → String
  pub decimal : ℕ → String

-- APIError.Error
unfoldable pub error_text : Texts → ApiError → String
error_text texts e =
    let tail =
      String.◌++◌ " (HTTP "
        (String.◌++◌ (texts.decimal e.status_code) (String.◌++◌ "): " e.message)) in
    if not (e.code == "")
    then String.◌++◌ "API error " (String.◌++◌ e.code tail)
    else String.◌++◌ "API request failed" tail

abbrev pub expects : ℕ → List ℕ → Bool
expects status [] = false
expects status (want ∷ expected) = eqb status want || expects status expected

abbrev pub text_or : String → String → String
text_or other text = if text == "" then other else text

abbrev pub fallback : Texts → ℕ → ApiError
fallback texts status = record {
  status_code = status;
  code = "";
  message = text_or "unexpected response" (texts.status_text status);
}

abbrev pub from_envelope : Texts → ℕ → Option (String × String) → ApiError
from_envelope texts status none = fallback texts status
from_envelope texts status (some (code, message)) =
    if not (message == "")
    then record { status_code = status; code = code; message = message }
    else fallback texts status

-- StatusError: `none` is the nil error.
unfoldable pub status_error : Texts → ℕ → String → List ℕ → Option ApiError
status_error texts status body expected =
    if expects status expected then none else some (from_envelope texts status (texts.decode body))
