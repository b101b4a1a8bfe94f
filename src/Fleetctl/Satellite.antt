-- ===== src/Fleetctl/Satellite.antt =====
-- fleetctl/cmd/satellite/satellite.go: what the commands do after cobra has read flags and arguments.
-- `parse_uuid` is uuid.Parse.
pub mod Guard
pub mod Sends
pub mod Remote
use Prim.Native.String
use fleetcontrol.Common.{
  ℕ, String, Bool, true, false, Option, none, some, List, [], ◌∷◌, ◌==◌, if◌then◌else◌, Error, new,
  context, Result, ok, err, Action,
}
use fleetcontrol.Auth.Principal.{Uuid}
use fleetcontrol.Gen.Models.{operator, SatelliteBody, CreateSatelliteRequest}
use fleetcontrol.Gen.Client.{Client, RequestEditorFn}
use fleetcontrol.Gen.Client.Responses.{Parsed, GetSatellitesIdResponse, code_of}
use fleetcontrol.Gen.Client.WithResponse
use fleetcontrol.Gen.Client.Calls.{Library}
use fleetcontrol.Fleetctl.Output.{
  ApiError, Failure, plain, api, Printed, Ending, printed, failed, Texts, status_error,
}
use fleetcontrol.Fleetctl.Output
use fleetcontrol.Fleetctl.Runtime.{Os, Options, client}

-- What the commands stand on; `encode_json` is Encode of an indenting json.Encoder on the output.
pub record Env (S : Type 0) : Type 0 where
  pub os : Os S
  pub library : Library S
  pub texts : Texts
  pub options : Options S
  pub parse_uuid : String → Result Uuid
  pub encode_json : Printed → S → Option Error × S

module _ {S : Type 0} (env : Env S) where
  abbrev pub Session : Type 0
  Session = Client S × List RequestEditorFn

  abbrev pub fails : Error → S → Ending × S
  fails e s = (failed (plain e), s)

  -- output.JSON: the value is printed, or the error of the encoder or of the writer is returned.
  abbrev json_written : Printed → Option Error × S → Ending × S
  json_written value (none, s) = (printed value, s)
  json_written value (some e, s) = fails e s

  abbrev pub print_json : Printed → S → Ending × S
  print_json value s = json_written value (env.encode_json value s)

  -- opts.Client, and what the command does with it.
  abbrev pub proceed_with : (Session → S → Ending × S) → Result Session → S → Ending × S
  proceed_with command (err e) s = fails e s
  proceed_with command (ok session) s = command session s

  abbrev pub with_client : Bool → (Session → S → Ending × S) → S → Ending × S
  with_client require_auth command s =
      proceed_with command (client env.os env.options require_auth s) s

  -- StatusError on a response, and what the command does if it accepts.
  abbrev pub status_of : {F : Type 0} → Parsed F → List ℕ → Option ApiError
  status_of resp expected = status_error env.texts (code_of resp) resp.body expected

  abbrev pub accepted : Option ApiError → (S → Ending × S) → S → Ending × S
  accepted (some e) command s = (failed (api e), s)
  accepted none command s = command s

  -- A response of a call, or its error under the command's text.
  abbrev pub received :
      {F : Type 0}
      → String
      → List ℕ
      → (Parsed F → S → Ending × S)
      → Result (Parsed F) × S
      → Ending × S
  received what expected command (err e, s) = fails (context what e) s
  received what expected command (ok resp, s) = accepted (status_of resp expected) (command resp) s

  abbrev pub with_id : (Uuid → S → Ending × S) → Result Uuid → S → Ending × S
  with_id command (err e) s = fails (context "invalid satellite ID" e) s
  with_id command (ok id) s = command id s

  -- newCreateCommand
  unfoldable pub create : String → String → S → Ending × S
  unfolding WithResponse.post_satellites_with_response
  create name region = with_client true (λ session s.
      received "create satellite" (201 ∷ [])
        (λ resp s'. print_json (Output.satellite resp.json.json_201) s')
        (WithResponse.post_satellites_with_response env.library session.0 session.1
          (record { name = name; region = region }) s))

  abbrev pub get_parsed : Uuid → S → Ending × S
  get_parsed id = with_client true (λ session s.
      received "get satellite" (200 ∷ [])
        (λ resp s'. print_json (Output.satellite resp.json.json_200) s')
        (WithResponse.get_satellites_id_with_response env.library session.0 session.1 id s))

  -- newGetCommand
  unfoldable pub get : String → S → Ending × S
  unfolding WithResponse.get_satellites_id_with_response
  get arg = with_id get_parsed (env.parse_uuid arg)

  -- newListCommand
  unfoldable pub list : S → Ending × S
  unfolding WithResponse.get_satellites_with_response
  list = with_client true (λ session s.
      received "list satellites" (200 ∷ [])
        (λ resp s'. print_json (Output.satellites resp.json.json_200) s')
        (WithResponse.get_satellites_with_response env.library session.0 session.1 s))

  -- The test on getResp.JSON200 and its ManagedBy.
  abbrev pub owner_is_operator : Option String → Bool
  owner_is_operator none = false
  owner_is_operator (some owner) = owner == operator

  abbrev pub is_managed : Option SatelliteBody → Bool
  is_managed none = false
  is_managed (some sat) = owner_is_operator sat.managed_by

  abbrev pub delete_open : Uuid → Session → S → Ending × S
  delete_open id session s =
      received "delete satellite" (204 ∷ [])
        (λ resp s'. (printed (Output.line "Satellite deleted"), s'))
        (WithResponse.delete_satellites_id_with_response env.library session.0 session.1 id s)

  abbrev pub delete_checked : Uuid → Session → GetSatellitesIdResponse → S → Ending × S
  delete_checked id session resp s =
      if is_managed resp.json.json_200
      then fails (new "satellite is managed by the Operator; update its CR in Git instead") s
      else delete_open id session s

  abbrev pub delete_in : Uuid → Session → S → Ending × S
  delete_in id session s =
      received "check satellite ownership" (200 ∷ []) (delete_checked id session)
        (WithResponse.get_satellites_id_with_response env.library session.0 session.1 id s)

  -- newDeleteCommand
  unfoldable pub delete : String → S → Ending × S
  unfolding WithResponse.get_satellites_id_with_response
      WithResponse.delete_satellites_id_with_response
  delete arg = with_id (λ id. with_client true (delete_in id)) (env.parse_uuid arg)
