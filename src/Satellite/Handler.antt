-- ===== src/Satellite/Handler.antt =====
-- api/internal/satellite/handler.go, over any Repository.
pub mod Replies
pub mod Runs
use fleetcontrol.Common.{
  String, Bool, Option, none, some, List, ◌==◌, if◌then◌else◌, Error, message, error_is,
  managed_by_operator, Result, ok, err,
}
use fleetcontrol.Auth.Principal.{Uuid}
use fleetcontrol.Gen.Models.{CreateSatelliteRequest, UpdateSatelliteRequest}
use fleetcontrol.Http.{
  Request, Outcome, Handler, Wire, Payload, write_json, write_error, no_content,
}
use fleetcontrol.Satellite.Model.{Satellite}
use fleetcontrol.Satellite.Repository.{Repository}
use fleetcontrol.Satellite.Service
use fleetcontrol.Satellite.Mapper.{to_domain_create, to_response, to_response_list}

abbrev pub operator_header : String
operator_header = "X-FleetControl-Operator"

abbrev pub from_operator : Request → Bool
from_operator r = r.header operator_header == "true"

abbrev pub invalid_id : Outcome
invalid_id = write_error 400 "INVALID_ID" "invalid satellite id"

abbrev pub invalid_body : Outcome
invalid_body = write_error 400 "INVALID_BODY" "invalid request body"

abbrev pub not_found : Outcome
not_found = write_error 404 "NOT_FOUND" "satellite not found"

-- What each handler writes for what the service returned.
unfoldable pub create_reply : Result Satellite → Outcome
unfolding to_response
create_reply (err e) = write_error 500 "CREATE_FAILED" (message e)
create_reply (ok sat) = write_json 201 (Payload.satellite (to_response (some sat)))

unfoldable pub list_reply : Result (List Satellite) → Outcome
unfolding to_response_list
list_reply (err e) = write_error 500 "LIST_FAILED" (message e)
list_reply (ok sats) = write_json 200 (Payload.satellites (to_response_list sats))

-- GetByID and Heartbeat, which differ in the code of the error.
unfoldable pub found_reply : String → Result (Option Satellite) → Outcome
unfolding to_response
found_reply code (err e) = write_error 500 code (message e)
found_reply code (ok none) = not_found
found_reply code (ok (some sat)) = write_json 200 (Payload.satellite (to_response (some sat)))

abbrev pub service_error : String → Error → Outcome
service_error code e =
    if error_is e managed_by_operator
    then write_error 403 "SATELLITE_MANAGED_BY_OPERATOR" (message e)
    else write_error 500 code (message e)

unfoldable pub update_reply : Result (Option Satellite) → Outcome
unfolding to_response
update_reply (err e) = service_error "UPDATE_FAILED" e
update_reply (ok none) = not_found
update_reply (ok (some sat)) = write_json 200 (Payload.satellite (to_response (some sat)))

unfoldable pub delete_reply : Result (Unit {0}) → Outcome
delete_reply (err e) = service_error "DELETE_FAILED" e
delete_reply (ok _) = no_content

-- A reply for what an action returned; the state is the action's.
abbrev pub answer : {S A : Type 0} → (A → Outcome) → A × S → Outcome × S
answer reply (result, s) = (reply result, s)

-- A 400 for an id that uuid.Parse refuses, and for a body that the decoder refuses.
abbrev pub on_id : {S : Type 0} → Option Uuid → (Uuid → S → Outcome × S) → S → Outcome × S
on_id none k s = (invalid_id, s)
on_id (some id) k s = k id s

abbrev pub on_body : {S B : Type 0} → Option B → (B → S → Outcome × S) → S → Outcome × S
on_body none k s = (invalid_body, s)
on_body (some req) k s = k req s

module _ {S : Type 0} (wire : Wire) (repo : Repository S) where
  -- uuid.Parse(chi.URLParam(r, "id"))
  abbrev pub with_id : Request → (Uuid → S → Outcome × S) → S → Outcome × S
  with_id r = on_id (wire.parse_uuid (r.url_param "id"))

  unfoldable pub create : Handler S
  unfolding create_reply Service.create to_domain_create
  create r =
      on_body (wire.decode_create_satellite r.body)
        λ req s. answer create_reply (Service.create repo (to_domain_create req) s)

  unfoldable pub list : Handler S
  unfolding list_reply Service.list
  list r s = answer list_reply (Service.list repo s)

  unfoldable pub get_by_id : Handler S
  unfolding found_reply Service.get_by_id
  get_by_id r = with_id r λ id s. answer (found_reply "GET_FAILED") (Service.get_by_id repo id s)

  abbrev pub update_answer : Request → Uuid → UpdateSatelliteRequest → S → Outcome × S
  update_answer r id req s =
      answer update_reply (Service.update repo id req.region (from_operator r) s)

  unfoldable pub update : Handler S
  unfolding update_reply Service.update
  update r = with_id r λ id. on_body (wire.decode_update_satellite r.body) (update_answer r id)

  unfoldable pub delete : Handler S
  unfolding delete_reply Service.delete
  delete r = with_id r λ id s. answer delete_reply (Service.delete repo id (from_operator r) s)

  unfoldable pub heartbeat : Handler S
  unfolding found_reply Service.heartbeat
  heartbeat r =
      with_id r λ id s. answer (found_reply "HEARTBEAT_FAILED") (Service.heartbeat repo id s)
