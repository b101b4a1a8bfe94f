-- ===== src/User/Handler.antt =====
-- api/internal/user/handler.go, over any Repository.
pub mod Runs
pub mod Replies
use fleetcontrol.Common.{
  ℕ, String, Option, none, some, List, if◌then◌else◌, message, error_is, invalid_role, Result, ok,
  err,
}
use fleetcontrol.Auth.Principal.{Uuid}
use fleetcontrol.Gen.Models.{CreateUserRequest}
use fleetcontrol.Http.{
  Request, Outcome, Handler, Wire, Payload, write_json, write_error, no_content,
}
use fleetcontrol.User.Model.{User}
use fleetcontrol.User.Repository.{Repository}
use fleetcontrol.User.Service
use fleetcontrol.User.Service.{Bcrypt}
use fleetcontrol.User.Mapper.{create_params_from_request, to_response, to_response_list}

-- What each handler writes for what the service returned.
unfoldable pub create_reply : Result User → Outcome
unfolding to_response
create_reply (err e) =
    if error_is e invalid_role
    then write_error 400 "INVALID_ROLE" (message e)
    else write_error 500 "CREATE_FAILED" (message e)
create_reply (ok user) = write_json 201 (Payload.user (to_response user))

unfoldable pub list_reply : Result (List User) → Outcome
unfolding to_response_list
list_reply (err e) = write_error 500 "LIST_FAILED" (message e)
list_reply (ok users) = write_json 200 (Payload.users (to_response_list users))

unfoldable pub delete_reply : Result (Unit {0}) → Outcome
delete_reply (err e) = write_error 500 "DELETE_FAILED" (message e)
delete_reply (ok _) = no_content

abbrev pub answer : {S A : Type 0} → (A → Outcome) → A × S → Outcome × S
answer reply (result, s) = (reply result, s)

module _ {S : Type 0} (wire : Wire) (bcrypt : Bcrypt) (repo : Repository S) where
  -- The call of the service with what CreateParamsFromRequest returned.
  abbrev pub create_with : ℕ → String × String × String → S → Outcome × S
  create_with salt (username, password, role) s =
      answer create_reply (Service.create bcrypt repo salt username password role s)

  abbrev pub create_decoded : ℕ → Option CreateUserRequest → S → Outcome × S
  create_decoded salt none s = (write_error 400 "INVALID_BODY" "invalid request body", s)
  create_decoded salt (some req) s = create_with salt (create_params_from_request req) s

  unfoldable pub create : ℕ → Handler S
  unfolding create_reply Service.create create_params_from_request
  create salt r = create_decoded salt (wire.decode_create_user r.body)

  unfoldable pub list : Handler S
  unfolding list_reply Service.list
  list r s = answer list_reply (Service.list bcrypt repo s)

  abbrev pub delete_parsed : Option Uuid → S → Outcome × S
  delete_parsed none s = (write_error 400 "INVALID_ID" "invalid user id", s)
  delete_parsed (some id) s = answer delete_reply (Service.delete bcrypt repo id s)

  unfoldable pub delete : Handler S
  unfolding delete_reply Service.delete
  delete r = delete_parsed (wire.parse_uuid (r.url_param "id"))
