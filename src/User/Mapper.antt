-- ===== src/User/Mapper.antt =====
-- api/internal/user/mapper.go
use fleetcontrol.Common.{String, Option, none, some, List, [], ◌∷◌, ◌++◌}
use fleetcontrol.Gen.Models.{CreateUserRequest, UserBody}
use fleetcontrol.User.Model.{User}

abbrev pub default_role : String
default_role = "viewer"

abbrev pub role_or_default : Option String → String
role_or_default none = default_role
role_or_default (some role) = role

-- CreateParamsFromRequest: username, password and role.
unfoldable pub create_params_from_request : CreateUserRequest → String × String × String
create_params_from_request req = (req.username, req.password, role_or_default req.role)

-- ToResponse of a user that is not nil; every caller of the program passes one, and the panic on nil
-- is left to `to_response?`.
unfoldable pub to_response : User → UserBody
to_response u = record {
  created_at = some u.created_at;
  id = some u.id;
  role = some u.role;
  username = some u.username;
}

-- ToResponse of a pointer: `none` is the panic on a nil *User.
unfoldable pub to_response? : Option User → Option UserBody
unfolding to_response
to_response? none = none
to_response? (some u) = some (to_response u)

-- The loop of ToResponseList, which appends to `resp`.
unfoldable pub to_response_from : List UserBody → List User → List UserBody
unfolding to_response
to_response_from resp [] = resp
to_response_from resp (u ∷ users) = to_response_from (resp ++ to_response u ∷ []) users

unfoldable pub to_response_list : List User → List UserBody
unfolding to_response_from
to_response_list users = to_response_from [] users
