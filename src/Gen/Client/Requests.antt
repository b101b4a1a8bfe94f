-- ===== src/Gen/Client/Requests.antt =====
-- api/gen/client.gen.go: the request that each operation builds. `style_param` and `resolve` are
-- runtime.StyleParamWithLocation for an id in the path, and url.Parse of the server with
-- URL.Parse of the operation's path on it.
use Prim.Native.String
use fleetcontrol.Common.{String, Option, none, some, ◌∷◌, Result, ok}
use fleetcontrol.Auth.Principal.{Uuid}
use fleetcontrol.Gen.Models.{
  CreateSatelliteRequest, UpdateSatelliteRequest, CreateUserRequest, LoginRequest,
}
use fleetcontrol.Gen.Client.{HttpRequest, and_then}

pub record RequestLibrary : Type 0 where
  pub style_param : Uuid → Result String
  pub resolve : String → String → Result String
  pub new_request : String → String → Option String → Result HttpRequest
  pub marshal_login : LoginRequest → Result String
  pub marshal_create_satellite : CreateSatelliteRequest → Result String
  pub marshal_update_satellite : UpdateSatelliteRequest → Result String
  pub marshal_create_user : CreateUserRequest → Result String

-- req.Header.Add
abbrev pub add_header : String → String → HttpRequest → HttpRequest
add_header key value req = record req { headers = (key, value) ∷ req.headers }

module _ (lib : RequestLibrary) where
  -- The common end of the builders: every operation path begins with a slash, so "." goes before it.
  abbrev pub request_for : String → String → String → Option String → Result HttpRequest
  request_for method server path body =
      and_then (lib.resolve server (String.◌++◌ "." path)) (λ url. lib.new_request method url body)

  -- The common end of the builders that take a body of any content type.
  abbrev pub request_with_body : String → String → String → String → String → Result HttpRequest
  request_with_body method server path content_type body =
      and_then (request_for method server path (some body))
        (λ req. ok (add_header "Content-Type" content_type req))

  abbrev pub json_type : String
  json_type = "application/json"

  -- NewPostAuthLoginRequestWithBody
  unfoldable pub new_post_auth_login_request_with_body :
      String → String → String → Result HttpRequest
  new_post_auth_login_request_with_body server content_type body =
      request_with_body "POST" server "/auth/login" content_type body

  -- NewPostAuthLoginRequest
  unfoldable pub new_post_auth_login_request : String → LoginRequest → Result HttpRequest
  unfolding new_post_auth_login_request_with_body
  new_post_auth_login_request server body =
      and_then (lib.marshal_login body) (new_post_auth_login_request_with_body server json_type)

  -- NewGetHealthRequest
  unfoldable pub new_get_health_request : String → Result HttpRequest
  new_get_health_request server = request_for "GET" server "/health" none

  -- NewGetSatellitesRequest
  unfoldable pub new_get_satellites_request : String → Result HttpRequest
  new_get_satellites_request server = request_for "GET" server "/satellites" none

  -- NewPostSatellitesRequestWithBody
  unfoldable pub new_post_satellites_request_with_body :
      String → String → String → Result HttpRequest
  new_post_satellites_request_with_body server content_type body =
      request_with_body "POST" server "/satellites" content_type body

  -- NewPostSatellitesRequest
  unfoldable pub new_post_satellites_request : String → CreateSatelliteRequest → Result HttpRequest
  unfolding new_post_satellites_request_with_body
  new_post_satellites_request server body =
      and_then (lib.marshal_create_satellite body)
        (new_post_satellites_request_with_body server json_type)

  -- NewDeleteSatellitesIdRequest
  unfoldable pub new_delete_satellites_id_request : String → Uuid → Result HttpRequest
  new_delete_satellites_id_request server id =
      and_then (lib.style_param id)
        (λ param. request_for "DELETE" server (String.◌++◌ "/satellites/" param) none)

  -- NewGetSatellitesIdRequest
  unfoldable pub new_get_satellites_id_request : String → Uuid → Result HttpRequest
  new_get_satellites_id_request server id =
      and_then (lib.style_param id)
        (λ param. request_for "GET" server (String.◌++◌ "/satellites/" param) none)

  -- NewPatchSatellitesIdRequestWithBody
  unfoldable pub new_patch_satellites_id_request_with_body :
      String → Uuid → String → String → Result HttpRequest
  new_patch_satellites_id_request_with_body server id content_type body =
      and_then (lib.style_param id) (λ param.
        request_with_body "PATCH" server (String.◌++◌ "/satellites/" param) content_type body)

  -- NewPatchSatellitesIdRequest
  unfoldable pub new_patch_satellites_id_request :
      String → Uuid → UpdateSatelliteRequest → Result HttpRequest
  unfolding new_patch_satellites_id_request_with_body
  new_patch_satellites_id_request server id body =
      and_then (lib.marshal_update_satellite body)
        (new_patch_satellites_id_request_with_body server id json_type)

  -- NewPostSatellitesIdHeartbeatRequest
  unfoldable pub new_post_satellites_id_heartbeat_request : String → Uuid → Result HttpRequest
  new_post_satellites_id_heartbeat_request server id = and_then (lib.style_param id) (λ param.
      request_for "POST" server (String.◌++◌ "/satellites/" (String.◌++◌ param "/heartbeat")) none)

  -- NewGetUsersRequest
  unfoldable pub new_get_users_request : String → Result HttpRequest
  new_get_users_request server = request_for "GET" server "/users" none

  -- NewPostUsersRequestWithBody
  unfoldable pub new_post_users_request_with_body : String → String → String → Result HttpRequest
  new_post_users_request_with_body server content_type body =
      request_with_body "POST" server "/users" content_type body

  -- NewPostUsersRequest
  unfoldable pub new_post_users_request : String → CreateUserRequest → Result HttpRequest
  unfolding new_post_users_request_with_body
  new_post_users_request server body =
      and_then (lib.marshal_create_user body) (new_post_users_request_with_body server json_type)

  -- NewDeleteUsersIdRequest
  unfoldable pub new_delete_users_id_request : String → Uuid → Result HttpRequest
  new_delete_users_id_request server id =
      and_then (lib.style_param id)
        (λ param. request_for "DELETE" server (String.◌++◌ "/users/" param) none)

  -- NewGetVersionRequest
  unfoldable pub new_get_version_request : String → Result HttpRequest
  new_get_version_request server = request_for "GET" server "/version" none
