-- ===== src/Gen/Client/Interfaces.antt =====
-- api/gen/client.gen.go: the interfaces that the client and the client with responses fill. Each
-- method takes the request editors of the call.
use fleetcontrol.Common.{String, List, Action}
use fleetcontrol.Auth.Principal.{Uuid}
use fleetcontrol.Gen.Models.{
  CreateSatelliteRequest, UpdateSatelliteRequest, CreateUserRequest, LoginRequest,
}
use fleetcontrol.Gen.Client.{Client, HttpResponse, RequestEditorFn}
use fleetcontrol.Gen.Client.Responses.{
  PostAuthLoginResponse, GetHealthResponse, GetSatellitesResponse, PostSatellitesResponse,
  DeleteSatellitesIdResponse, GetSatellitesIdResponse, PatchSatellitesIdResponse,
  PostSatellitesIdHeartbeatResponse, GetUsersResponse, PostUsersResponse, DeleteUsersIdResponse,
  GetVersionResponse,
}
use fleetcontrol.Gen.Client.Calls
use fleetcontrol.Gen.Client.Calls.{Library}
use fleetcontrol.Gen.Client.WithResponse

abbrev Editors : Type 0
Editors = List RequestEditorFn

pub record ClientInterface (S : Type 0) : Type 0 where
  pub post_auth_login_with_body : Editors → String → String → Action S HttpResponse
  pub post_auth_login : Editors → LoginRequest → Action S HttpResponse
  pub get_health : Editors → Action S HttpResponse
  pub get_satellites : Editors → Action S HttpResponse
  pub post_satellites_with_body : Editors → String → String → Action S HttpResponse
  pub post_satellites : Editors → CreateSatelliteRequest → Action S HttpResponse
  pub delete_satellites_id : Editors → Uuid → Action S HttpResponse
  pub get_satellites_id : Editors → Uuid → Action S HttpResponse
  pub patch_satellites_id_with_body : Editors → Uuid → String → String → Action S HttpResponse
  pub patch_satellites_id : Editors → Uuid → UpdateSatelliteRequest → Action S HttpResponse
  pub post_satellites_id_heartbeat : Editors → Uuid → Action S HttpResponse
  pub get_users : Editors → Action S HttpResponse
  pub post_users_with_body : Editors → String → String → Action S HttpResponse
  pub post_users : Editors → CreateUserRequest → Action S HttpResponse
  pub delete_users_id : Editors → Uuid → Action S HttpResponse
  pub get_version : Editors → Action S HttpResponse

pub record ClientWithResponsesInterface (S : Type 0) : Type 0 where
  pub post_auth_login_with_body_with_response :
      Editors → String → String → Action S PostAuthLoginResponse
  pub post_auth_login_with_response : Editors → LoginRequest → Action S PostAuthLoginResponse
  pub get_health_with_response : Editors → Action S GetHealthResponse
  pub get_satellites_with_response : Editors → Action S GetSatellitesResponse
  pub post_satellites_with_body_with_response :
      Editors → String → String → Action S PostSatellitesResponse
  pub post_satellites_with_response :
      Editors → CreateSatelliteRequest → Action S PostSatellitesResponse
  pub delete_satellites_id_with_response : Editors → Uuid → Action S DeleteSatellitesIdResponse
  pub get_satellites_id_with_response : Editors → Uuid → Action S GetSatellitesIdResponse
  pub patch_satellites_id_with_body_with_response :
      Editors → Uuid → String → String → Action S PatchSatellitesIdResponse
  pub patch_satellites_id_with_response :
      Editors → Uuid → UpdateSatelliteRequest → Action S PatchSatellitesIdResponse
  pub post_satellites_id_heartbeat_with_response :
      Editors → Uuid → Action S PostSatellitesIdHeartbeatResponse
  pub get_users_with_response : Editors → Action S GetUsersResponse
  pub post_users_with_body_with_response : Editors → String → String → Action S PostUsersResponse
  pub post_users_with_response : Editors → CreateUserRequest → Action S PostUsersResponse
  pub delete_users_id_with_response : Editors → Uuid → Action S DeleteUsersIdResponse
  pub get_version_with_response : Editors → Action S GetVersionResponse

module _ {S : Type 0} (lib : Library S) (c : Client S) where
  -- *Client as a ClientInterface.
  abbrev pub as_client : ClientInterface S
  as_client = record {
    post_auth_login_with_body = Calls.post_auth_login_with_body lib c;
    post_auth_login = Calls.post_auth_login lib c;
    get_health = Calls.get_health lib c;
    get_satellites = Calls.get_satellites lib c;
    post_satellites_with_body = Calls.post_satellites_with_body lib c;
    post_satellites = Calls.post_satellites lib c;
    delete_satellites_id = Calls.delete_satellites_id lib c;
    get_satellites_id = Calls.get_satellites_id lib c;
    patch_satellites_id_with_body = Calls.patch_satellites_id_with_body lib c;
    patch_satellites_id = Calls.patch_satellites_id lib c;
    post_satellites_id_heartbeat = Calls.post_satellites_id_heartbeat lib c;
    get_users = Calls.get_users lib c;
    post_users_with_body = Calls.post_users_with_body lib c;
    post_users = Calls.post_users lib c;
    delete_users_id = Calls.delete_users_id lib c;
    get_version = Calls.get_version lib c;
  }

  -- *ClientWithResponses as a ClientWithResponsesInterface.
  abbrev pub as_client_with_responses : ClientWithResponsesInterface S
  as_client_with_responses = record {
    post_auth_login_with_body_with_response =
        WithResponse.post_auth_login_with_body_with_response lib c;
    post_auth_login_with_response = WithResponse.post_auth_login_with_response lib c;
    get_health_with_response = WithResponse.get_health_with_response lib c;
    get_satellites_with_response = WithResponse.get_satellites_with_response lib c;
    post_satellites_with_body_with_response =
        WithResponse.post_satellites_with_body_with_response lib c;
    post_satellites_with_response = WithResponse.post_satellites_with_response lib c;
    delete_satellites_id_with_response = WithResponse.delete_satellites_id_with_response lib c;
    get_satellites_id_with_response = WithResponse.get_satellites_id_with_response lib c;
    patch_satellites_id_with_body_with_response =
        WithResponse.patch_satellites_id_with_body_with_response lib c;
    patch_satellites_id_with_response = WithResponse.patch_satellites_id_with_response lib c;
    post_satellites_id_heartbeat_with_response =
        WithResponse.post_satellites_id_heartbeat_with_response lib c;
    get_users_with_response = WithResponse.get_users_with_response lib c;
    post_users_with_body_with_response = WithResponse.post_users_with_body_with_response lib c;
    post_users_with_response = WithResponse.post_users_with_response lib c;
    delete_users_id_with_response = WithResponse.delete_users_id_with_response lib c;
    get_version_with_response = WithResponse.get_version_with_response lib c;
  }
