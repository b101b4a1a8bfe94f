-- ===== src/Gen/Client/WithResponse.antt =====
-- api/gen/client.gen.go: the methods of ClientWithResponses, which parse what those of Client return.
use fleetcontrol.Common.{String, List, Action, ◌>>=◌, lift}
use fleetcontrol.Auth.Principal.{Uuid}
use fleetcontrol.Gen.Models.{
  CreateSatelliteRequest, UpdateSatelliteRequest, CreateUserRequest, LoginRequest,
}
use fleetcontrol.Gen.Client.{Client, RequestEditorFn}
use fleetcontrol.Gen.Client.Responses.{
  PostAuthLoginResponse, GetHealthResponse, GetSatellitesResponse, PostSatellitesResponse,
  DeleteSatellitesIdResponse, GetSatellitesIdResponse, PatchSatellitesIdResponse,
  PostSatellitesIdHeartbeatResponse, GetUsersResponse, PostUsersResponse, DeleteUsersIdResponse,
  GetVersionResponse,
}
use fleetcontrol.Gen.Client.Parsers.{
  parse_post_auth_login_response, parse_get_health_response, parse_get_satellites_response,
  parse_post_satellites_response, parse_delete_satellites_id_response,
  parse_get_satellites_id_response, parse_patch_satellites_id_response,
  parse_post_satellites_id_heartbeat_response, parse_get_users_response, parse_post_users_response,
  parse_delete_users_id_response, parse_get_version_response,
}
use fleetcontrol.Gen.Client.Calls
use fleetcontrol.Gen.Client.Calls.{Library}

module _ {S : Type 0} (lib : Library S) (c : Client S) (editors : List RequestEditorFn) where
  -- ClientWithResponses.PostAuthLoginWithBodyWithResponse
  unfoldable pub post_auth_login_with_body_with_response :
      String → String → Action S PostAuthLoginResponse
  unfolding Calls.post_auth_login_with_body parse_post_auth_login_response
  post_auth_login_with_body_with_response content_type body =
      Calls.post_auth_login_with_body lib c editors content_type body >>= λ rsp.
      lift (parse_post_auth_login_response lib.responses rsp)

  -- ClientWithResponses.PostAuthLoginWithResponse
  unfoldable pub post_auth_login_with_response : LoginRequest → Action S PostAuthLoginResponse
  unfolding Calls.post_auth_login parse_post_auth_login_response
  post_auth_login_with_response body = Calls.post_auth_login lib c editors body >>= λ rsp.
      lift (parse_post_auth_login_response lib.responses rsp)

  -- ClientWithResponses.GetHealthWithResponse
  unfoldable pub get_health_with_response : Action S GetHealthResponse
  unfolding Calls.get_health parse_get_health_response
  get_health_with_response =
      Calls.get_health lib c editors >>= λ rsp. lift (parse_get_health_response lib.responses rsp)

  -- ClientWithResponses.GetSatellitesWithResponse
  unfoldable pub get_satellites_with_response : Action S GetSatellitesResponse
  unfolding Calls.get_satellites parse_get_satellites_response
  get_satellites_with_response = Calls.get_satellites lib c editors >>= λ rsp.
      lift (parse_get_satellites_response lib.responses rsp)

  -- ClientWithResponses.PostSatellitesWithBodyWithResponse
  unfoldable pub post_satellites_with_body_with_response :
      String → String → Action S PostSatellitesResponse
  unfolding Calls.post_satellites_with_body parse_post_satellites_response
  post_satellites_with_body_with_response content_type body =
      Calls.post_satellites_with_body lib c editors content_type body >>= λ rsp.
      lift (parse_post_satellites_response lib.responses rsp)

  -- ClientWithResponses.PostSatellitesWithResponse
  unfoldable pub post_satellites_with_response :
      CreateSatelliteRequest → Action S PostSatellitesResponse
  unfolding Calls.post_satellites parse_post_satellites_response
  post_satellites_with_response body = Calls.post_satellites lib c editors body >>= λ rsp.
      lift (parse_post_satellites_response lib.responses rsp)

  -- ClientWithResponses.DeleteSatellitesIdWithResponse
  unfoldable pub delete_satellites_id_with_response : Uuid → Action S DeleteSatellitesIdResponse
  unfolding Calls.delete_satellites_id parse_delete_satellites_id_response
  delete_satellites_id_with_response id = Calls.delete_satellites_id lib c editors id >>= λ rsp.
      lift (parse_delete_satellites_id_response lib.responses rsp)

  -- ClientWithResponses.GetSatellitesIdWithResponse
  unfoldable pub get_satellites_id_with_response : Uuid → Action S GetSatellitesIdResponse
  unfolding Calls.get_satellites_id parse_get_satellites_id_response
  get_satellites_id_with_response id = Calls.get_satellites_id lib c editors id >>= λ rsp.
      lift (parse_get_satellites_id_response lib.responses rsp)

  -- ClientWithResponses.PatchSatellitesIdWithBodyWithResponse
  unfoldable pub patch_satellites_id_with_body_with_response :
      Uuid → String → String → Action S PatchSatellitesIdResponse
  unfolding Calls.patch_satellites_id_with_body parse_patch_satellites_id_response
  patch_satellites_id_with_body_with_response id content_type body =
      Calls.patch_satellites_id_with_body lib c editors id content_type body >>= λ rsp.
      lift (parse_patch_satellites_id_response lib.responses rsp)

  -- ClientWithResponses.PatchSatellitesIdWithResponse
  unfoldable pub patch_satellites_id_with_response :
      Uuid → UpdateSatelliteRequest → Action S PatchSatellitesIdResponse
  unfolding Calls.patch_satellites_id parse_patch_satellites_id_response
  patch_satellites_id_with_response id body =
      Calls.patch_satellites_id lib c editors id body >>= λ rsp.
      lift (parse_patch_satellites_id_response lib.responses rsp)

  -- ClientWithResponses.PostSatellitesIdHeartbeatWithResponse
  unfoldable pub post_satellites_id_heartbeat_with_response :
      Uuid → Action S PostSatellitesIdHeartbeatResponse
  unfolding Calls.post_satellites_id_heartbeat parse_post_satellites_id_heartbeat_response
  post_satellites_id_heartbeat_with_response id =
      Calls.post_satellites_id_heartbeat lib c editors id >>= λ rsp.
      lift (parse_post_satellites_id_heartbeat_response lib.responses rsp)

  -- ClientWithResponses.GetUsersWithResponse
  unfoldable pub get_users_with_response : Action S GetUsersResponse
  unfolding Calls.get_users parse_get_users_response
  get_users_with_response =
      Calls.get_users lib c editors >>= λ rsp. lift (parse_get_users_response lib.responses rsp)

  -- ClientWithResponses.PostUsersWithBodyWithResponse
  unfoldable pub post_users_with_body_with_response : String → String → Action S PostUsersResponse
  unfolding Calls.post_users_with_body parse_post_users_response
  post_users_with_body_with_response content_type body =
      Calls.post_users_with_body lib c editors content_type body >>= λ rsp.
      lift (parse_post_users_response lib.responses rsp)

  -- ClientWithResponses.PostUsersWithResponse
  unfoldable pub post_users_with_response : CreateUserRequest → Action S PostUsersResponse
  unfolding Calls.post_users parse_post_users_response
  post_users_with_response body = Calls.post_users lib c editors body >>= λ rsp.
      lift (parse_post_users_response lib.responses rsp)

  -- ClientWithResponses.DeleteUsersIdWithResponse
  unfoldable pub delete_users_id_with_response : Uuid → Action S DeleteUsersIdResponse
  unfolding Calls.delete_users_id parse_delete_users_id_response
  delete_users_id_with_response id = Calls.delete_users_id lib c editors id >>= λ rsp.
      lift (parse_delete_users_id_response lib.responses rsp)

  -- ClientWithResponses.GetVersionWithResponse
  unfoldable pub get_version_with_response : Action S GetVersionResponse
  unfolding Calls.get_version parse_get_version_response
  get_version_with_response =
      Calls.get_version lib c editors >>= λ rsp. lift (parse_get_version_response lib.responses rsp)
