-- ===== src/Gen/Client/Calls.antt =====
-- api/gen/client.gen.go: the methods of Client.
use fleetcontrol.Common.{String, List, Result, Action, ◌>>=◌, lift}
use fleetcontrol.Auth.Principal.{Uuid}
use fleetcontrol.Gen.Models.{
  CreateSatelliteRequest, UpdateSatelliteRequest, CreateUserRequest, LoginRequest,
}
use fleetcontrol.Gen.Client.{
  HttpRequest, HttpResponse, HttpRequestDoer, Client, RequestEditorFn, and_then, apply_editors,
  or_default,
}
use fleetcontrol.Gen.Client.Requests.{
  RequestLibrary, new_post_auth_login_request, new_get_health_request, new_get_satellites_request,
  new_post_satellites_request, new_delete_satellites_id_request, new_get_satellites_id_request,
  new_patch_satellites_id_request, new_post_satellites_id_heartbeat_request, new_get_users_request,
  new_post_users_request, new_delete_users_id_request, new_get_version_request,
  new_post_auth_login_request_with_body, new_post_satellites_request_with_body,
  new_patch_satellites_id_request_with_body, new_post_users_request_with_body,
}
use fleetcontrol.Gen.Client.Responses.{ResponseLibrary}

-- The functions of other packages that the client stands on; `default` is `&http.Client{}`, which
-- NewClient puts where no client was given.
pub record Library (S : Type 0) : Type 0 where
  pub requests : RequestLibrary
  pub responses : ResponseLibrary
  pub default : HttpRequestDoer S

module _ {S : Type 0} (lib : Library S) (c : Client S) (editors : List RequestEditorFn) where
  -- The request is built and edited, and then sent.
  abbrev pub send : Result HttpRequest → Action S HttpResponse
  send req = lift (and_then req (apply_editors c editors)) >>= or_default lib.default c.client

  -- Client.PostAuthLoginWithBody
  unfoldable pub post_auth_login_with_body : String → String → Action S HttpResponse
  unfolding new_post_auth_login_request_with_body
  post_auth_login_with_body content_type body =
      send (new_post_auth_login_request_with_body lib.requests c.server content_type body)

  -- Client.PostAuthLogin
  unfoldable pub post_auth_login : LoginRequest → Action S HttpResponse
  unfolding new_post_auth_login_request
  post_auth_login body = send (new_post_auth_login_request lib.requests c.server body)

  -- Client.GetHealth
  unfoldable pub get_health : Action S HttpResponse
  unfolding new_get_health_request
  get_health = send (new_get_health_request lib.requests c.server)

  -- Client.GetSatellites
  unfoldable pub get_satellites : Action S HttpResponse
  unfolding new_get_satellites_request
  get_satellites = send (new_get_satellites_request lib.requests c.server)

  -- Client.PostSatellitesWithBody
  unfoldable pub post_satellites_with_body : String → String → Action S HttpResponse
  unfolding new_post_satellites_request_with_body
  post_satellites_with_body content_type body =
      send (new_post_satellites_request_with_body lib.requests c.server content_type body)

  -- Client.PostSatellites
  unfoldable pub post_satellites : CreateSatelliteRequest → Action S HttpResponse
  unfolding new_post_satellites_request
  post_satellites body = send (new_post_satellites_request lib.requests c.server body)

  -- Client.DeleteSatellitesId
  unfoldable pub delete_satellites_id : Uuid → Action S HttpResponse
  unfolding new_delete_satellites_id_request
  delete_satellites_id id = send (new_delete_satellites_id_request lib.requests c.server id)

  -- Client.GetSatellitesId
  unfoldable pub get_satellites_id : Uuid → Action S HttpResponse
  unfolding new_get_satellites_id_request
  get_satellites_id id = send (new_get_satellites_id_request lib.requests c.server id)

  -- Client.PatchSatellitesIdWithBody
  unfoldable pub patch_satellites_id_with_body : Uuid → String → String → Action S HttpResponse
  unfolding new_patch_satellites_id_request_with_body
  patch_satellites_id_with_body id content_type body =
      send (new_patch_satellites_id_request_with_body lib.requests c.server id content_type body)

  -- Client.PatchSatellitesId
  unfoldable pub patch_satellites_id : Uuid → UpdateSatelliteRequest → Action S HttpResponse
  unfolding new_patch_satellites_id_request
  patch_satellites_id id body = send (new_patch_satellites_id_request lib.requests c.server id body)

  -- Client.PostSatellitesIdHeartbeat
  unfoldable pub post_satellites_id_heartbeat : Uuid → Action S HttpResponse
  unfolding new_post_satellites_id_heartbeat_request
  post_satellites_id_heartbeat id =
      send (new_post_satellites_id_heartbeat_request lib.requests c.server id)

  -- Client.GetUsers
  unfoldable pub get_users : Action S HttpResponse
  unfolding new_get_users_request
  get_users = send (new_get_users_request lib.requests c.server)

  -- Client.PostUsersWithBody
  unfoldable pub post_users_with_body : String → String → Action S HttpResponse
  unfolding new_post_users_request_with_body
  post_users_with_body content_type body =
      send (new_post_users_request_with_body lib.requests c.server content_type body)

  -- Client.PostUsers
  unfoldable pub post_users : CreateUserRequest → Action S HttpResponse
  unfolding new_post_users_request
  post_users body = send (new_post_users_request lib.requests c.server body)

  -- Client.DeleteUsersId
  unfoldable pub delete_users_id : Uuid → Action S HttpResponse
  unfolding new_delete_users_id_request
  delete_users_id id = send (new_delete_users_id_request lib.requests c.server id)

  -- Client.GetVersion
  unfoldable pub get_version : Action S HttpResponse
  unfolding new_get_version_request
  get_version = send (new_get_version_request lib.requests c.server)
