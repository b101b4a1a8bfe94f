-- ===== src/Gen/Client/Status.antt =====
-- api/gen/client.gen.go: the methods Status and StatusCode of the response types.
use fleetcontrol.Common.{ℕ, String}
use fleetcontrol.Gen.Client.Responses.{
  PostAuthLoginResponse, GetHealthResponse, GetSatellitesResponse, PostSatellitesResponse,
  DeleteSatellitesIdResponse, GetSatellitesIdResponse, PatchSatellitesIdResponse,
  PostSatellitesIdHeartbeatResponse, GetUsersResponse, PostUsersResponse, DeleteUsersIdResponse,
  GetVersionResponse, status_of, code_of,
}

module _ (status_text : ℕ → String) where
  abbrev pub post_auth_login_status : PostAuthLoginResponse → String
  post_auth_login_status r = status_of status_text r

  abbrev pub get_health_status : GetHealthResponse → String
  get_health_status r = status_of status_text r

  abbrev pub get_satellites_status : GetSatellitesResponse → String
  get_satellites_status r = status_of status_text r

  abbrev pub post_satellites_status : PostSatellitesResponse → String
  post_satellites_status r = status_of status_text r

  abbrev pub delete_satellites_id_status : DeleteSatellitesIdResponse → String
  delete_satellites_id_status r = status_of status_text r

  abbrev pub get_satellites_id_status : GetSatellitesIdResponse → String
  get_satellites_id_status r = status_of status_text r

  abbrev pub patch_satellites_id_status : PatchSatellitesIdResponse → String
  patch_satellites_id_status r = status_of status_text r

  abbrev pub post_satellites_id_heartbeat_status : PostSatellitesIdHeartbeatResponse → String
  post_satellites_id_heartbeat_status r = status_of status_text r

  abbrev pub get_users_status : GetUsersResponse → String
  get_users_status r = status_of status_text r

  abbrev pub post_users_status : PostUsersResponse → String
  post_users_status r = status_of status_text r

  abbrev pub delete_users_id_status : DeleteUsersIdResponse → String
  delete_users_id_status r = status_of status_text r

  abbrev pub get_version_status : GetVersionResponse → String
  get_version_status r = status_of status_text r

abbrev pub post_auth_login_status_code : PostAuthLoginResponse → ℕ
post_auth_login_status_code r = code_of r

abbrev pub get_health_status_code : GetHealthResponse → ℕ
get_health_status_code r = code_of r

abbrev pub get_satellites_status_code : GetSatellitesResponse → ℕ
get_satellites_status_code r = code_of r

abbrev pub post_satellites_status_code : PostSatellitesResponse → ℕ
post_satellites_status_code r = code_of r

abbrev pub delete_satellites_id_status_code : DeleteSatellitesIdResponse → ℕ
delete_satellites_id_status_code r = code_of r

abbrev pub get_satellites_id_status_code : GetSatellitesIdResponse → ℕ
get_satellites_id_status_code r = code_of r

abbrev pub patch_satellites_id_status_code : PatchSatellitesIdResponse → ℕ
patch_satellites_id_status_code r = code_of r

abbrev pub post_satellites_id_heartbeat_status_code : PostSatellitesIdHeartbeatResponse → ℕ
post_satellites_id_heartbeat_status_code r = code_of r

abbrev pub get_users_status_code : GetUsersResponse → ℕ
get_users_status_code r = code_of r

abbrev pub post_users_status_code : PostUsersResponse → ℕ
post_users_status_code r = code_of r

abbrev pub delete_users_id_status_code : DeleteUsersIdResponse → ℕ
delete_users_id_status_code r = code_of r

abbrev pub get_version_status_code : GetVersionResponse → ℕ
get_version_status_code r = code_of r
