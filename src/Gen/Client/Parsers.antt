-- ===== src/Gen/Client/Parsers.antt =====
-- api/gen/client.gen.go: how each operation reads its response.
use fleetcontrol.Common.{ℕ, String, none, some, List, [], ◌∷◌, ◌&&◌, eqb, if◌then◌else◌, Result, ok}
use fleetcontrol.Gen.Client.{HttpResponse, and_then}
use fleetcontrol.Gen.Client.Responses.{
  ResponseLibrary, Parsed, PostAuthLoginJson, GetHealthJson, GetSatellitesJson, PostSatellitesJson,
  DeleteSatellitesIdJson, GetSatellitesIdJson, PatchSatellitesIdJson, PostSatellitesIdHeartbeatJson,
  GetUsersJson, PostUsersJson, DeleteUsersIdJson, GetVersionJson, PostAuthLoginResponse,
  GetHealthResponse, GetSatellitesResponse, PostSatellitesResponse, DeleteSatellitesIdResponse,
  GetSatellitesIdResponse, PatchSatellitesIdResponse, PostSatellitesIdHeartbeatResponse,
  GetUsersResponse, PostUsersResponse, DeleteUsersIdResponse, GetVersionResponse,
}

-- A case of a parser: json.Unmarshal, and the field that the value is stored in.
abbrev into : {A F : Type 0} → (String → Result A) → (A → F) → String → Result F
into unmarshal fill body = and_then (unmarshal body) (λ dest. ok (fill dest))

module _ {F : Type 0} (lib : ResponseLibrary) where
  -- The cases of a parser in order, each with its status code, and what it makes of the body.
  abbrev parse_cases :
      F → List (ℕ × (String → Result F)) → HttpResponse → String → Result (Parsed F)
  parse_cases empty [] rsp body =
      ok (record { body = body; http_response = some rsp; json = empty })
  parse_cases empty ((code, unmarshal) ∷ cases) rsp body =
      let rest = parse_cases empty cases rsp body in
      if lib.mentions_json rsp.content_type && eqb rsp.status_code code
      then and_then (unmarshal body)
          (λ json. ok (record { body = body; http_response = some rsp; json = json }))
      else rest

  abbrev parse_with : F → List (ℕ × (String → Result F)) → HttpResponse → Result (Parsed F)
  parse_with empty cases rsp = and_then rsp.body (parse_cases empty cases rsp)

module _ (lib : ResponseLibrary) where
  abbrev empty_post_auth_login : PostAuthLoginJson
  empty_post_auth_login = record { json_200 = none; json_401 = none }

  -- ParsePostAuthLoginResponse
  unfoldable pub parse_post_auth_login_response : HttpResponse → Result PostAuthLoginResponse
  parse_post_auth_login_response = parse_with lib empty_post_auth_login (
      (
        200,
        into lib.unmarshal_login (λ dest. record empty_post_auth_login { json_200 = some dest }),
      )
      ∷ (
        401,
        into lib.unmarshal_error (λ dest. record empty_post_auth_login { json_401 = some dest }),
      )
      ∷ [])

  abbrev empty_get_health : GetHealthJson
  empty_get_health = record { json_200 = none; json_503 = none }

  -- ParseGetHealthResponse
  unfoldable pub parse_get_health_response : HttpResponse → Result GetHealthResponse
  parse_get_health_response = parse_with lib empty_get_health (
      (200, into lib.unmarshal_health (λ dest. record empty_get_health { json_200 = some dest }))
      ∷ (503, into lib.unmarshal_health (λ dest. record empty_get_health { json_503 = some dest }))
      ∷ [])

  abbrev empty_get_satellites : GetSatellitesJson
  empty_get_satellites = record { json_200 = none; json_401 = none }

  -- ParseGetSatellitesResponse
  unfoldable pub parse_get_satellites_response : HttpResponse → Result GetSatellitesResponse
  parse_get_satellites_response = parse_with lib empty_get_satellites (
      (
        200,
        into lib.unmarshal_satellites
            (λ dest. record empty_get_satellites { json_200 = some dest }),
      )
      ∷ (
        401,
        into lib.unmarshal_error (λ dest. record empty_get_satellites { json_401 = some dest }),
      )
      ∷ [])

  abbrev empty_post_satellites : PostSatellitesJson
  empty_post_satellites = record { json_201 = none; json_401 = none }

  -- ParsePostSatellitesResponse
  unfoldable pub parse_post_satellites_response : HttpResponse → Result PostSatellitesResponse
  parse_post_satellites_response = parse_with lib empty_post_satellites (
      (
        201,
        into lib.unmarshal_satellite
            (λ dest. record empty_post_satellites { json_201 = some dest }),
      )
      ∷ (
        401,
        into lib.unmarshal_error (λ dest. record empty_post_satellites { json_401 = some dest }),
      )
      ∷ [])

  abbrev empty_delete_satellites_id : DeleteSatellitesIdJson
  empty_delete_satellites_id = record { json_403 = none; json_404 = none }

  -- ParseDeleteSatellitesIdResponse
  unfoldable pub parse_delete_satellites_id_response :
      HttpResponse → Result DeleteSatellitesIdResponse
  parse_delete_satellites_id_response = parse_with lib empty_delete_satellites_id (
      (
        403,
        into lib.unmarshal_error
            (λ dest. record empty_delete_satellites_id { json_403 = some dest }),
      )
      ∷ (
        404,
        into lib.unmarshal_error
            (λ dest. record empty_delete_satellites_id { json_404 = some dest }),
      )
      ∷ [])

  abbrev empty_get_satellites_id : GetSatellitesIdJson
  empty_get_satellites_id = record { json_200 = none; json_401 = none; json_404 = none }

  -- ParseGetSatellitesIdResponse
  unfoldable pub parse_get_satellites_id_response : HttpResponse → Result GetSatellitesIdResponse
  parse_get_satellites_id_response = parse_with lib empty_get_satellites_id (
      (
        200,
        into lib.unmarshal_satellite
            (λ dest. record empty_get_satellites_id { json_200 = some dest }),
      )
      ∷ (
        401,
        into lib.unmarshal_error (λ dest. record empty_get_satellites_id { json_401 = some dest }),
      )
      ∷ (
        404,
        into lib.unmarshal_error (λ dest. record empty_get_satellites_id { json_404 = some dest }),
      )
      ∷ [])

  abbrev empty_patch_satellites_id : PatchSatellitesIdJson
  empty_patch_satellites_id = record { json_200 = none; json_403 = none; json_404 = none }

  -- ParsePatchSatellitesIdResponse
  unfoldable pub parse_patch_satellites_id_response :
      HttpResponse → Result PatchSatellitesIdResponse
  parse_patch_satellites_id_response = parse_with lib empty_patch_satellites_id (
      (
        200,
        into lib.unmarshal_satellite
            (λ dest. record empty_patch_satellites_id { json_200 = some dest }),
      )
      ∷ (
        403,
        into lib.unmarshal_error
            (λ dest. record empty_patch_satellites_id { json_403 = some dest }),
      )
      ∷ (
        404,
        into lib.unmarshal_error
            (λ dest. record empty_patch_satellites_id { json_404 = some dest }),
      )
      ∷ [])

  abbrev empty_post_satellites_id_heartbeat : PostSatellitesIdHeartbeatJson
  empty_post_satellites_id_heartbeat = record { json_200 = none; json_404 = none }

  -- ParsePostSatellitesIdHeartbeatResponse
  unfoldable pub parse_post_satellites_id_heartbeat_response :
      HttpResponse → Result PostSatellitesIdHeartbeatResponse
  parse_post_satellites_id_heartbeat_response = parse_with lib empty_post_satellites_id_heartbeat (
      (
        200,
        into lib.unmarshal_satellite
            (λ dest. record empty_post_satellites_id_heartbeat { json_200 = some dest }),
      )
      ∷ (
        404,
        into lib.unmarshal_error
            (λ dest. record empty_post_satellites_id_heartbeat { json_404 = some dest }),
      )
      ∷ [])

  abbrev empty_get_users : GetUsersJson
  empty_get_users = record { json_200 = none; json_403 = none }

  -- ParseGetUsersResponse
  unfoldable pub parse_get_users_response : HttpResponse → Result GetUsersResponse
  parse_get_users_response = parse_with lib empty_get_users (
      (200, into lib.unmarshal_users (λ dest. record empty_get_users { json_200 = some dest }))
      ∷ (403, into lib.unmarshal_error (λ dest. record empty_get_users { json_403 = some dest }))
      ∷ [])

  abbrev empty_post_users : PostUsersJson
  empty_post_users = record { json_201 = none; json_403 = none }

  -- ParsePostUsersResponse
  unfoldable pub parse_post_users_response : HttpResponse → Result PostUsersResponse
  parse_post_users_response = parse_with lib empty_post_users (
      (201, into lib.unmarshal_user (λ dest. record empty_post_users { json_201 = some dest }))
      ∷ (403, into lib.unmarshal_error (λ dest. record empty_post_users { json_403 = some dest }))
      ∷ [])

  abbrev empty_delete_users_id : DeleteUsersIdJson
  empty_delete_users_id = record { json_403 = none; json_404 = none }

  -- ParseDeleteUsersIdResponse
  unfoldable pub parse_delete_users_id_response : HttpResponse → Result DeleteUsersIdResponse
  parse_delete_users_id_response = parse_with lib empty_delete_users_id (
      (
        403,
        into lib.unmarshal_error (λ dest. record empty_delete_users_id { json_403 = some dest }),
      )
      ∷ (
        404,
        into lib.unmarshal_error (λ dest. record empty_delete_users_id { json_404 = some dest }),
      )
      ∷ [])

  abbrev empty_get_version : GetVersionJson
  empty_get_version = record { json_200 = none }

  -- ParseGetVersionResponse
  unfoldable pub parse_get_version_response : HttpResponse → Result GetVersionResponse
  parse_get_version_response = parse_with lib empty_get_version (
      (200, into lib.unmarshal_version (λ dest. record empty_get_version { json_200 = some dest }))
      ∷ [])
