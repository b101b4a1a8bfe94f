-- ===== src/Satellite/Mapper.antt =====
-- api/internal/satellite/mapper.go
use fleetcontrol.Common.{Option, none, some, List, [], ◌∷◌, ◌++◌}
use fleetcontrol.Auth.Principal.{nil_uuid}
use fleetcontrol.Gen.Models.{CreateSatelliteRequest, SatelliteBody, empty_satellite_body}
use fleetcontrol.Satellite.Model.{Satellite}

-- The fields that the request does not give are zero values; the zero time is 0 here.
unfoldable pub to_domain_create : CreateSatelliteRequest → Satellite
to_domain_create req = record {
  id = nil_uuid;
  name = req.name;
  region = req.region;
  status = "";
  managed_by = "";
  last_seen_at = none;
  created_at = 0;
}

-- ToResponse; `none` is a nil *Satellite.
unfoldable pub to_response : Option Satellite → SatelliteBody
to_response none = empty_satellite_body
to_response (some s) = record {
  created_at = some s.created_at;
  id = some s.id;
  last_seen_at = s.last_seen_at;
  managed_by = some s.managed_by;
  name = some s.name;
  region = some s.region;
  status = some s.status;
}

-- The loop of ToResponseList, which appends to `resp`.
unfoldable pub to_response_from : List SatelliteBody → List Satellite → List SatelliteBody
unfolding to_response
to_response_from resp [] = resp
to_response_from resp (s ∷ satellites) =
    to_response_from (resp ++ to_response (some s) ∷ []) satellites

unfoldable pub to_response_list : List Satellite → List SatelliteBody
unfolding to_response_from
to_response_list satellites = to_response_from [] satellites
