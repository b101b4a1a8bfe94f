-- ===== src/Tests/Logging.antt =====
-- The theorem on the log of requests at a small fleet.
use fleetcontrol.Common.{◌≡◌, none, some, [], ◌∷◌}
use fleetcontrol.Logger.{Entry, request_logger}
use fleetcontrol.HttpServer.Router.{new_router}
use fleetcontrol.HttpServer.Logging.{beside, lift_parts, log_after, new_router-Logs}
use fleetcontrol.Tests.Fixtures.{fleet_db, request}
use fleetcontrol.Tests.Server.{parts, to_delete}

abbrev earlier : Entry
earlier = record { method = "GET"; path = "/health"; status = 200 }

new_router-Logs_example :
    let result = new_router parts none to_delete (request "2" "") fleet_db in
    new_router
      (lift_parts parts)
      (some request_logger)
      to_delete
      (request "2" "")
      (fleet_db, earlier ∷ [])
    ≡ beside (log_after (request "2" "") result.0 (earlier ∷ [])) result
new_router-Logs_example = new_router-Logs parts to_delete (request "2" "") fleet_db (earlier ∷ [])
