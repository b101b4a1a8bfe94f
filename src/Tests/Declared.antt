-- ===== src/Tests/Declared.antt =====
-- The theorem on the declared values after two requests.
use fleetcontrol.Common.{[], ◌∷◌}
use fleetcontrol.HttpServer.Declared.{Declares}
use fleetcontrol.HttpServer.Declared.Routes.{served-Declares}
use fleetcontrol.HttpServer.Router
use fleetcontrol.HttpServer.Router.{route}
use fleetcontrol.HttpServer.System.{parts_of, serve_all}
use fleetcontrol.Tests.Fixtures.{manager, empty_db, request, anonymous}
use fleetcontrol.Tests.Server.{packages, moment, to_create, empty-IsSound}

served-Declares_example :
    Declares
      (route (parts_of packages manager "" "" moment) Router.get_satellites (request "1" "") (
        serve_all packages manager "" "" to_create
          ((moment, request "" "{}") ∷ (moment, anonymous) ∷ [])
          empty_db)).0
served-Declares_example =
    served-Declares packages manager "" "" to_create
      ((moment, request "" "{}") ∷ (moment, anonymous) ∷ []) empty_db moment Router.get_satellites
      (request "1" "") empty-IsSound
