-- ===== src/Tests/Server.antt =====
-- The theorems on the server at a small fleet.
use fleetcontrol.Common.{ℕ, ◌≡◌, refl, ◌⊎◌, String, true, none, [], ◌∷◌}
use fleetcontrol.Auth.Principal.{role_admin}
use fleetcontrol.Auth.Principal.Accessors.{human_of}
use fleetcontrol.Auth.Principal.{validate, new_principal, new_human_principal}
use fleetcontrol.Auth.Jwt.{parse_human_token, validate_claims}
use fleetcontrol.Common.{trim_space, ok, external}
use fleetcontrol.Http.{Request, panicked}
use fleetcontrol.Database.{Db}
use fleetcontrol.HttpServer.Adapter.{Packages, Moment}
use fleetcontrol.HttpServer.Router
use fleetcontrol.HttpServer.Router.{Endpoint, Parts, Pick, matched, registered, route, unguarded}
use fleetcontrol.Gen.Routes
use fleetcontrol.Satellite.Service.Owned.{Has}
use fleetcontrol.HttpServer.Contract.{
  on_documents, operations, IsAmong, Pairwise, Agrees, handler-Agrees,
}
use fleetcontrol.HttpServer.Answers.Routes.{RouteVerdict, route-Answers}
use fleetcontrol.HttpServer.Ownership.{serve_all-Has}
use fleetcontrol.HttpServer.Access.{
  TokenVerdict, AdminVerdict, route-on_satellites, route-on_users, route_panics,
}
use fleetcontrol.HttpServer.System.{IsSound, parts_of, serve_all, serve_all-IsSound}
use fleetcontrol.Tests.Fixtures.{
  manager, soon, jwt, bcrypt, wire, healthy_pg, core, fleet_db, empty_db, request, anonymous,
}

abbrev pub packages : Packages
packages = record {
  wire = wire;
  bcrypt = bcrypt;
  jwt = jwt;
  postgres = healthy_pg;
  uuid_text = λ id. "1";
}

abbrev pub moment : Moment
moment = record { now = soon; salt = 0; ping = none }

abbrev pub parts : Parts Db
parts = parts_of packages manager "" "" moment

pub empty-IsSound : IsSound bcrypt empty_db
empty-IsSound = record {
  fleet = record { ids = tt; names = tt; rows = tt };
  registry = record { ids = tt; usernames = tt; rows = tt };
}

abbrev pub to_create : Request → Pick
to_create r = matched Router.post_satellites

serve_all-IsSound_example : IsSound bcrypt (
    serve_all packages manager "" "" to_create
      ((moment, request "" "{}") ∷ (moment, anonymous) ∷ [])
      empty_db)
serve_all-IsSound_example =
    serve_all-IsSound packages manager "" "" to_create
      ((moment, request "" "{}") ∷ (moment, anonymous) ∷ []) empty_db empty-IsSound

route-on_satellites_example :
    TokenVerdict parts
      (unguarded parts Router.get_satellites)
      (request "1" "")
      fleet_db
      (route parts Router.get_satellites (request "1" "") fleet_db)
route-on_satellites_example =
    route-on_satellites parts Router.get_satellites (request "1" "") fleet_db refl

route-on_users_example :
    AdminVerdict parts
      (unguarded parts Router.post_users)
      (request "1" "{}")
      fleet_db
      (route parts Router.post_users (request "1" "{}") fleet_db)
route-on_users_example = route-on_users parts Router.post_users (request "1" "{}") fleet_db refl

alice-authenticated :
    parse_human_token jwt manager soon "alice-token" ≡ ok (human_of "1" role_admin)
unfolding parse_human_token new_human_principal new_principal validate trim_space validate_claims
alice-authenticated = refl

route_panics_example :
    route parts Router.get_satellites_id (request "junk" "") fleet_db
    ≡ (panicked "runtime error: invalid memory address or nil pointer dereference", fleet_db)
route_panics_example =
    route_panics parts Router.get_satellites_id (request "junk" "") fleet_db "alice-token"
      (human_of "1" role_admin) (external "invalid UUID length") refl refl alice-authenticated refl

abbrev decimal : ℕ → String
decimal n = "1"

handler-Agrees_example :
    Pairwise
      (Agrees parts decimal (request "junk" "") fleet_db)
      operations
      (Routes.handler parts.wire decimal parts.server)
    × ((e : Endpoint) → (on_documents e ≡ true) ⊎ IsAmong e operations)
    × (registered Router.get_openapi ≡ ("GET", "/openapi.yaml"))
    × (registered Router.get_docs ≡ ("GET", "/docs"))
    × (route parts Router.get_openapi (request "junk" "") fleet_db
        ≡ parts.serve_spec (request "junk" "") fleet_db)
    × (route parts Router.get_docs (request "junk" "") fleet_db
        ≡ parts.serve_ui (request "junk" "") fleet_db)
handler-Agrees_example = handler-Agrees parts decimal (request "junk" "") fleet_db

route-Answers_example :
    RouteVerdict packages manager "" "" moment Router.delete_satellites_id
      (request "junk" "")
      fleet_db
      (route parts Router.delete_satellites_id (request "junk" "") fleet_db)
route-Answers_example =
    route-Answers packages manager "" "" moment Router.delete_satellites_id (request "junk" "")
      fleet_db

abbrev pub to_delete : Request → Pick
to_delete r = matched Router.delete_satellites_id

-- Two requests that would delete the operator's Satellite.
serve_all-Has_example : Has 2 core (
    serve_all packages manager "" "" to_delete
      ((moment, request "2" "") ∷ (moment, request "2" "{}") ∷ [])
      fleet_db)
serve_all-Has_example =
    serve_all-Has packages manager "" "" 2 core refl to_delete
      ((moment, request "2" "") ∷ (moment, request "2" "{}") ∷ []) fleet_db
      ((refl, refl), ((refl, refl), tt)) refl
