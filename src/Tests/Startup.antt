-- ===== src/Tests/Startup.antt =====
-- The theorem on the start of the server in an environment that sets the secret alone.
use fleetcontrol.Common.{
  ◌≡◌, refl, String, none, Option, Error, Result, ok, ◌==◌, if◌then◌else◌, trim_space,
}
use fleetcontrol.Database.Pool.{connect}
use fleetcontrol.Config
use fleetcontrol.Config.{get_env}
use fleetcontrol.Auth.Jwt.{new_jwt_manager}
use fleetcontrol.Auth.Jwt.Config.{Configures}
use fleetcontrol.Startup.{main, listening, jwt_config, main-Configures}
use fleetcontrol.Tests.Fixtures.{manager}

abbrev env : String → String
env key = if key == "JWT_SECRET" then "0123456789abcdef0123456789abcdef" else ""

-- A pool is known by its URL, and every ping is answered.
abbrev new_pool : String → Result String
new_pool url = ok url

abbrev ping : String → Option Error
ping pool = none

started : main env none new_pool ping ≡ listening ":8080" manager
unfolding main Config.load get_env new_jwt_manager trim_space connect
started = refl

main-Configures_example :
    Configures (jwt_config (Config.load env)) manager
    × (◌≡◌ {A = Option Error} none none)
    × ((pool : String) × (new_pool (Config.load env).db_url ≡ ok pool) × (ping pool ≡ none))
    × (◌≡◌ {A = String} ":8080" ":8080")
    × ((Config.load env).jwt_secret ≡ env "JWT_SECRET")
unfolding Config.load get_env
main-Configures_example = main-Configures env none new_pool ping ":8080" manager started
