-- ===== src/Startup.antt =====
-- api/cmd/server/main.go: the order of its steps, and what stops it. The packages zap, pgxpool and
-- net/http are parameters; `none` is a nil error.
use Prim.Native.String
use fleetcontrol.Common.{
  ◌≡◌, refl, inl, inr, String, Option, none, some, Option-cases, Result-cases, Error, Result, ok,
  err, arith,
}
use fleetcontrol.Database.Pool.{connect, connect-eq-ok}
use fleetcontrol.Config
use fleetcontrol.Config.{Config}
use fleetcontrol.Auth.Jwt.{JwtConfig, JwtManager, new_jwt_manager}
use fleetcontrol.Auth.Jwt.Config.{Configures, new_jwt_manager_iff}

-- `listening` is http.ListenAndServe on an address, with the manager that the routes authenticate
-- with.
pub data Exit : Type 0 where
  logger_panic : Error → Exit
  fatal : String → Error → Exit
  listening : String → JwtManager → Exit

abbrev pub jwt_config : Config → JwtConfig
jwt_config cfg = record {
  secret = cfg.jwt_secret;
  issuer = cfg.jwt_issuer;
  audience = cfg.jwt_audience;
}

module _ {P : Type 0} (env : String → String) (new_logger : Option Error)
    (new_pool : String → Result P) (ping : P → Option Error) where
  abbrev pub connected : JwtManager → Result P → Exit
  connected tokens (err e) = fatal "failed to connect to db" e
  connected tokens (ok pool) = listening (String.◌++◌ ":" (Config.load env).port) tokens

  abbrev pub configured : Result JwtManager → Exit
  configured (err e) = fatal "invalid JWT configuration" e
  configured (ok tokens) = connected tokens (connect new_pool ping (Config.load env).db_url)

  abbrev pub logged : Option Error → Exit
  logged (some e) = logger_panic e
  logged none = configured (new_jwt_manager (jwt_config (Config.load env)))

  -- main, up to the call that serves
  unfoldable pub main : Exit
  unfolding new_jwt_manager Config.load connect
  main = logged new_logger

  -- The server listens only if the logger was made, the JWT configuration was accepted, and a pool
  -- was made and answered its ping; then the secret has at least 32 bytes, is not blank and is the
  -- variable JWT_SECRET as it is set, and the port is that of the configuration.
  pub main-Configures :
      (address : String) (m : JwtManager)
      → main ≡ listening address m
      → Configures (jwt_config (Config.load env)) m
        × (new_logger ≡ none)
        × ((pool : P) × (new_pool (Config.load env).db_url ≡ ok pool) × (ping pool ≡ none))
        × (address ≡ String.◌++◌ ":" (Config.load env).port)
        × ((Config.load env).jwt_secret ≡ env "JWT_SECRET")
  unfolding main Config.load
  main-Configures address m listens = elim (Option-cases new_logger) [
    | inr (e, broken) ↦ absurd (ground arith)
    | inl logs ↦ elim (Result-cases (new_jwt_manager (jwt_config (Config.load env)))) [
      | inr (e, refused) ↦ absurd (ground arith)
      | inl (tokens, made) ↦ elim (Result-cases (connect new_pool ping (Config.load env).db_url)) [
        | inr (e, down) ↦ absurd (ground arith)
        | inl (pool, up) ↦
            let same : m ≡ tokens = ground arith in
            let (opened, answers) = connect-eq-ok new_pool ping (Config.load env).db_url pool up in
            (
              rw same ((new_jwt_manager_iff (jwt_config (Config.load env)) tokens).0 made),
              logs,
              (pool, opened, answers),
              ground arith,
              refl,
            )
      ]
    ]
  ]
