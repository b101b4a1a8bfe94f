-- ===== src/Tests/Auth.antt =====
-- The theorems on principals, tokens, middlewares and login at concrete inputs.
use fleetcontrol.Common.{
  ℕ, ◌≡◌, refl, ◌≢◌, ◌↔◌, inl, String, none, some, eq_iff, arith, trim_space, Error, ok, err,
}
use fleetcontrol.Auth.Principal.{
  Principal, validate, new_principal, new_human_principal, role_admin, actor_agent,
}
use fleetcontrol.Auth.Principal.Invariant.{IsValid, human, validate_iff}
use fleetcontrol.Auth.Principal.Accessors.{human_of}
use fleetcontrol.Auth.Jwt.{
  validate_claims, JwtConfig, new_jwt_manager, generate_human_token, parse_claims,
  parse_human_token,
}
use fleetcontrol.Auth.Jwt.Config.{Configures, new_jwt_manager_iff}
use fleetcontrol.Auth.Jwt.Tokens.{Vouches, parse_human_token-Vouches, parse-generate, parse_expired}
use fleetcontrol.Auth.Middleware.{middleware, with_principal}
use fleetcontrol.Auth.Login.{login, invalid_credentials}
use fleetcontrol.Auth.Login.Answers.{login_refusal, login-middleware}
use fleetcontrol.Http.{write_json, Payload}
use fleetcontrol.Common.{inr}
use fleetcontrol.Satellite.Repository.Laws.{next}
use fleetcontrol.Tests.Fixtures.{
  manager, issued, soon, too_late, jwt, jwt-ChecksClaims, jwt-ReadsBack, jwt-RoundsDown, alice,
  fleet_db, empty_db, healthy_pg, bcrypt, wire, request, answering,
}

named : trim_space "1" ≢ ""
unfolding trim_space
named e = ground (arith, eq_iff "1" "")

abbrev robot : Principal
robot = record { kind = actor_agent; subject = "1"; role = ""; satellite_id = 7 }

alice-IsValid : IsValid (human_of "1" role_admin)
alice-IsValid = human "1" role_admin named (inl refl)

validate_iff_example : (validate robot ≡ none) ↔ IsValid robot
validate_iff_example = validate_iff robot

abbrev config : JwtConfig
config = record {
  secret = "0123456789abcdef0123456789abcdef";
  issuer = " fleetcontrol ";
  audience = "fleetcontrol-api";
}

new_jwt_manager_iff_example : (new_jwt_manager config ≡ ok manager) ↔ Configures config manager
new_jwt_manager_iff_example = new_jwt_manager_iff config manager

alice-generated : generate_human_token jwt manager issued "1" role_admin ≡ ok "alice-token"
unfolding generate_human_token new_human_principal new_principal validate trim_space
alice-generated = refl

alice-parsed : parse_human_token jwt manager soon "alice-token" ≡ ok (human_of "1" role_admin)
unfolding parse_human_token new_human_principal new_principal validate trim_space validate_claims
alice-parsed = refl

parse_human_token-Vouches_example :
    Vouches manager soon
      (parse_claims jwt manager soon "alice-token").claims
      (human_of "1" role_admin)
parse_human_token-Vouches_example =
    parse_human_token-Vouches jwt manager soon "alice-token" (human_of "1" role_admin)
      jwt-ChecksClaims alice-parsed

parse-generate_example :
    parse_human_token jwt manager soon "alice-token" ≡ ok (human_of "1" role_admin)
parse-generate_example =
    parse-generate jwt manager issued soon "1" role_admin "alice-token" jwt-ReadsBack
      alice-generated jwt-RoundsDown (omega arith) (omega arith)

parse_expired_example : (e : Error) × (parse_human_token jwt manager too_late "alice-token" ≡ err e)
parse_expired_example =
    parse_expired jwt manager issued too_late "1" role_admin "alice-token" jwt-ReadsBack
      alice-generated jwt-RoundsDown jwt-ChecksClaims (omega arith)

abbrev id_text : ℕ → String
id_text n = "1"

login_refusal_example :
    (login wire bcrypt jwt manager healthy_pg id_text issued (request "1" "secret") empty_db).0
    ≡ invalid_credentials
login_refusal_example =
    login_refusal wire bcrypt jwt manager healthy_pg id_text issued (request "1" "secret") empty_db
      (record { password = "secret"; username = "alice" }) refl (inr (λ u found. ground arith))

login-middleware_example :
    (login wire bcrypt jwt manager healthy_pg id_text issued (request "1" "secret") fleet_db ≡ (
      write_json 200
          (Payload.login (record { expires_in = some 3600; token = some "alice-token" })),
      next fleet_db,
    ))
    × (middleware jwt manager soon answering (request "1" "") 0
        ≡ answering (with_principal (request "1" "") (human_of "1" role_admin)) 0)
login-middleware_example =
    login-middleware wire bcrypt jwt manager healthy_pg id_text issued (request "1" "secret")
      fleet_db (record { password = "secret"; username = "alice" }) refl alice refl refl refl
      "alice-token" alice-generated soon answering (request "1" "") 0 jwt-ReadsBack jwt-RoundsDown
      (omega arith) (omega arith) refl
