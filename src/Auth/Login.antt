-- ===== src/Auth/Login.antt =====
-- api/internal/auth/handler.go. A UUID is scanned into a text by pgx: the parameter `uuid_text`.
pub mod Answers
use fleetcontrol.Common.{ℕ, ◌/◌, String, Option, none, some, Error, Result, ok, err, Action}
use fleetcontrol.Auth.Principal.{Uuid}
use fleetcontrol.Auth.Jwt.{
  Time, second, human_token_ttl, JwtLibrary, JwtManager, generate_human_token,
}
use fleetcontrol.Gen.Models.{LoginRequest}
use fleetcontrol.Http.{Request, Outcome, Handler, Wire, Payload, write_json, write_error}
use fleetcontrol.Database.{Db, Postgres, statement}
use fleetcontrol.User.Model.{User}
use fleetcontrol.User.Repository.{select_by_username}
use fleetcontrol.User.Service.{Bcrypt}

abbrev pub invalid_credentials : Outcome
invalid_credentials = write_error 401 "INVALID_CREDENTIALS" "invalid username or password"

module _ (wire : Wire) (bcrypt : Bcrypt) (lib : JwtLibrary) (m : JwtManager) (pg : Postgres)
    (uuid_text : Uuid → String) where
  abbrev pub token_reply : Result String → Outcome
  token_reply (err e) = write_error 500 "TOKEN_ERROR" "failed to generate token"
  token_reply (ok token) =
      write_json 200 (
        Payload.login (record { expires_in = some (human_token_ttl / second); token = some token }))

  abbrev pub compared_reply : Time → User → Option Error → Outcome
  compared_reply now u (some e) = invalid_credentials
  compared_reply now u none = token_reply (generate_human_token lib m now (uuid_text u.id) u.role)

  abbrev pub row_reply : Time → String → Result User → Outcome
  row_reply now password (err e) = invalid_credentials
  row_reply now password (ok u) =
      compared_reply now u (bcrypt.compare_hash_and_password u.password_hash password)

  -- SELECT id, password_hash, role FROM users WHERE username = $1
  unfoldable pub query_user : String → Action Db User
  unfolding statement
  query_user name = statement pg (select_by_username name)

  abbrev pub login_decoded : Time → Option LoginRequest → Db → Outcome × Db
  login_decoded now none db = (write_error 400 "INVALID_BODY" "invalid request body", db)
  login_decoded now (some req) db =
      let (row, db') = query_user req.username db in (row_reply now req.password row, db')

  -- Handler.Login
  unfoldable pub login : Time → Handler Db
  unfolding query_user
  login now r = login_decoded now (wire.decode_login r.body)
