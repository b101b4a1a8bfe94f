-- ===== src/Auth/Login/Answers.antt =====
-- What the login handler answers, and that the token which it hands out authenticates its user.
use Prim.Native.String
use fleetcontrol.Common.{
  ◌≡◌, refl, ◌≢◌, ◌≤◌, ◌<◌, ◌+◌, inl, inr, String, Option, none, some, Option-cases, Bool, true,
  false, ◌⊎◌, arith, external, Action, Result, ok, err,
}
use fleetcontrol.Auth.Principal.{Uuid}
use fleetcontrol.Auth.Principal.Accessors.{human_of}
use fleetcontrol.Auth.Jwt.{
  Time, human_token_ttl, JwtLibrary, JwtManager, generate_human_token, human_claims,
}
use fleetcontrol.Auth.Jwt.Tokens.{ReadsBack, RoundsDown, parse-generate}
use fleetcontrol.Auth.Middleware.{middleware, bearer, with_principal}
use fleetcontrol.Auth.Middleware.Access.{middleware-bearer}
use fleetcontrol.Auth.Login.{invalid_credentials, login, row_reply}
use fleetcontrol.Gen.Models.{LoginRequest}
use fleetcontrol.Http.{Request, Handler, Wire, Payload, write_json}
use fleetcontrol.Database.{
  Db, Postgres, Fault, healthy, refused, lost, Call, on_fault, run_call, run_call_result, scan_row,
}
use fleetcontrol.User.Model.{User}
use fleetcontrol.User.Repository.{find_username, select_by_username}
use fleetcontrol.User.Service.{Bcrypt}
use fleetcontrol.Satellite.Repository.Laws.{Up, next}

-- The pool returns an error for the call.
abbrev pub has_failed : Fault → Bool
has_failed healthy = false
has_failed (refused text) = true
has_failed (lost text) = true

run_call_failed :
    {A : Type 0} (P : Result A → Type 0) (c : Call) (run : Call → Action Db A) (db : Db)
    → has_failed c.fault ≡ true
    → ((text : String) → P (err (external text)))
    → P (run_call c run db).0
run_call_failed P c run db failing failed =
    (elim c.fault as (λ f. has_failed f ≡ true → P (on_fault f c run db).0) [
      | healthy ↦ λ h. absurd (ground arith)
      | refused text ↦ λ h. failed text
      | lost text ↦ λ h. failed text
    ])
      failing

module _ (wire : Wire) (bcrypt : Bcrypt) (lib : JwtLibrary) (m : JwtManager) (pg : Postgres)
    (uuid_text : Uuid → String) (now : Time) (r : Request) (db : Db) (req : LoginRequest)
    (body : wire.decode_login r.body ≡ some req) where
  refused_row :
      (row : Option User)
      → ((u : User)
          → row ≡ some u
          → bcrypt.compare_hash_and_password u.password_hash req.password ≢ none)
      → row_reply wire bcrypt lib m pg uuid_text now req.password (scan_row row)
        ≡ invalid_credentials
  refused_row none wrong = refl
  refused_row (some u) wrong =
      elim (Option-cases (bcrypt.compare_hash_and_password u.password_hash req.password)) [
        | inl right ↦ absurd (wrong u refl right)
        | inr (e, differs) ↦ rw differs
      ]

  -- No user has the name with this password.
  abbrev pub IsWrong : Type 0
  IsWrong =
      (u : User)
      → find_username req.username db.users ≡ some u
      → bcrypt.compare_hash_and_password u.password_hash req.password ≢ none

  -- If its body can be read, Login answers an unknown name, a wrong password, and whatever name
  -- and password when the call of the database fails, with one and the same 401.
  pub login_refusal :
      ((has_failed (pg db.calls).fault ≡ true) ⊎ IsWrong)
      → (login wire bcrypt lib m pg uuid_text now r db).0 ≡ invalid_credentials
  unfolding login
  login_refusal (inl failing) = rw body (
      run_call_failed
        (λ row. row_reply wire bcrypt lib m pg uuid_text now req.password row ≡ invalid_credentials)
        (pg db.calls) (select_by_username req.username) (next db) failing (λ text. refl))
  login_refusal (inr wrong) = rw body (
      run_call_result
        (λ row. row_reply wire bcrypt lib m pg uuid_text now req.password row ≡ invalid_credentials)
        (pg db.calls) (select_by_username req.username) (next db)
        (refused_row (find_username req.username db.users) wrong) (λ text. refl))

  module _ (u : User) (up : Up pg db) (found : find_username req.username db.users ≡ some u)
      (right : bcrypt.compare_hash_and_password u.password_hash req.password ≡ none)
      (token : String)
      (signed : generate_human_token lib m now (uuid_text u.id) u.role ≡ ok token) where
    answered : login wire bcrypt lib m pg uuid_text now r db ≡ (
      write_json 200 (Payload.login (record { expires_in = some 3600; token = some token })),
      next db,
    )
    unfolding login
    answered = rw (body, up, found, right, signed)

    -- While the database answers and golang-jwt signs, Login with a body that can be read, with a
    -- known name and its password, answers 200 with the signed token for the id and role of the
    -- user and changes no row; and if golang-jwt reads back what it signed and rounds dates down,
    -- that token, sent as a bearer token before it expires, lets a request through to the next
    -- handler as that user.
    pub login-middleware :
        {S : Type 0} (later : Time) (handler : Handler S) (again : Request) (s : S)
        → ReadsBack lib m.secret (human_claims lib m now (human_of (uuid_text u.id) u.role) u.role)
        → RoundsDown lib
        → now ≤ later
        → later < lib.numeric_date (now + human_token_ttl)
        → again.header "Authorization" ≡ String.◌++◌ bearer token
        → (login wire bcrypt lib m pg uuid_text now r db ≡ (
          write_json 200 (Payload.login (record { expires_in = some 3600; token = some token })),
          next db,
        ))
          × (middleware lib m later handler again s
              ≡ handler (with_principal again (human_of (uuid_text u.id) u.role)) s)
    login-middleware later handler again s reading down after before sent = (
      answered,
      rw (
        middleware-bearer lib m later handler again s token sent,
        parse-generate lib m now later (uuid_text u.id) u.role token reading signed down after
            before,
      ),
    )
