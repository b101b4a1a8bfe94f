-- ===== src/User/Handler/Replies.antt =====
-- What POST /users answers.
use fleetcontrol.Common.{
  ℕ, ◌≡◌, ◌≢◌, ◌⊎◌, inl, inr, String, none, some, false, ◌∷◌, arith, ◌==◌, eq_iff, ok,
}
use fleetcontrol.Auth.Principal.{role_admin, role_viewer}
use fleetcontrol.Gen.Models.{CreateUserRequest}
use fleetcontrol.Http.{Request, Wire, Payload, write_json, write_error}
use fleetcontrol.Database.{Db, Postgres, on_fault}
use fleetcontrol.Database.Table.{find, taken}
use fleetcontrol.Satellite.Repository.Laws.{Up, next}
use fleetcontrol.User.Model.{User}
use fleetcontrol.User.Repository.{
  postgres_repository, username_of, id_of, Repository, create, insert_user,
}
use fleetcontrol.User.Mapper.{create_params_from_request, role_or_default, to_response}
use fleetcontrol.User.Service.{Bcrypt, default_cost}
use fleetcontrol.User.Handler

-- POST /users with a role that is neither admin nor viewer is answered 400 INVALID_ROLE, and the
-- repository is not called.
create_invalid_role :
    {S : Type 0} (wire : Wire) (bcrypt : Bcrypt) (repo : Repository S) (salt : ℕ) (r : Request)
    (s : S) (req : CreateUserRequest)
    → wire.decode_create_user r.body ≡ some req
    → role_or_default req.role ≢ role_admin
    → role_or_default req.role ≢ role_viewer
    → Handler.create wire bcrypt repo salt r s
      ≡ (write_error 400 "INVALID_ROLE" "role must be one of: admin, viewer", s)
unfolding Handler.create
create_invalid_role wire bcrypt repo salt r s req body not_admin not_viewer =
    let a : (role_or_default req.role == role_admin) ≡ false =
      ground (arith, eq_iff (role_or_default req.role) role_admin) in
    let v : (role_or_default req.role == role_viewer) ≡ false =
      ground (arith, eq_iff (role_or_default req.role) role_viewer) in
    rw (body, a, v)

-- While the database answers, POST /users with a role admin or viewer, or none, and a free
-- username and a fresh id stores the bcrypt hash of the password, and answers the user without
-- either.
pub create_user-answer :
    (wire : Wire) (bcrypt : Bcrypt) (pg : Postgres) (salt : ℕ) (r : Request) (db : Db)
    (req : CreateUserRequest) (hash : String)
    → Up pg db
    → wire.decode_create_user r.body ≡ some req
    → (role_or_default req.role ≡ role_admin) ⊎ (role_or_default req.role ≡ role_viewer)
    → bcrypt.generate_from_password salt req.password default_cost ≡ ok hash
    → find id_of (pg db.calls).fresh db.users ≡ none
    → taken username_of req.username db.users ≡ false
    → let user : User = record {
      id = (pg db.calls).fresh;
      username = req.username;
      password_hash = hash;
      role = role_or_default req.role;
      created_at = (pg db.calls).now;
    } in
      Handler.create wire bcrypt (postgres_repository pg) salt r db ≡ (
        write_json 201 (Payload.user (to_response user)),
        record (next db) { users = user ∷ db.users },
      )
unfolding Handler.create create create_params_from_request
create_user-answer wire bcrypt pg salt r db req hash up body (inl is_admin) hashed fresh free =
    rw (body, is_admin, hashed, up, on_fault, insert_user, fresh, free)
create_user-answer wire bcrypt pg salt r db req hash up body (inr is_viewer) hashed fresh free =
    rw (body, is_viewer, hashed, up, on_fault, insert_user, fresh, free)
