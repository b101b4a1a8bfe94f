-- ===== src/User/Service.antt =====
-- api/internal/user/service.go, over any Repository. The package bcrypt is a parameter, with the
-- salt that GenerateFromPassword draws.
pub mod Rows
pub mod Runs
pub mod Spec
use fleetcontrol.Common.{
  ℕ, String, not, ◌&&◌, Option, List, ◌==◌, if◌then◌else◌, Error, sentinel, invalid_role, Result,
  ok, err, Action, fail,
}
use fleetcontrol.Auth.Principal.{Uuid, nil_uuid, role_admin, role_viewer}
use fleetcontrol.User.Model.{User}
use fleetcontrol.User.Repository.{Repository}

abbrev pub default_cost : ℕ
default_cost = 10

-- bcrypt: GenerateFromPassword of a salt, a password and a cost, and CompareHashAndPassword, where
-- `none` is the nil error.
pub record Bcrypt : Type 0 where
  pub generate_from_password : ℕ → String → ℕ → Result String
  pub compare_hash_and_password : String → String → Option Error

-- `&User{Username: …, PasswordHash: …, Role: …}`
abbrev pub new_user : String → String → String → User
new_user username hash role = record {
  id = nil_uuid;
  username = username;
  password_hash = hash;
  role = role;
  created_at = 0;
}

module _ {S : Type 0} (bcrypt : Bcrypt) (repo : Repository S) where
  abbrev pub create_hashed : String → String → Result String → Action S User
  create_hashed username role (err e) = fail e
  create_hashed username role (ok hash) = repo.create (new_user username hash role)

  -- `salt` is what GenerateFromPassword draws in this call.
  unfoldable pub create : ℕ → String → String → String → Action S User
  create salt username password role =
      if not (role == role_admin) && not (role == role_viewer)
      then fail (sentinel invalid_role)
      else create_hashed username role (bcrypt.generate_from_password salt password default_cost)

  unfoldable pub get_by_id : Uuid → Action S (Option User)
  get_by_id id = repo.get_by_id id

  unfoldable pub list : Action S (List User)
  list = repo.list

  unfoldable pub delete : Uuid → Action S Unit
  delete id = repo.delete id
