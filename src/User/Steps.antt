-- ===== src/User/Steps.antt =====
-- The users table over time: what one statement of the API can do to it, and what holds of it.
use fleetcontrol.Common.{ℕ, String, ◌≡◌, ◌⊎◌, none, false, List, ◌∷◌, All, ok}
use fleetcontrol.Auth.Principal.{Uuid, role_admin, role_viewer}
use fleetcontrol.Database.{Call}
use fleetcontrol.Database.Table.{
  find, delete, taken, UniqueKeys, UniqueTexts, UniqueKeys-delete, UniqueTexts-delete, All-delete,
}
use fleetcontrol.User.Model.{User}
use fleetcontrol.User.Repository.{id_of, username_of, inserted_row}
use fleetcontrol.User.Service.{Bcrypt, default_cost}

-- A stored hash was made by bcrypt at the default cost from some password.
abbrev pub IsHashed : Bcrypt → String → Type 0
IsHashed bcrypt hash =
    (salt : ℕ) × (password : String) × (bcrypt.generate_from_password salt password default_cost
      ≡ ok hash)

-- A user has one of the two roles, and no password but a hash.
abbrev pub IsAccount : Bcrypt → User → Type 0
IsAccount bcrypt u =
    ((u.role ≡ role_admin) ⊎ (u.role ≡ role_viewer)) × IsHashed bcrypt u.password_hash

pub data Step (bcrypt : Bcrypt) (t : List User) : List User → Type 0 where
  unchanged : Step bcrypt t t
  created :
      (c : Call) (u : User)
      → find id_of c.fresh t ≡ none
      → taken username_of u.username t ≡ false
      → IsAccount bcrypt u
      → Step bcrypt t (inserted_row c u ∷ t)
  deleted : (id : Uuid) → Step bcrypt t (delete id_of id t)

pub record IsRegistry (bcrypt : Bcrypt) (t : List User) : Type 0 where
  pub ids : UniqueKeys id_of t
  pub usernames : UniqueTexts username_of t
  pub rows : All (IsAccount bcrypt) t

-- Every step keeps ids and usernames unique, every role admin or viewer, and every stored password
-- a bcrypt hash.
pub Step-IsRegistry :
    {bcrypt : Bcrypt} {t u : List User}
    → Step bcrypt t u
    → IsRegistry bcrypt t
    → IsRegistry bcrypt u
Step-IsRegistry unchanged f = f
Step-IsRegistry (created c u fresh free account) f = record {
  ids = (fresh, f.ids);
  usernames = (free, f.usernames);
  rows = (account, f.rows);
}
Step-IsRegistry {bcrypt} {t} (deleted id) f = record {
  ids = UniqueKeys-delete id_of id t f.ids;
  usernames = UniqueTexts-delete username_of id_of id t f.usernames;
  rows = All-delete id_of (IsAccount bcrypt) id t f.rows;
}
