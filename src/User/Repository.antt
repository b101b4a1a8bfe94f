-- ===== src/User/Repository.antt =====
-- api/internal/user/repository.go: the interface, and its implementation over PostgreSQL with the
-- SQL statements of each method on the table of migration 000002.
use fleetcontrol.Common.{
  String, Option, none, some, List, [], ◌∷◌, ◌==◌, if◌then◌else◌, ok, err, Action,
}
use fleetcontrol.Auth.Principal.{Uuid}
use fleetcontrol.Auth.Jwt.{Time}
use fleetcontrol.Database.{Db, Call, Postgres, statement, scan_row, nil_on_no_rows, duplicate_key}
use fleetcontrol.Database.Table.{find, delete, taken, order_by_time_desc}
use fleetcontrol.User.Model.{User}

-- A nil *User is `none`.
pub record Repository (S : Type 0) : Type 0 where
  pub create : User → Action S User
  pub get_by_username : String → Action S (Option User)
  pub get_by_id : Uuid → Action S (Option User)
  pub list : Action S (List User)
  pub delete : Uuid → Action S Unit

abbrev pub id_of : User → Uuid
id_of u = u.id

abbrev pub username_of : User → String
username_of u = u.username

abbrev pub created_at_of : User → Time
created_at_of u = u.created_at

-- … WHERE username = $1
abbrev pub find_username : String → List User → Option User
find_username name [] = none
find_username name (u ∷ t) = if u.username == name then some u else find_username name t

-- The row of INSERT … (username, password_hash, role), with the defaults of the other columns.
abbrev pub inserted_row : Call → User → User
inserted_row c u = record {
  id = c.fresh;
  username = u.username;
  password_hash = u.password_hash;
  role = u.role;
  created_at = c.now;
}

-- The INSERT fails on a primary key or a username that is there.
abbrev pub insert_user : User → Call → Action Db User
insert_user u c db = elim (find id_of c.fresh db.users) [
  | some _ ↦ (err (duplicate_key "users_pkey"), db)
  | none ↦
      if taken username_of u.username db.users
      then (err (duplicate_key "users_username_key"), db)
      else (ok (inserted_row c u), record db { users = inserted_row c u ∷ db.users })
]

abbrev pub select_by_username : String → Call → Action Db User
select_by_username name c db = (scan_row (find_username name db.users), db)

abbrev pub select_by_id : Uuid → Call → Action Db User
select_by_id id c db = (scan_row (find id_of id db.users), db)

abbrev pub select_all : Call → Action Db (List User)
select_all c db = (ok (order_by_time_desc created_at_of db.users), db)

abbrev pub delete_where : Uuid → Call → Action Db Unit
delete_where id c db = (ok tt, record db { users = delete id_of id db.users })

abbrev pub or_nil : {A : Type 0} → Action Db A → Action Db (Option A)
or_nil m db = (nil_on_no_rows (m db).0, (m db).1)

module _ (pg : Postgres) where
  unfoldable pub create : User → Action Db User
  unfolding statement
  create u = statement pg (insert_user u)

  unfoldable pub get_by_username : String → Action Db (Option User)
  unfolding statement
  get_by_username name = or_nil (statement pg (select_by_username name))

  unfoldable pub get_by_id : Uuid → Action Db (Option User)
  unfolding statement
  get_by_id id = or_nil (statement pg (select_by_id id))

  unfoldable pub list : Action Db (List User)
  unfolding statement
  list = statement pg select_all

  unfoldable pub delete_user : Uuid → Action Db Unit
  unfolding statement
  delete_user id = statement pg (delete_where id)

  -- NewPostgresRepository
  abbrev pub postgres_repository : Repository Db
  postgres_repository = record {
    create = create;
    get_by_username = get_by_username;
    get_by_id = get_by_id;
    list = list;
    delete = delete_user;
  }
