-- ===== src/User/Service/Spec.antt =====
-- What the user service promises, on the accounts alone: a map from ids to users.
use fleetcontrol.Common.{
  ℕ, suc, ◌≡◌, refl, inl, inr, String, true, false, not, ◌&&◌, ◌==◌, eqb, arith, eq_iff, Bool-cases,
  Option, none, some, List, [], ◌∷◌, Error, external, sentinel, invalid_role, Result, ok, err,
  if◌then◌else◌,
}
use fleetcontrol.Auth.Principal.{Uuid, role_admin, role_viewer}
use fleetcontrol.Database.{Db, Call, Postgres, healthy}
use fleetcontrol.Database.Table.{find, taken, UniqueKeys}
use fleetcontrol.User.Model.{User}
use fleetcontrol.User.Repository
use fleetcontrol.User.Repository.{
  id_of, username_of, inserted_row, insert_user, delete_user, postgres_repository,
}
use fleetcontrol.User.Service
use fleetcontrol.User.Service.{Bcrypt, new_user, default_cost, create_hashed}

abbrev pub Accounts : Type 0
Accounts = Uuid → Option User

abbrev pub accounts : Db → Accounts
accounts db id = find id_of id db.users

abbrev pub put : Accounts → Uuid → Option User → Accounts
put users k u j = if eqb k j then u else users j

-- The next statement runs and its reply arrives.
abbrev pub Up : Postgres → Db → Type 0
Up pg db = (pg db.calls).fault ≡ healthy

abbrev next : Db → Db
next db = record db { calls = suc db.calls }

-- Somebody has the name.
abbrev pub HasName : String → Accounts → Type 0
HasName name users = (id : Uuid) × (u : User) × (users id ≡ some u) × (u.username ≡ name)

-- A name that is taken in the table is somebody's, if no two rows share an id.
taken-HasName :
    (name : String) (t : List User)
    → UniqueKeys id_of t
    → taken username_of name t ≡ true
    → HasName name (λ id. find id_of id t)
taken-HasName name [] unique h = absurd (ground arith)
taken-HasName name (u ∷ t) (fresh, unique) h = elim (Bool-cases (u.username == name)) [
  | inl here ↦ (u.id, u, ground arith, (eq_iff u.username name).0 here)
  | inr there ↦
      let (id, v, found, named) = taken-HasName name t unique (ground arith) in
      elim (Bool-cases (eqb u.id id)) [
        | inl same ↦
            let e : u.id ≡ id = ground arith in
            let gone : find id_of id t ≡ none = rw e at fresh in
            absurd (ground (arith, gone, found))
        | inr other ↦ (id, v, rw other found, named)
      ]
]

free-HasName :
    (name : String) (t : List User)
    → taken username_of name t ≡ false
    → HasName name (λ id. find id_of id t)
    → ⊥
free-HasName name [] h (id, u, found, named) = ground arith
free-HasName name (v ∷ t) h (id, u, found, named) = elim (Bool-cases (v.username == name)) [
  | inl here ↦ ground arith
  | inr there ↦ elim (Bool-cases (eqb v.id id)) [
    | inl same ↦
        let e : ◌≡◌ {A = Option User} (some v) (some u) = rw same at found in
        ground (arith, eq_iff v.username name)
    | inr other ↦ free-HasName name t (ground arith) (id, u, rw other at found, named)
  ]
]

-- One call of create with the hash h on the accounts before: its result and the accounts after.
pub data Created (c : Call) (username role : String) (h : Result String) (users : Accounts)
    (r : Result User) (users' : Accounts) : Type 0 where
  bad_role :
      not (role == role_admin) && not (role == role_viewer) ≡ true
      → r ≡ err (sentinel invalid_role)
      → ((j : Uuid) → users' j ≡ users j)
      → Created c username role h users r users'
  no_hash :
      (e : Error)
      → not (role == role_admin) && not (role == role_viewer) ≡ false
      → h ≡ err e
      → r ≡ err e
      → ((j : Uuid) → users' j ≡ users j)
      → Created c username role h users r users'
  name_held :
      (hash text : String)
      → not (role == role_admin) && not (role == role_viewer) ≡ false
      → h ≡ ok hash
      → HasName username users
      → r ≡ err (external text)
      → ((j : Uuid) → users' j ≡ users j)
      → Created c username role h users r users'
  stored :
      (hash : String)
      → not (role == role_admin) && not (role == role_viewer) ≡ false
      → h ≡ ok hash
      → ¬ HasName username users
      → r ≡ ok (inserted_row c (new_user username hash role))
      → ((j : Uuid)
          → users' j ≡ put users c.fresh (some (inserted_row c (new_user username hash role))) j)
      → Created c username role h users r users'

module _ (pg : Postgres) (db : Db) (up : Up pg db) where
  create_lem :
      (u : User)
      → accounts db (pg db.calls).fresh ≡ none
      → taken username_of u.username db.users ≡ false
      → let row = inserted_row (pg db.calls) u in
        Repository.create pg u db ≡ (ok row, record (next db) { users = row ∷ db.users })
  unfolding Repository.create
  create_lem u fresh free = ground (arith, up)

  create_duplicate :
      (u : User)
      → accounts db (pg db.calls).fresh ≡ none
      → taken username_of u.username db.users ≡ true
      → Repository.create pg u db ≡ (err (external "users_username_key"), next db)
  unfolding Repository.create
  create_duplicate u fresh there = ground (arith, up)

  module _ (bcrypt : Bcrypt) (salt : ℕ) (username password role : String) where
    abbrev hashed : Result String
    hashed = bcrypt.generate_from_password salt password default_cost

    abbrev AsCreated : Result User × Db → Type 0
    AsCreated (r, db') = Created (pg db.calls) username role hashed (accounts db) r (accounts db')

    hashed-Created :
        (h : Result String)
        → hashed ≡ h
        → not (role == role_admin) && not (role == role_viewer) ≡ false
        → UniqueKeys id_of db.users
        → accounts db (pg db.calls).fresh ≡ none
        → AsCreated (create_hashed bcrypt (postgres_repository pg) username role h db)
    hashed-Created (err e) made known unique fresh = no_hash e known made refl (λ j. refl)
    hashed-Created (ok hash) made known unique fresh =
        let u = new_user username hash role in
        elim (Bool-cases (taken username_of username db.users)) [
          | inl there ↦ rw (create_duplicate u fresh there) (
              name_held hash "users_username_key" known made
                (taken-HasName username db.users unique there) refl (λ j. refl))
          | inr free ↦
              rw (create_lem u fresh free)
                (stored hash known made (free-HasName username db.users free) refl (λ j. refl))
        ]

    -- While the database answers, no two users share an id and the drawn id is fresh,
    -- Service.Create over PostgreSQL is a step of the specified map from ids to users:
    -- ErrInvalidRole for a role other than admin and viewer, the error of bcrypt, or an error of
    -- the database if some user has the name, each with no change of the map, and else the user
    -- with the hash under the drawn id, which is returned, when no user has the name.
    pub create-Implements :
        UniqueKeys id_of db.users
        → accounts db (pg db.calls).fresh ≡ none
        → Created
            (pg db.calls)
            username
            role
            hashed
            (accounts db)
            (Service.create bcrypt (postgres_repository pg) salt username password role db).0
            (accounts
              (Service.create bcrypt (postgres_repository pg) salt username password role db).1)
    unfolding Service.create
    create-Implements unique fresh =
        elim (Bool-cases (not (role == role_admin) && not (role == role_viewer))) [
          | inl unknown ↦ rw unknown (bad_role unknown refl (λ j. refl))
          | inr known ↦ rw known (hashed-Created hashed refl known unique fresh)
        ]
