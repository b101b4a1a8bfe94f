-- ===== src/User/Service/Runs.antt =====
-- Every run of the user service over PostgreSQL is at most one step of the users table.
use fleetcontrol.Common.{
  ℕ, suc, ◌≡◌, refl, ◌⊎◌, inl, inr, String, not, ◌&&◌, ◌==◌, arith, eq_iff, Bool-cases,
  Option-cases, Result, ok, err, Action,
}
use fleetcontrol.Auth.Principal.{Uuid, role_admin, role_viewer}
use fleetcontrol.Database.{Db, Call, Postgres, run_call, run_call_either}
use fleetcontrol.Database.Table.{find, taken}
use fleetcontrol.User.Model.{User}
use fleetcontrol.User.Repository
use fleetcontrol.User.Repository.{
  id_of, username_of, insert_user, select_all, delete_where, delete_user, postgres_repository,
}
use fleetcontrol.User.Steps.{Step, unchanged, created, deleted, IsAccount}
use fleetcontrol.User.Service
use fleetcontrol.User.Service.{Bcrypt, new_user, default_cost, create_hashed}

-- The state after an action is one step of the users table away, and the satellites are as they were.
abbrev pub OneStep : {A : Type 0} → Bcrypt → Db → A × Db → Type 0
OneStep bcrypt db (_, db') = Step bcrypt db.users db'.users × (db'.satellites ≡ db.satellites)

abbrev pub next : Db → Db
next db = record db { calls = suc db.calls }

module _ (bcrypt : Bcrypt) (pg : Postgres) (db : Db) where
  abbrev After : Db → Type 0
  After d = Step bcrypt db.users d.users × (d.satellites ≡ db.satellites)

  sent :
      {A : Type 0} (run : Call → Action Db A)
      → After (run (pg db.calls) (next db)).1
      → After (run_call (pg db.calls) run (next db)).1
  sent run ran = run_call_either After (pg db.calls) run (next db) (unchanged, refl) ran

  insert-After : (u : User) → IsAccount bcrypt u → After (insert_user u (pg db.calls) (next db)).1
  insert-After u account = elim (Option-cases (find id_of (pg db.calls).fresh db.users)) [
    | inr (old, used) ↦ rw (used, insert_user) (unchanged, refl)
    | inl fresh ↦
        rw (fresh, insert_user)
          (elim (Bool-cases (taken username_of u.username db.users)) [
            | inl there ↦ rw there (unchanged, refl)
            | inr free ↦ rw free (created (pg db.calls) u fresh free account, refl)
          ])
  ]

  create-After : (u : User) → IsAccount bcrypt u → OneStep bcrypt db (Repository.create pg u db)
  unfolding Repository.create
  create-After u account = sent (insert_user u) (insert-After u account)

  hashed-OneStep :
      (salt : ℕ) (username password role : String)
      → (role ≡ role_admin) ⊎ (role ≡ role_viewer)
      → (h : Result String) → bcrypt.generate_from_password salt password default_cost ≡ h
      → OneStep bcrypt db (create_hashed bcrypt (postgres_repository pg) username role h db)
  hashed-OneStep salt username password role named (ok hash) made =
      create-After (new_user username hash role) (named, (salt, password, made))
  hashed-OneStep salt username password role named (err e) made = (unchanged, refl)

  pub create-OneStep :
      (salt : ℕ) (username password role : String)
      → OneStep bcrypt db
          (Service.create bcrypt (postgres_repository pg) salt username password role db)
  unfolding Service.create
  create-OneStep salt username password role =
      elim (Bool-cases (not (role == role_admin) && not (role == role_viewer))) [
        | inl unknown ↦ rw unknown (unchanged, refl)
        | inr known ↦
            let named : (role ≡ role_admin) ⊎ (role ≡ role_viewer) =
              ground (arith, eq_iff role role_admin, eq_iff role role_viewer) in
            rw known (hashed-OneStep salt username password role named _ refl)
      ]

  pub list-OneStep : OneStep bcrypt db (Service.list bcrypt (postgres_repository pg) db)
  unfolding Service.list Repository.list
  list-OneStep = sent select_all (unchanged, refl)

  pub delete-OneStep :
      (id : Uuid) → OneStep bcrypt db (Service.delete bcrypt (postgres_repository pg) id db)
  unfolding Service.delete delete_user
  delete-OneStep id = sent (delete_where id) (deleted id, refl)
