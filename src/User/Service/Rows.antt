-- ===== src/User/Service/Rows.antt =====
-- What the user service returns from a well-formed table: users with a declared role.
use fleetcontrol.Common.{
  ℕ, ◌≡◌, ◌⊎◌, inl, inr, String, not, ◌&&◌, ◌==◌, arith, eq_iff, Bool-cases, Option-cases, All,
  Result, ok, err,
}
use fleetcontrol.Auth.Principal.{role_admin, role_viewer}
use fleetcontrol.Database.{Db, Postgres, run_call_result}
use fleetcontrol.Database.Results.{Each, EachAll, All-order_by_time_desc}
use fleetcontrol.Database.Table.{find, taken}
use fleetcontrol.User.Model.{User}
use fleetcontrol.User.Repository
use fleetcontrol.User.Repository.{
  id_of, username_of, created_at_of, insert_user, select_all, postgres_repository,
}
use fleetcontrol.User.Service
use fleetcontrol.User.Service.{Bcrypt, new_user, create_hashed}
use fleetcontrol.User.Service.Runs.{next}

abbrev pub HasRole : User → Type 0
HasRole u = (u.role ≡ role_admin) ⊎ (u.role ≡ role_viewer)

module _ (bcrypt : Bcrypt) (pg : Postgres) (db : Db) where
  created-Each : (u : User) → HasRole u → Each HasRole (Repository.create pg u db).0
  unfolding Repository.create
  created-Each u named =
      run_call_result (Each HasRole) (pg db.calls) (insert_user u) (next db)
        (elim (Option-cases (find id_of (pg db.calls).fresh db.users)) [
          | inr (old, used) ↦ rw (used, insert_user) tt
          | inl fresh ↦
              rw (fresh, insert_user)
                (elim (Bool-cases (taken username_of u.username db.users)) [
                  | inl there ↦ rw there tt
                  | inr free ↦ rw free named
                ])
        ])
        (λ text. tt)

  hashed-Each :
      (username role : String) (h : Result String)
      → (role ≡ role_admin) ⊎ (role ≡ role_viewer)
      → Each HasRole (create_hashed bcrypt (postgres_repository pg) username role h db).0
  hashed-Each username role (ok hash) named = created-Each (new_user username hash role) named
  hashed-Each username role (err e) named = tt

  pub create-Each :
      (salt : ℕ) (username password role : String)
      → Each HasRole
          (Service.create bcrypt (postgres_repository pg) salt username password role db).0
  unfolding Service.create
  create-Each salt username password role =
      elim (Bool-cases (not (role == role_admin) && not (role == role_viewer))) [
        | inl unknown ↦ rw unknown tt
        | inr known ↦
            let named : (role ≡ role_admin) ⊎ (role ≡ role_viewer) =
              ground (arith, eq_iff role role_admin, eq_iff role role_viewer) in
            rw known (hashed-Each username role _ named)
      ]

  pub list-EachAll :
      All HasRole db.users → EachAll HasRole (Service.list bcrypt (postgres_repository pg) db).0
  unfolding Service.list Repository.list
  list-EachAll rows =
      run_call_result (EachAll HasRole) (pg db.calls) select_all (next db)
        (All-order_by_time_desc HasRole created_at_of db.users rows) (λ text. tt)
