-- ===== src/Satellite/Service/Guard.antt =====
-- The guard of operator-owned Satellites, and what a call leaves alone, whatever the database does.
use fleetcontrol.Common.{
  ◌≡◌, refl, ◌⊎◌, inl, inr, String, true, false, Option, none, some, external, sentinel,
  managed_by_operator, Result, ok, err, Action, proceed,
}
use fleetcontrol.Auth.Principal.{Uuid}
use fleetcontrol.Gen.Models.{operator}
use fleetcontrol.Database.{Db, Postgres, run_call_result, scan_row, nil_on_no_rows}
use fleetcontrol.Satellite.Model.{Satellite}
use fleetcontrol.Satellite.Repository.{get_by_id, select_by_id, postgres_repository}
use fleetcontrol.Satellite.Repository.Laws.{view, next}
use fleetcontrol.Satellite.Service
use fleetcontrol.Satellite.Service.{is_guarded, update_found, delete_found}
use fleetcontrol.Satellite.Service.Runs.{get_by_id_keeps}

-- A read returns the row that is there, or an error of the pool.
abbrev Reads : Db → Uuid → Result (Option Satellite) → Type 0
Reads db id r = (r ≡ ok (view db id)) ⊎ ((text : String) × (r ≡ err (external text)))

scan-nil : (o : Option Satellite) → nil_on_no_rows (scan_row o) ≡ ok o
scan-nil none = refl
scan-nil (some s) = refl

get_by_id-Reads : (pg : Postgres) (db : Db) (id : Uuid) → Reads db id (get_by_id pg id db).0
unfolding get_by_id
get_by_id-Reads pg db id =
    run_call_result (λ r. Reads db id (nil_on_no_rows r)) (pg db.calls) (select_by_id id) (next db)
      (inl (scan-nil (view db id))) (λ text. inr (text, refl))

-- The reply of a guarded call: ErrManagedByOperator, or the error of a read that failed.
abbrev pub Refused : {A : Type 0} → Db → Result A × Db → Type 0
Refused db (r, db') =
    (db' ≡ next db)
    × ((r ≡ err (sentinel managed_by_operator)) ⊎ ((text : String) × (r ≡ err (external text))))

module _ (pg : Postgres) (db : Db) (id : Uuid) (sat : Satellite)
    (there : view db id ≡ some sat) where
  refuses :
      {A : Type 0} (k : Option Satellite → Action Db A)
      → k (some sat) (next db) ≡ (err (sentinel managed_by_operator), next db)
      → (r : Result (Option Satellite)) → Reads db id r
      → Refused db (proceed r k (next db))
  refuses k stops r (inl read) = rw (read, there) (rw stops (refl, inl refl))
  refuses k stops r (inr (text, failed)) = rw failed (refl, inr (text, refl))

  guarded : sat.managed_by ≡ operator → is_guarded sat false ≡ true
  guarded owned = rw owned

  -- A call without the mark of the operator does not update an operator-owned Satellite, whatever
  -- the database does: no row changes, and the caller gets ErrManagedByOperator or the error of
  -- the read.
  pub update_guarded :
      (region : String)
      → sat.managed_by ≡ operator
      → Refused db (Service.update (postgres_repository pg) id region false db)
  unfolding Service.update
  update_guarded region owned = rw (get_by_id_keeps pg db id) (
      refuses (update_found (postgres_repository pg) id region false) (rw (guarded owned))
        (get_by_id pg id db).0 (get_by_id-Reads pg db id))

  -- A call without the mark of the operator does not delete an operator-owned Satellite, whatever
  -- the database does: no row changes, and the caller gets ErrManagedByOperator or the error of
  -- the read.
  pub delete_guarded :
      sat.managed_by ≡ operator → Refused db (Service.delete (postgres_repository pg) id false db)
  unfolding Service.delete
  delete_guarded owned = rw (get_by_id_keeps pg db id) (
      refuses (delete_found (postgres_repository pg) id false) (rw (guarded owned))
        (get_by_id pg id db).0 (get_by_id-Reads pg db id))
