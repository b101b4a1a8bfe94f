-- ===== src/Database.antt =====
-- The PostgreSQL database behind the repositories: the two tables of api/internal/db/migrations, and
-- one SQL statement as one atomic call of the pool. What the program does not decide is the
-- argument `pg`: for the n-th statement, whether the call fails, and the values of gen_random_uuid()
-- and now().
pub mod Results
pub mod Table
pub mod Pool
use fleetcontrol.Common.{
  ℕ, suc, String, List, Error, external, sentinel, no_rows, Result, ok, err, Option, none, some,
  error_eq, Action, if◌then◌else◌,
}
use fleetcontrol.Auth.Principal.{Uuid}
use fleetcontrol.Auth.Jwt.{Time}
use fleetcontrol.Satellite.Model.{Satellite}
use fleetcontrol.User.Model.{User}

-- A call may be refused before the statement runs, or its reply may be lost after it has run: a
-- dropped connection, a timeout, or a request context that was cancelled.
pub data Fault : Type 0 where
  healthy : Fault
  refused lost : String → Fault

pub record Call : Type 0 where
  pub fault : Fault
  pub fresh : Uuid
  pub now : Time

abbrev pub Postgres : Type 0
Postgres = ℕ → Call

-- `calls` counts the statements sent so far.
pub record Db : Type 0 where
  pub satellites : List Satellite
  pub users : List User
  pub calls : ℕ

abbrev pub on_fault : {A : Type 0} → Fault → Call → (Call → Action Db A) → Action Db A
on_fault healthy c run db = run c db
on_fault (refused text) c run db = (err (external text), db)
on_fault (lost text) c run db = (err (external text), (run c db).1)

abbrev pub run_call : {A : Type 0} → Call → (Call → Action Db A) → Action Db A
run_call c run db = on_fault c.fault c run db

-- One statement on the pool.
unfoldable pub statement : {A : Type 0} → Postgres → (Call → Action Db A) → Action Db A
statement pg run db = run_call (pg db.calls) run (record db { calls = suc db.calls })

-- QueryRow(…).Scan: the first row, or pgx.ErrNoRows.
abbrev pub scan_row : {A : Type 0} → Option A → Result A
scan_row none = err (sentinel no_rows)
scan_row (some a) = ok a

-- The repositories' `if err == pgx.ErrNoRows { return nil, nil }`.
abbrev pub nil_on_no_rows : {A : Type 0} → Result A → Result (Option A)
nil_on_no_rows (ok a) = ok (some a)
nil_on_no_rows (err e) = if error_eq e no_rows then ok none else err e

-- The text of PostgreSQL's unique_violation for a constraint.
abbrev pub duplicate_key : String → Error
duplicate_key constraint = external constraint

-- Whatever the database does, a call leaves the rows as they were or as its statement makes them;
-- so what holds of both holds afterwards.
pub run_call_either :
    {A : Type 0} (P : Db → Type 0) (c : Call) (run : Call → Action Db A) (db : Db)
    → P db
    → P (run c db).1
    → P (run_call c run db).1
run_call_either P c run db kept ran = elim c.fault as (λ f. P (on_fault f c run db).1) [
  | healthy ↦ ran
  | refused text ↦ kept
  | lost text ↦ ran
]

-- What a call returns: the result of its statement, or an error of the pool.
pub run_call_result :
    {A : Type 0} (P : Result A → Type 0) (c : Call) (run : Call → Action Db A) (db : Db)
    → P (run c db).0
    → ((text : String) → P (err (external text)))
    → P (run_call c run db).0
run_call_result P c run db ran failed = elim c.fault as (λ f. P (on_fault f c run db).0) [
  | healthy ↦ ran
  | refused text ↦ failed text
  | lost text ↦ failed text
]
