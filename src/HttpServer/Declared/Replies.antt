-- ===== src/HttpServer/Declared/Replies.antt =====
-- The replies of api/internal/satellite/handler.go and api/internal/user/handler.go to rows of a
-- well-formed table.
use fleetcontrol.Common.{
  ◌≡◌, refl, inl, inr, String, Bool, true, Bool-cases, Option, none, some, List, [], ◌∷◌, ◌++◌,
  ◌&&◌, All, error_is, managed_by_operator, invalid_role, Error, Result, ok, err, arith,
}
use fleetcontrol.Auth.Principal.{Uuid}
use fleetcontrol.Http.{Outcome}
use fleetcontrol.Gen.Models.{SatelliteBody, UserBody}
use fleetcontrol.Database.Results.{Each, EachSome, EachAll}
use fleetcontrol.Satellite.Handler as SatelliteHandler
use fleetcontrol.Satellite.Handler.{on_id, on_body}
use fleetcontrol.Satellite.Mapper as SatelliteMapper
use fleetcontrol.Satellite.Model.{Satellite}
use fleetcontrol.Satellite.Steps.Invariant.{IsTracked}
use fleetcontrol.User.Handler as UserHandler
use fleetcontrol.User.Mapper as UserMapper
use fleetcontrol.User.Model.{User}
use fleetcontrol.User.Service.Rows.{HasRole}
use fleetcontrol.HttpServer.Declared.{is_declared_satellite, is_declared_user, every, Declares}

every-append :
    {A : Type 0} (p : A → Bool) (xs ys : List A) → every p (xs ++ ys) ≡ (every p xs && every p ys)
every-append p [] ys = refl
every-append p (x ∷ xs) ys = rw (every-append p xs ys) (ground arith)

to_response-declared :
    (s : Satellite)
    → IsTracked s
    → is_declared_satellite (SatelliteMapper.to_response (some s)) ≡ true
unfolding SatelliteMapper.to_response
to_response-declared s (owner, inl (status, _)) = rw (owner, status) refl
to_response-declared s (owner, inr (status, _)) = rw (owner, status) refl

to_response_from-declared :
    (resp : List SatelliteBody) (sats : List Satellite)
    → every is_declared_satellite resp ≡ true
    → All IsTracked sats
    → every is_declared_satellite (SatelliteMapper.to_response_from resp sats) ≡ true
unfolding SatelliteMapper.to_response_from
to_response_from-declared resp [] h rows = h
to_response_from-declared resp (s ∷ sats) h rows =
    to_response_from-declared (resp ++ SatelliteMapper.to_response (some s) ∷ []) sats
      (rw
        (
          every-append is_declared_satellite resp (SatelliteMapper.to_response (some s) ∷ []),
          h,
          to_response-declared s rows.0,
        )
        refl)
      rows.1

user_response-declared : (u : User) → HasRole u → is_declared_user (UserMapper.to_response u) ≡ true
unfolding UserMapper.to_response
user_response-declared u (inl admin) = rw admin refl
user_response-declared u (inr viewer) = rw viewer refl

users_from-declared :
    (resp : List UserBody) (users : List User)
    → every is_declared_user resp ≡ true
    → All HasRole users
    → every is_declared_user (UserMapper.to_response_from resp users) ≡ true
unfolding UserMapper.to_response_from
users_from-declared resp [] h rows = h
users_from-declared resp (u ∷ users) h rows =
    users_from-declared (resp ++ UserMapper.to_response u ∷ []) users
      (rw
        (
          every-append is_declared_user resp (UserMapper.to_response u ∷ []),
          h,
          user_response-declared u rows.0,
        )
        refl)
      rows.1

pub create_reply-Declares :
    (r : Result Satellite) → Each IsTracked r → Declares (SatelliteHandler.create_reply r)
unfolding SatelliteHandler.create_reply
create_reply-Declares (ok sat) h = to_response-declared sat h
create_reply-Declares (err e) h = refl

pub list_reply-Declares :
    (r : Result (List Satellite)) → EachAll IsTracked r → Declares (SatelliteHandler.list_reply r)
unfolding SatelliteHandler.list_reply SatelliteMapper.to_response_list
list_reply-Declares (ok sats) h = to_response_from-declared [] sats refl h
list_reply-Declares (err e) h = refl

pub found_reply-Declares :
    (code : String) (r : Result (Option Satellite))
    → EachSome IsTracked r
    → Declares (SatelliteHandler.found_reply code r)
unfolding SatelliteHandler.found_reply
found_reply-Declares code (ok none) h = refl
found_reply-Declares code (ok (some sat)) h = to_response-declared sat h
found_reply-Declares code (err e) h = refl

service_error-Declares :
    (code : String) (e : Error) → Declares (SatelliteHandler.service_error code e)
service_error-Declares code e = elim (Bool-cases (error_is e managed_by_operator)) [
  | inl guarded ↦ rw guarded refl
  | inr other ↦ rw other refl
]

pub update_reply-Declares :
    (r : Result (Option Satellite))
    → EachSome IsTracked r
    → Declares (SatelliteHandler.update_reply r)
unfolding SatelliteHandler.update_reply
update_reply-Declares (ok none) h = refl
update_reply-Declares (ok (some sat)) h = to_response-declared sat h
update_reply-Declares (err e) h = service_error-Declares "UPDATE_FAILED" e

pub delete_reply-Declares : (r : Result (Unit {0})) → Declares (SatelliteHandler.delete_reply r)
unfolding SatelliteHandler.delete_reply
delete_reply-Declares (ok _) = refl
delete_reply-Declares (err e) = service_error-Declares "DELETE_FAILED" e

pub create_user_reply-Declares :
    (r : Result User) → Each HasRole r → Declares (UserHandler.create_reply r)
unfolding UserHandler.create_reply
create_user_reply-Declares (ok user) h = user_response-declared user h
create_user_reply-Declares (err e) h = elim (Bool-cases (error_is e invalid_role)) [
  | inl bad ↦ rw bad refl
  | inr other ↦ rw other refl
]

pub list_users_reply-Declares :
    (r : Result (List User)) → EachAll HasRole r → Declares (UserHandler.list_reply r)
unfolding UserHandler.list_reply UserMapper.to_response_list
list_users_reply-Declares (ok users) h = users_from-declared [] users refl h
list_users_reply-Declares (err e) h = refl

pub delete_user_reply-Declares : (r : Result (Unit {0})) → Declares (UserHandler.delete_reply r)
unfolding UserHandler.delete_reply
delete_user_reply-Declares (ok _) = refl
delete_user_reply-Declares (err e) = refl

-- The parsing of an id and of a body.
module _ {S : Type 0} (s : S) where
  pub on_id-Declares :
      (o : Option Uuid) (k : Uuid → S → Outcome × S)
      → ((id : Uuid) → Declares (k id s).0)
      → Declares (on_id o k s).0
  on_id-Declares none k all = refl
  on_id-Declares (some id) k all = all id

  pub on_body-Declares :
      {B : Type 0} (o : Option B) (k : B → S → Outcome × S)
      → ((b : B) → Declares (k b s).0)
      → Declares (on_body o k s).0
  on_body-Declares none k all = refl
  on_body-Declares (some b) k all = all b
