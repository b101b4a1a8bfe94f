-- ===== src/HttpServer/Answers/Replies.antt =====
-- The replies of api/internal/satellite/handler.go and api/internal/user/handler.go.
use fleetcontrol.Common.{
  ℕ, ◌≡◌, refl, inl, inr, String, true, Bool-cases, Option, none, some, List, error_is,
  managed_by_operator, invalid_role, Result, ok, err,
}
use fleetcontrol.Auth.Principal.{Uuid}
use fleetcontrol.Http.{Outcome}
use fleetcontrol.Satellite.Handler as SatelliteHandler
use fleetcontrol.Satellite.Handler.{on_id, on_body}
use fleetcontrol.Satellite.Model.{Satellite}
use fleetcontrol.User.Handler as UserHandler
use fleetcontrol.User.Model.{User}
use fleetcontrol.HttpServer.Router
use fleetcontrol.HttpServer.Router.{
  Endpoint, Parts, unguarded, route, new_wrapper, with_token, with_admin,
}
use fleetcontrol.HttpServer.Answers.{is_among, answers, Answers}

pub create_reply-Answers :
    (r : Result Satellite) → Answers Router.post_satellites (SatelliteHandler.create_reply r)
unfolding SatelliteHandler.create_reply
create_reply-Answers (ok sat) = refl
create_reply-Answers (err e) = refl

pub list_reply-Answers :
    (r : Result (List Satellite)) → Answers Router.get_satellites (SatelliteHandler.list_reply r)
unfolding SatelliteHandler.list_reply
list_reply-Answers (ok sats) = refl
list_reply-Answers (err e) = refl

pub found_reply-Answers :
    (code : String) (r : Result (Option Satellite))
    → Answers Router.get_satellites_id (SatelliteHandler.found_reply code r)
unfolding SatelliteHandler.found_reply
found_reply-Answers code (ok none) = refl
found_reply-Answers code (ok (some sat)) = refl
found_reply-Answers code (err e) = refl

pub update_reply-Answers :
    (r : Result (Option Satellite))
    → Answers Router.patch_satellites_id (SatelliteHandler.update_reply r)
unfolding SatelliteHandler.update_reply
update_reply-Answers (ok none) = refl
update_reply-Answers (ok (some sat)) = refl
update_reply-Answers (err e) = elim (Bool-cases (error_is e managed_by_operator)) [
  | inl guarded ↦ rw guarded refl
  | inr other ↦ rw other refl
]

pub delete_reply-Answers :
    (r : Result (Unit {0})) → Answers Router.delete_satellites_id (SatelliteHandler.delete_reply r)
unfolding SatelliteHandler.delete_reply
delete_reply-Answers (ok _) = refl
delete_reply-Answers (err e) = elim (Bool-cases (error_is e managed_by_operator)) [
  | inl guarded ↦ rw guarded refl
  | inr other ↦ rw other refl
]

pub create_user_reply-Answers :
    (r : Result User) → Answers Router.post_users (UserHandler.create_reply r)
unfolding UserHandler.create_reply
create_user_reply-Answers (ok user) = refl
create_user_reply-Answers (err e) = elim (Bool-cases (error_is e invalid_role)) [
  | inl bad ↦ rw bad refl
  | inr other ↦ rw other refl
]

pub list_users_reply-Answers :
    (r : Result (List User)) → Answers Router.get_users (UserHandler.list_reply r)
unfolding UserHandler.list_reply
list_users_reply-Answers (ok users) = refl
list_users_reply-Answers (err e) = refl

pub delete_user_reply-Answers :
    (r : Result (Unit {0})) → Answers Router.delete_users_id (UserHandler.delete_reply r)
unfolding UserHandler.delete_reply
delete_user_reply-Answers (ok _) = refl
delete_user_reply-Answers (err e) = refl

-- The parsing of an id and of a body.
module _ {S : Type 0} (ss : List ℕ) (bad : is_among 400 ss ≡ true) (s : S) where
  pub on_id-answers :
      (o : Option Uuid) (k : Uuid → S → Outcome × S)
      → ((id : Uuid) → answers ss (k id s).0 ≡ true)
      → answers ss (on_id o k s).0 ≡ true
  on_id-answers none k all = bad
  on_id-answers (some id) k all = all id

  pub on_body-answers :
      {B : Type 0} (o : Option B) (k : B → S → Outcome × S)
      → ((b : B) → answers ss (k b s).0 ≡ true)
      → answers ss (on_body o k s).0 ≡ true
  on_body-answers none k all = bad
  on_body-answers (some b) k all = all b
