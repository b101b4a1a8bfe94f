-- ===== src/Fleetctl/Satellite/Remote.antt =====
-- The delete command of fleetctl/cmd/satellite/satellite.go against the API server, and its way there
-- through api/gen/client.gen.go and api/internal/httpserver/router.go.
use fleetcontrol.Common.{
  ◌≡◌, refl, ◌≢◌, ◌⊎◌, inl, inr, String, true, false, Option, none, Option-cases, List, [], ◌∷◌, ℕ,
  Bool-cases, Result, ok, err,
}
use fleetcontrol.Auth.Principal.{Uuid}
use fleetcontrol.Auth.Jwt.{JwtManager}
use fleetcontrol.Gen.Models.{operator}
use fleetcontrol.Gen.Client.{HttpRequest}
use fleetcontrol.Gen.Client.Responses.{Parsed, GetSatellitesIdResponse}
use fleetcontrol.Gen.Client.WithResponse
use fleetcontrol.Http.{Request}
use fleetcontrol.Database.{Db}
use fleetcontrol.Satellite.Model.{Satellite}
use fleetcontrol.Satellite.Handler.{operator_header}
use fleetcontrol.Satellite.Service.Owned.{Has}
use fleetcontrol.HttpServer.Adapter.{Packages, Moment}
use fleetcontrol.HttpServer.Router
use fleetcontrol.HttpServer.Router.{Endpoint, Pick, matched, unmatched, registered, new_router}
use fleetcontrol.HttpServer.System.{parts_of}
use fleetcontrol.HttpServer.Ownership.{is_heartbeat, new_router-Has}
use fleetcontrol.Fleetctl.Runtime.{client, http_client}
use fleetcontrol.Fleetctl.Runtime.Session.{get_header}
use fleetcontrol.Fleetctl.Output.{Ending}
use fleetcontrol.Fleetctl.Satellite.Sends.{Logged, client-Logged, get-kept, delete-kept}
use fleetcontrol.Fleetctl.Satellite.{
  Env, Session, received, status_of, is_managed, delete_open, delete_checked, delete_in,
  proceed_with, with_id, with_client, delete,
}

-- The tool's requests reach the router of an API server, or are lost before or after. `db_of` is the
-- database of the server and `to_request` a request as net/http delivers it: with the method and
-- the headers that were sent. chi picks a route for its method only, and http.NewRequest makes a
-- request with the given method and no headers.
pub record ServesApi {S : Type 0} (p : Packages) (m : JwtManager) (spec page : String)
    (pick : Request → Pick) (db_of : S → Db) (to_request : HttpRequest → Request) (env : Env S)
    : Type 0 where
  pub picks : (r : Request) (e : Endpoint) → pick r ≡ matched e → r.method ≡ (registered e).0
  pub methods : (req : HttpRequest) → (to_request req).method ≡ req.method
  pub unmarked :
      (req : HttpRequest)
      → get_header operator_header req.headers ≡ none
      → (to_request req).header operator_header ≡ ""
  pub serves :
      (req : HttpRequest) (s : S)
      → (db_of (http_client env.os env.options req s).1 ≡ db_of s)
        ⊎ ((t : Moment) × (db_of (http_client env.os env.options req s).1
              ≡ (new_router (parts_of p m spec page t) none pick (to_request req) (db_of s)).1))
  pub requests :
      (method url : String) (body : Option String) (req : HttpRequest)
      → env.library.requests.new_request method url body ≡ ok req
      → (req.method ≡ method) × (req.headers ≡ [])

-- A route that is picked for another method than POST is no heartbeat.
no_heartbeat :
    (method : String) (k : Pick)
    → ((e : Endpoint) → k ≡ matched e → method ≡ (registered e).0)
    → method ≢ "POST"
    → is_heartbeat k ≡ false
no_heartbeat method (matched Router.post_satellites_id_heartbeat) fits other =
    absurd (other (fits Router.post_satellites_id_heartbeat refl))
no_heartbeat method _ fits other = refl

module _ {S : Type 0} (P : S → Type 0) (env : Env S) where
  received-kept :
      {F : Type 0} (what : String) (expected : List ℕ) (command : Parsed F → S → Ending × S)
      (r : Result (Parsed F) × S)
      → P r.1
      → ((resp : Parsed F) (s : S) → P s → P (command resp s).1)
      → P (received env what expected command r).1
  received-kept what expected command (err e, s) kept all = kept
  received-kept what expected command (ok resp, s) kept all =
      elim (Option-cases (status_of env resp expected)) [
        | inr (e, bad) ↦ rw bad kept
        | inl fine ↦ rw fine (all resp s kept)
      ]

-- The operator's Satellite with an id.
module _ {S : Type 0} (p : Packages) (m : JwtManager) (spec page : String) (pick : Request → Pick)
    (db_of : S → Db) (to_request : HttpRequest → Request) (env : Env S)
    (api : ServesApi p m spec page pick db_of to_request env) (id : Uuid) (sat : Satellite)
    (owned : sat.managed_by ≡ operator) where
  abbrev Kept : S → Type 0
  Kept s = Has id sat (db_of s)

  http_client-Kept :
      (req : HttpRequest) (s : S)
      → get_header operator_header req.headers ≡ none
      → req.method ≢ "POST"
      → Kept s
      → Kept (http_client env.os env.options req s).1
  http_client-Kept req s bare other has = elim (api.serves req s) [
    | inl lost ↦ rw lost has
    | inr (t, served) ↦ rw served (
        new_router-Has p m spec page id sat owned t pick (to_request req) (db_of s)
          (
            rw (api.unmarked req bare) refl,
            no_heartbeat (to_request req).method (pick (to_request req))
                (api.picks (to_request req)) (rw (api.methods req) other),
          )
          has)
  ]

  module _ (session : Session env) (logged : Logged env.os env.options session.0 session.1) where
    delete_open-Kept : (k : Uuid) (s : S) → Kept s → Kept (delete_open env k session s).1
    delete_open-Kept k s has =
        received-kept Kept env "delete satellite" (204 ∷ []) _
          (WithResponse.delete_satellites_id_with_response env.library session.0 session.1 k s)
          (delete-kept Kept env.os env.options http_client-Kept env.library session.0 session.1
            logged api.requests k s has)
          (λ resp s' has'. has')

    delete_checked-Kept :
        (k : Uuid) (resp : GetSatellitesIdResponse) (s : S)
        → Kept s
        → Kept (delete_checked env k session resp s).1
    delete_checked-Kept k resp s has = elim (Bool-cases (is_managed env resp.json.json_200)) [
      | inl managed ↦ rw managed has
      | inr free ↦ rw free (delete_open-Kept k s has)
    ]

    delete_in-Kept : (k : Uuid) (s : S) → Kept s → Kept (delete_in env k session s).1
    delete_in-Kept k s has =
        received-kept Kept env "check satellite ownership" (200 ∷ []) (delete_checked env k session)
          (WithResponse.get_satellites_id_with_response env.library session.0 session.1 k s)
          (get-kept Kept env.os env.options http_client-Kept env.library session.0 session.1 logged
            api.requests k s has)
          (delete_checked-Kept k)

  opened-Kept :
      (k : Uuid) (r : Result (Session env)) (s : S)
      → client env.os env.options true s ≡ r
      → Kept s
      → Kept (proceed_with env (delete_in env k) r s).1
  opened-Kept k (err e) s opens has = has
  opened-Kept k (ok session) s opens has =
      delete_in-Kept session (client-Logged env.os env.options s session.0 session.1 opens) k s has

  parsed-Kept :
      (r : Result Uuid) (s : S)
      → Kept s
      → Kept (with_id env (λ k. with_client env true (delete_in env k)) r s).1
  parsed-Kept (err e) s has = has
  parsed-Kept (ok k) s has = opened-Kept k (client env.os env.options true s) s refl has

  -- If the requests of fleetctl reach the router of the API server or are lost, chi picks routes
  -- by method, and http.NewRequest adds no header, the delete command never changes a Satellite of
  -- the operator in the database, whatever the server answered to its check and whatever fails on
  -- the way.
  pub delete-Has :
      (arg : String) (s : S) → Has id sat (db_of s) → Has id sat (db_of (delete env arg s).1)
  unfolding delete
  delete-Has arg s has = parsed-Kept (env.parse_uuid arg) s has
