-- ===== src/Tests/Remote.antt =====
-- The theorem on fleetctl against the server, at a machine whose state is the database of the server.
use fleetcontrol.Common.{
  ◌≡◌, refl, ap, inr, inl, String, Bool-cases, Option, none, some, [], ◌∷◌, ◌==◌, arith,
  if◌then◌else◌, eq_iff, external, Result, ok, err,
}
use fleetcontrol.Gen.Models.{SatelliteBody, empty_satellite_body, manual}
use fleetcontrol.Gen.Client.{HttpRequest, HttpResponse, HttpRequestDoer}
use fleetcontrol.Http.{Request, no_content}
use fleetcontrol.Database.{Db}
use fleetcontrol.HttpServer.Router
use fleetcontrol.HttpServer.Router.{Endpoint, Pick, matched, unmatched, registered, new_router}
use fleetcontrol.HttpServer.System.{parts_of}
use fleetcontrol.Fleetctl.Runtime.{Os, opened}
use fleetcontrol.Fleetctl.Runtime.Session.{get_header}
use fleetcontrol.Satellite.Service.Owned.{Has}
use fleetcontrol.Fleetctl.Satellite
use fleetcontrol.Fleetctl.Satellite.{Env}
use fleetcontrol.Fleetctl.Satellite.Remote.{ServesApi, delete-Has}
use fleetcontrol.Tests.Fixtures.{manager, core, fleet_db}
use fleetcontrol.Tests.Server.{packages, moment}
use fleetcontrol.Tests.Fleetctl.{requests, responses, texts}

abbrev or_empty : Option String → String
or_empty none = ""
or_empty (some t) = t

abbrev to_request : HttpRequest → Request
to_request req = record {
  method = req.method;
  path = "/satellites/2";
  header = λ key. or_empty (get_header key req.headers);
  url_param = λ key. "2";
  body = "";
  principal = none;
  scopes = none;
}

abbrev by_method : Request → Pick
by_method r =
    if r.method == "DELETE" then matched Router.delete_satellites_id else unmatched no_content

abbrev endpoint_of : Endpoint → Pick → Endpoint
endpoint_of e (matched f) = f
endpoint_of e (unmatched o) = e

by_method-registered :
    (r : Request) (e : Endpoint) → by_method r ≡ matched e → r.method ≡ (registered e).0
by_method-registered r e picked = elim (Bool-cases (r.method == "DELETE")) [
  | inl deletes ↦
      let same : Router.delete_satellites_id ≡ e =
        ap (endpoint_of Router.delete_satellites_id) (rw deletes at picked) in
      rw (← same) ((eq_iff r.method "DELETE").0 deletes)
  | inr other ↦ let clash = rw other at picked in absurd (ground arith)
]

abbrev answered : HttpResponse
answered = record {
  status = "200 OK";
  status_code = 200;
  content_type = "application/json";
  body = ok "core";
}

-- A Satellite that is not reported as the operator's, so that the command sends the DELETE.
abbrev manual_body : SatelliteBody
manual_body = record empty_satellite_body { managed_by = some manual }

-- The API server on the database.
abbrev server : HttpRequestDoer Db
server req db = (
  ok answered,
  (new_router (parts_of packages manager "" "" moment) none by_method (to_request req) db).1,
)

abbrev os : Os Db
os = record {
  user_home_dir = ok "/home/alice";
  config_in = λ home. home;
  open_file = λ file s. opened ("token: alice-token" ∷ []) none;
  mkdir_all = λ dir s. (ok tt, s);
  dir = λ file. file;
  write_file = λ file text s. (ok tt, s);
  quote = λ t. t;
  unquote = λ t. none;
  timed_client = server;
}

abbrev env : Env Db
env = record {
  os = os;
  library = record {
    requests = requests;
    responses = record responses { unmarshal_satellite = λ t. ok manual_body };
    default = server;
  };
  texts = texts;
  options = record { config_path = ""; server = ""; http_client = none };
  parse_uuid = λ t. if t == "2" then ok 2 else err (external "invalid UUID length");
  encode_json = λ value s. (none, s);
}

abbrev built_request : HttpRequest → Result HttpRequest → HttpRequest
built_request req (ok r) = r
built_request req (err e) = req

api : ServesApi packages manager "" "" by_method (λ db. db) to_request env
api = record {
  picks = by_method-registered;
  methods = λ req. refl;
  unmarked = λ req bare. rw bare refl;
  serves = λ req db. inr (moment, refl);
  requests = λ method url body req built. rw (← ap (λ r. built_request req r) built) (refl, refl);
}

-- fleetctl satellite delete 2, of the operator's Satellite.
delete-Has_example : Has 2 core (Satellite.delete env "2" fleet_db).1
delete-Has_example =
    delete-Has packages manager "" "" by_method (λ db. db) to_request env api 2 core refl "2"
      fleet_db refl
