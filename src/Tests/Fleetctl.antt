-- ===== src/Tests/Fleetctl.antt =====
-- The theorems on the command line tool at a machine whose state is the text of its file.
use Prim.Native.Char.{Char, code}
use Prim.Native.String
use text.Mathlib.TextLemmas.{cons-append, nil-append}
use fleetcontrol.Common.{
  ◌≡◌, refl, ap, String, true, false, Option, none, some, List, [], ◌∷◌, eqb, ◌==◌, if◌then◌else◌,
  arith, trim_space, external, Result, ok, err,
}
use fleetcontrol.Gen.Models.{SatelliteBody, empty_satellite_body, operator}
use fleetcontrol.Gen.Client.{HttpRequest, HttpResponse, HttpRequestDoer, Client}
use fleetcontrol.Gen.Client.Requests.{RequestLibrary, new_delete_satellites_id_request}
use fleetcontrol.HttpServer.Router
use fleetcontrol.HttpServer.Requests.{
  KeepsTarget, Arguments, request_of, Addresses, request_of-Addresses,
}
use fleetcontrol.Gen.Client.Responses.{ResponseLibrary}
use fleetcontrol.Fleetctl.Output.{Texts}
use fleetcontrol.Fleetctl.Runtime.{Config, Options, opened, Os, load, save, client, authorize}
use fleetcontrol.Fleetctl.Runtime.Session.{
  has_break, ScansBack, QuotesBack, load-save, Authorizes, client-Authorizes,
}
use fleetcontrol.Gen.Client.{new_client}
use fleetcontrol.Fleetctl.Secret.{PasswordReader}
use fleetcontrol.Fleetctl.Satellite.{Env}

abbrev glue : Char → List String → List String
glue c [] = String.◌∷◌ c String.[] ∷ []
glue c (l ∷ ls) = String.◌∷◌ c l ∷ ls

abbrev split_lines : String → List String
split_lines String.[] = []
split_lines (String.◌∷◌ c s) =
    let rest = split_lines s in if eqb (code c) 10 then "" ∷ rest else glue c rest

line_feed : (t : String) → split_lines (String.◌++◌ "\n" t) ≡ "" ∷ split_lines t
line_feed t = rw (cons-append "\n" "" t, nil-append t)

split_lines-append :
    (a t : String)
    → has_break a ≡ false
    → split_lines (String.◌++◌ a (String.◌++◌ "\n" t)) ≡ a ∷ split_lines t
split_lines-append String.[] t h = rw (nil-append (String.◌++◌ "\n" t), line_feed t)
split_lines-append (String.◌∷◌ c s) t h =
    let here : eqb (code c) 10 ≡ false = ground arith in
    let rest : has_break s ≡ false = ground arith in
    rw (cons-append c s (String.◌++◌ "\n" t), split_lines-append s t rest, here)

abbrev unmanaged : HttpResponse
unmanaged = record {
  status = "200 OK";
  status_code = 200;
  content_type = "application/json";
  body = ok "core";
}

abbrev doer : HttpRequestDoer String
doer req s = (ok unmanaged, s)

abbrev unquoted : String → Option String
unquoted t =
    if t == "\"http://fleet\""
    then some "http://fleet"
    else if t == "\"alice-token\""
    then some "alice-token"
    else none

abbrev os : Os String
os = record {
  user_home_dir = ok "/home/alice";
  config_in = λ home. String.◌++◌ home "/.fleetctl/config.yaml";
  open_file = λ file s. opened (split_lines s) none;
  mkdir_all = λ dir s. (ok tt, s);
  dir = λ file. file;
  write_file = λ file text s. (ok tt, text);
  quote = λ t. String.◌++◌ "\"" (String.◌++◌ t "\"");
  unquote = unquoted;
  timed_client = doer;
}

abbrev options : Options String
options = record { config_path = ""; server = ""; http_client = none }

os-ScansBack : ScansBack os
os-ScansBack file a b s s' one two _ _ written = rw (
  ← ap (λ x. x.1) written,
  split_lines-append a (String.◌++◌ b "\n") one,
  split_lines-append b "" two,
)

abbrev config : Config
config = record { server = "http://fleet"; token = "alice-token" }

abbrev file_text : String
file_text = "server: \"http://fleet\"\ntoken: \"alice-token\"\n"

server-QuotesBack : QuotesBack os "http://fleet"
unfolding trim_space
server-QuotesBack = record { unquotes = refl; trims = refl; one_line = refl }

token-QuotesBack : QuotesBack os "alice-token"
unfolding trim_space
token-QuotesBack = record { unquotes = refl; trims = refl; one_line = refl }

config-saved : save os options config "" ≡ (ok tt, file_text)
unfolding save
config-saved = refl

load-save_example : load os options file_text ≡ ok config
load-save_example =
    load-save os options config "" file_text os-ScansBack server-QuotesBack token-QuotesBack
      (omega arith) (omega arith) config-saved

abbrev session : Client String
session = record { server = "http://fleet/"; client = some doer; request_editors = [] }

client-made :
    client os options true file_text ≡ ok (session, authorize os options "alice-token" ∷ [])
unfolding client load new_client trim_space
client-made = refl

abbrev get_request : HttpRequest
get_request = record { method = "GET"; url = "http://fleet/health"; headers = []; body = none }

client-Authorizes_example :
    (cfg : Config) × (load os options file_text ≡ ok cfg)
    × Authorizes os options cfg session (authorize os options "alice-token" ∷ []) get_request
client-Authorizes_example =
    client-Authorizes os options file_text session (authorize os options "alice-token" ∷ [])
      get_request client-made

abbrev pub texts : Texts
texts = record {
  decode = λ body. if body == "oops" then some ("NOT_FOUND", "no such satellite") else none;
  status_text = λ n. "";
  decimal = λ n. "404";
}

abbrev core_body : SatelliteBody
core_body = record empty_satellite_body { managed_by = some operator }

abbrev pub requests : RequestLibrary
requests = record {
  style_param = λ id. ok "2";
  resolve = λ server path. ok (String.◌++◌ server path);
  new_request =
      λ method url body. ok (record { method = method; url = url; headers = []; body = body });
  marshal_login = λ x. ok "{}";
  marshal_create_satellite = λ x. ok "{}";
  marshal_update_satellite = λ x. ok "{}";
  marshal_create_user = λ x. ok "{}";
}

abbrev pub responses : ResponseLibrary
responses = record {
  mentions_json = λ t. t == "application/json";
  unmarshal_error = λ t. err (external "unexpected end of JSON input");
  unmarshal_satellite = λ t. ok core_body;
  unmarshal_satellites = λ t. ok (core_body ∷ []);
  unmarshal_user = λ t. err (external "unexpected end of JSON input");
  unmarshal_users = λ t. ok [];
  unmarshal_login = λ t. ok (record { expires_in = none; token = some "alice-token" });
  unmarshal_health = λ t. ok (record { db = none; status = none });
  unmarshal_version = λ t. ok (record { version = none });
}

abbrev pub env : Env String
env = record {
  os = os;
  library = record { requests = requests; responses = responses; default = doer };
  texts = texts;
  options = options;
  parse_uuid = λ t. if t == "2" then ok 2 else err (external "invalid UUID length");
  encode_json = λ value s. (none, s);
}

abbrev pub reader : PasswordReader String
reader = record {
  descriptor = none;
  is_terminal = none;
  read_terminal = none;
  read_line = λ s. (ok "secret\r\n", s);
  print = λ t s. (none, s);
}

abbrev built_request : HttpRequest → Result HttpRequest → HttpRequest
built_request req (ok r) = r
built_request req (err e) = req

requests-KeepsTarget : KeepsTarget requests
requests-KeepsTarget method url body req built =
    rw (← ap (λ r. built_request req r) built) (refl, refl)

abbrev arguments : Arguments
arguments = record {
  id = 2;
  login = record { password = "secret"; username = "alice" };
  satellite = record { name = "edge-2"; region = "dn" };
  region = record { region = "dn" };
  user = record { password = "secret"; role = none; username = "bob" };
}

abbrev delete_request : HttpRequest
delete_request = record {
  method = "DELETE";
  url = "http://fleet/./satellites/2";
  headers = [];
  body = none;
}

delete_built :
    request_of requests "http://fleet/" arguments Router.delete_satellites_id
    ≡ some (ok delete_request)
unfolding new_delete_satellites_id_request
delete_built = refl

request_of-Addresses_example :
    Addresses requests "http://fleet/" 2 Router.delete_satellites_id delete_request
request_of-Addresses_example =
    request_of-Addresses requests requests-KeepsTarget "http://fleet/" arguments
      Router.delete_satellites_id delete_request delete_built
