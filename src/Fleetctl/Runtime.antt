-- ===== src/Fleetctl/Runtime.antt =====
-- fleetctl/internal/runtime/runtime.go, over the state S of the machine and of the servers that it
-- talks to. The errors that come with a Config from Load are kept without it, as every caller does.
pub mod Session
use Prim.Native.Char.{Char, code}
use Prim.Native.String
use fleetcontrol.Common.{
  String, Bool, true, false, not, ◌&&◌, Option, none, some, List, [], ◌∷◌, ◌==◌, eqb, if◌then◌else◌,
  trim_space, Error, new, context, Result, ok, err, Action,
}
use fleetcontrol.Gen.Client.{
  HttpRequest, HttpRequestDoer, Client, RequestEditorFn, new_client_with_responses,
  with_http_client, and_then,
}

abbrev pub default_server : String
default_server = "http://localhost:8080"

pub record Config : Type 0 where
  pub server : String
  pub token : String

-- Options; a nil *http.Client is `none`.
pub record Options (S : Type 0) : Type 0 where
  pub config_path : String
  pub server : String
  pub http_client : Option (HttpRequestDoer S)

-- What os.Open and bufio.Scanner give of a file: os.IsNotExist, another error, or the lines and the
-- error that the scanner ended with.
pub data Opened : Type 0 where
  absent : Opened
  unreadable : Error → Opened
  opened : List String → Option Error → Opened

-- The packages os, filepath and strconv; `config_in` joins the names after the home directory, and
-- `timed_client` is an http.Client with the default timeout.
pub record Os (S : Type 0) : Type 0 where
  pub user_home_dir : Result String
  pub config_in : String → String
  pub open_file : String → S → Opened
  pub mkdir_all : String → Action S (Unit {0})
  pub dir : String → String
  pub write_file : String → String → Action S (Unit {0})
  pub quote : String → String
  pub unquote : String → Option String
  pub timed_client : HttpRequestDoer S

-- strings.SplitN at the first colon, into two parts or else none.
abbrev pub before_colon : Char → Option (String × String) → Option (String × String)
before_colon c none = none
before_colon c (some (key, value)) = some (String.◌∷◌ c key, value)

abbrev pub split_colon : String → Option (String × String)
split_colon String.[] = none
split_colon (String.◌∷◌ c s) =
    let rest = split_colon s in if eqb (code c) 58 then some ("", s) else before_colon c rest

abbrev pub trim_slashes : String → String
trim_slashes String.[] = String.[]
trim_slashes (String.◌∷◌ c s) =
    let rest = trim_slashes s in
    if eqb (code c) 47 && rest == "" then String.[] else String.◌∷◌ c rest

abbrev pub or_raw : String → Option String → String
or_raw raw none = raw
or_raw raw (some unquoted) = unquoted

abbrev pub assign : Config → String → String → Config
assign cfg key value =
    if key == "server"
    then record cfg { server = value }
    else if key == "token"
    then record cfg { token = value }
    else cfg

module _ {S : Type 0} (os : Os S) where
  abbrev pub load_pair : Config → Option (String × String) → Config
  load_pair cfg none = cfg
  load_pair cfg (some (key, value)) =
      assign cfg (trim_space key) (or_raw (trim_space value) (os.unquote (trim_space value)))

  abbrev pub load_lines : Config → List String → Config
  load_lines cfg [] = cfg
  load_lines cfg (text ∷ lines) = load_lines (load_pair cfg (split_colon text)) lines

  -- DefaultConfigPath
  abbrev pub default_config_path : Result String
  default_config_path = and_then os.user_home_dir (λ home. ok (os.config_in home))

  module _ (o : Options S) where
    -- Options.path
    abbrev pub path : Result String
    path = if not (o.config_path == "") then ok o.config_path else default_config_path

    abbrev pub override : Config → Config
    override cfg = if not (o.server == "") then record cfg { server = o.server } else cfg

    abbrev pub initial : Config
    initial = record { server = default_server; token = "" }

    abbrev pub load_opened : Opened → Result Config
    load_opened absent = ok (override initial)
    load_opened (unreadable e) = err e
    load_opened (opened lines (some e)) = err e
    load_opened (opened lines none) = ok (override (load_lines initial lines))

    -- Options.Load
    unfoldable pub load : S → Result Config
    load s = and_then path (λ file. load_opened (os.open_file file s))

    -- The text that Save writes.
    abbrev pub content : Config → String
    content cfg =
        String.◌++◌ (String.◌++◌ "server: " (os.quote cfg.server))
          (String.◌++◌ "\n" (String.◌++◌ (String.◌++◌ "token: " (os.quote cfg.token)) "\n"))

    abbrev pub write_after : Result (Unit {0}) → String → Config → Action S (Unit {0})
    write_after (err e) file cfg s = (err e, s)
    write_after (ok _) file cfg s = os.write_file file (content cfg) s

    abbrev pub save_at : Result String → Config → Action S (Unit {0})
    save_at (err e) cfg s = (err e, s)
    save_at (ok file) cfg s =
        let (made, s') = os.mkdir_all (os.dir file) s in write_after made file cfg s'

    -- Options.Save
    unfoldable pub save : Config → Action S (Unit {0})
    save cfg s = save_at path cfg s

    abbrev pub drop_key : String → List (String × String) → List (String × String)
    drop_key key [] = []
    drop_key key ((k, v) ∷ headers) =
        let rest = drop_key key headers in if k == key then rest else (k, v) ∷ rest

    -- The request editor: req.Header.Set("Authorization", …).
    abbrev pub authorize : String → RequestEditorFn
    authorize token req = ok (record req {
      headers =
          ("Authorization", String.◌++◌ "Bearer " token) ∷ drop_key "Authorization" req.headers;
    })

    abbrev pub editors_for : String → List RequestEditorFn
    editors_for token = if token == "" then [] else authorize token ∷ []

    abbrev pub http_client : HttpRequestDoer S
    http_client = elim o.http_client [ none ↦ os.timed_client | some doer ↦ doer ]

    abbrev pub built : Config → Result (Client S) → Result (Client S × List RequestEditorFn)
    built cfg (err e) = err (context "create API client" e)
    built cfg (ok client) = ok (client, editors_for cfg.token)

    abbrev pub client_for : Bool → Result Config → Result (Client S × List RequestEditorFn)
    client_for require_auth (err e) = err (context "load config" e)
    client_for require_auth (ok cfg) =
        if require_auth && cfg.token == ""
        then err (new "not logged in; run fleetctl login")
        else built cfg (
            new_client_with_responses os.timed_client (trim_slashes cfg.server)
              (with_http_client http_client ∷ []))

    -- Options.Client
    unfoldable pub client : Bool → S → Result (Client S × List RequestEditorFn)
    unfolding load new_client_with_responses
    client require_auth s = client_for require_auth (load s)
