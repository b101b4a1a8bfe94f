-- ===== src/Fleetctl/Satellite/Sends.antt =====
-- What the clients of fleetctl/internal/runtime/runtime.go send: where the calls of the delete command
-- leave what the tool's HTTP client keeps for every request without the mark of the operator that
-- is no POST.
use fleetcontrol.Common.{
  ◌≡◌, refl, ap, ◌≢◌, inl, inr, String, true, Option, none, some, List, [], ◌∷◌, eq_iff, ◌==◌,
  Bool-cases, Result, Result-cases, ok, err, arith,
}
use fleetcontrol.Auth.Principal.{Uuid}
use Prim.Native.String
use fleetcontrol.Gen.Client.{HttpRequest, Client, RequestEditorFn, and_then, new_client}
use fleetcontrol.Gen.Client.Requests.{
  request_for, new_get_satellites_id_request, new_delete_satellites_id_request,
}
use fleetcontrol.Gen.Client.Parsers.{
  parse_get_satellites_id_response, parse_delete_satellites_id_response,
}
use fleetcontrol.Gen.Client.Calls
use fleetcontrol.Gen.Client.Calls.{send}
use fleetcontrol.Gen.Client.WithResponse
use fleetcontrol.Gen.Client.Laws.{and_then-eq-ok, proceed-lift}
use fleetcontrol.Satellite.Handler.{operator_header}
use fleetcontrol.Fleetctl.Runtime.{Os, Options, client, http_client, authorize, drop_key, load}
use fleetcontrol.Fleetctl.Runtime.Session.{get_header}

abbrev value_or : {A : Type 0} → A → Result A → A
value_or a (ok b) = b
value_or a (err e) = a

-- The client of a command that needs a login sends by the tool's HTTP client, and adds one header.
abbrev pub Logged : {S : Type 0} → Os S → Options S → Client S → List RequestEditorFn → Type 0
Logged os o c editors =
    (c.client ≡ some (http_client os o))
    × (c.request_editors ≡ [])
    × ((token : String) × (editors ≡ authorize os o token ∷ []))

pub client-Logged :
    {S : Type 0} (os : Os S) (o : Options S) (s : S) (c : Client S) (editors : List RequestEditorFn)
    → client os o true s ≡ ok (c, editors)
    → Logged os o c editors
unfolding client new_client
client-Logged os o s c editors h = elim (Result-cases (load os o s)) [
  | inr (e, failed) ↦ absurd (ground arith)
  | inl (cfg, loaded) ↦ elim (Bool-cases (cfg.token == "")) [
    | inl logged_out ↦ absurd (ground arith)
    | inr logged_in ↦
        let made = ap (value_or (c, editors)) (rw (loaded, logged_in) at h) in
        rw (← ap (λ x. x.0) made, ← ap (λ x. x.1) made) (refl, refl, (cfg.token, refl))
  ]
]

-- Where a call of the generated client leaves the state.
abbrev Plain : Result HttpRequest → Type 0
Plain r = (req : HttpRequest) → r ≡ ok req → (req.method ≢ "POST") × (req.headers ≡ [])

module _ {S : Type 0} (P : S → Type 0) (os : Os S) (o : Options S)
    (keeps : (req : HttpRequest) (s : S)
      → get_header operator_header req.headers ≡ none
      → req.method ≢ "POST"
      → P s
      → P (http_client os o req s).1) where
  send-kept :
      (lib : Calls.Library S) (c : Client S) (editors : List RequestEditorFn)
      (r : Result HttpRequest) (s : S)
      → Logged os o c editors
      → Plain r
      → P s
      → P (send lib c editors r s).1
  send-kept lib c editors (err e) s logged plain kept = kept
  send-kept lib c editors (ok req) s (by_client, no_editors, (token, by_token)) plain kept =
      let (other, bare) = plain req refl in
      rw (by_client, no_editors, by_token)
        (keeps
          (record req {
            headers =
                ("Authorization", String.◌++◌ "Bearer " token)
                ∷ drop_key os o "Authorization" req.headers;
          })
          s (rw bare refl) other kept)

  -- The two calls of the command.
  module _ (lib : Calls.Library S) (c : Client S) (editors : List RequestEditorFn)
      (logged : Logged os o c editors)
      (fresh : (method url : String) (body : Option String) (req : HttpRequest)
        → lib.requests.new_request method url body ≡ ok req
        → (req.method ≡ method) × (req.headers ≡ [])) where
    request_for-Plain :
        (method server path : String)
        → method ≢ "POST"
        → Plain (request_for lib.requests method server path none)
    request_for-Plain method server path other req built =
        let (url, _, made) =
          and_then-eq-ok (lib.requests.resolve server (String.◌++◌ "." path)) _ req built in
        let (same, bare) = fresh method url none req made in (rw same other, bare)

    styled-Plain :
        (style : Result String) (build : String → Result HttpRequest)
        → ((param : String) → Plain (build param))
        → Plain (and_then style build)
    styled-Plain style build plain req built =
        let (param, _, made) = and_then-eq-ok style build req built in plain param req made

    pub get-kept :
        (id : Uuid) (s : S)
        → P s
        → P (WithResponse.get_satellites_id_with_response lib c editors id s).1
    unfolding WithResponse.get_satellites_id_with_response Calls.get_satellites_id
        new_get_satellites_id_request
    get-kept id s kept =
        rw
          (proceed-lift (Calls.get_satellites_id lib c editors id s).0
            (parse_get_satellites_id_response lib.responses)
            (Calls.get_satellites_id lib c editors id s).1)
          (send-kept lib c editors (new_get_satellites_id_request lib.requests c.server id) s logged
            (styled-Plain (lib.requests.style_param id) _ (λ param.
              request_for-Plain "GET" c.server (String.◌++◌ "/satellites/" param)
                (λ e. ground (arith, eq_iff "GET" "POST"))))
            kept)

    pub delete-kept :
        (id : Uuid) (s : S)
        → P s
        → P (WithResponse.delete_satellites_id_with_response lib c editors id s).1
    unfolding WithResponse.delete_satellites_id_with_response Calls.delete_satellites_id
        new_delete_satellites_id_request
    delete-kept id s kept =
        rw
          (proceed-lift (Calls.delete_satellites_id lib c editors id s).0
            (parse_delete_satellites_id_response lib.responses)
            (Calls.delete_satellites_id lib c editors id s).1)
          (send-kept lib c editors (new_delete_satellites_id_request lib.requests c.server id) s
            logged
            (styled-Plain (lib.requests.style_param id) _ (λ param.
              request_for-Plain "DELETE" c.server (String.◌++◌ "/satellites/" param)
                (λ e. ground (arith, eq_iff "DELETE" "POST"))))
            kept)
