-- ===== src/Gen/Client.antt =====
-- api/gen/client.gen.go: the client, its options and its request editors. The packages net/http,
-- net/url, encoding/json and the oapi-codegen runtime are parameters; the context is left out.
pub mod Requests
pub mod Responses
pub mod Parsers
pub mod Calls
pub mod WithResponse
pub mod Status
pub mod Interfaces
pub mod Laws
use Prim.Native.String
use Prim.Native.String.{len, slice}
use fleetcontrol.Common.{
  ℕ, ◌-◌, String, Option, none, some, List, [], ◌∷◌, ◌++◌, ◌==◌, Bool, if◌then◌else◌, Result, ok,
  err, Action,
}

-- A request, with its headers as they were added or set, the last first.
pub record HttpRequest : Type 0 where
  pub method : String
  pub url : String
  pub headers : List (String × String)
  pub body : Option String

-- A response; `status` is its status line, and `body` is what io.ReadAll of its body returns.
pub record HttpResponse : Type 0 where
  pub status : String
  pub status_code : ℕ
  pub content_type : String
  pub body : Result String

-- RequestEditorFn: the request as the editor leaves it, or its error.
abbrev pub RequestEditorFn : Type 0
RequestEditorFn = HttpRequest → Result HttpRequest

-- HttpRequestDoer
abbrev pub HttpRequestDoer : Type 0 → Type 0
HttpRequestDoer S = HttpRequest → Action S HttpResponse

-- Client; a nil HttpRequestDoer is `none`.
pub record Client (S : Type 0) : Type 0 where
  pub server : String
  pub client : Option (HttpRequestDoer S)
  pub request_editors : List RequestEditorFn

abbrev pub and_then : {A B : Type 0} → Result A → (A → Result B) → Result B
and_then (err e) f = err e
and_then (ok a) f = f a

abbrev pub ends_with_slash : String → Bool
ends_with_slash s = slice s (len s - 1) (len s) == "/"

-- ClientOption
abbrev pub ClientOption : Type 0 → Type 0
ClientOption S = Client S → Result (Client S)

module _ {S : Type 0} where
  abbrev pub apply_options : List (ClientOption S) → Client S → Result (Client S)
  apply_options [] c = ok c
  apply_options (o ∷ opts) c = and_then (o c) (apply_options opts)

  abbrev pub with_slash : Client S → Client S
  with_slash c = record c {
    server = if ends_with_slash c.server then c.server else String.◌++◌ c.server "/";
  }

  -- `default` is `&http.Client{}`.
  abbrev pub or_default : HttpRequestDoer S → Option (HttpRequestDoer S) → HttpRequestDoer S
  or_default default none = default
  or_default default (some doer) = doer

  -- NewClient
  unfoldable pub new_client : HttpRequestDoer S → String → List (ClientOption S) → Result (Client S)
  new_client default server opts =
      and_then
        (apply_options opts (record { server = server; client = none; request_editors = [] }))
        (λ c. ok (record (with_slash c) { client = some (or_default default c.client) }))

  -- NewClientWithResponses: ClientWithResponses embeds the client.
  unfoldable pub new_client_with_responses :
      HttpRequestDoer S → String → List (ClientOption S) → Result (Client S)
  unfolding new_client
  new_client_with_responses default server opts = and_then (new_client default server opts) ok

  -- WithBaseURL; `parse` is url.Parse and the String of its URL.
  abbrev pub with_base_url : (String → Result String) → String → ClientOption S
  with_base_url parse base c = and_then (parse base) (λ server. ok (record c { server = server }))

  -- WithHTTPClient
  abbrev pub with_http_client : HttpRequestDoer S → ClientOption S
  with_http_client doer c = ok (record c { client = some doer })

  -- WithRequestEditorFn
  abbrev pub with_request_editor_fn : RequestEditorFn → ClientOption S
  with_request_editor_fn f c = ok (record c { request_editors = c.request_editors ++ f ∷ [] })

abbrev pub apply_each : List RequestEditorFn → RequestEditorFn
apply_each [] req = ok req
apply_each (r ∷ editors) req = and_then (r req) (apply_each editors)

-- Client.applyEditors: first the client's own editors, then those of the call.
abbrev pub apply_editors : {S : Type 0} → Client S → List RequestEditorFn → RequestEditorFn
apply_editors c additional req = and_then (apply_each c.request_editors req) (apply_each additional)
