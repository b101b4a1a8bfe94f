-- ===== src/Fleetctl/Runtime/Session.antt =====
-- The login state that fleetctl/internal/runtime/runtime.go keeps in its file, and the credential
-- that its clients send.
use Prim.Native.Char.{Char, code}
use Prim.Native.String
use Prim.Native.String.{len}
use fleetcontrol.Common.{
  ◌+◌, ◌<◌, String, ◌≡◌, refl, ap, ◌∙◌, ◌≢◌, Bool, true, false, ◌||◌, Option, none, some, List, [],
  ◌∷◌, ◌==◌, eqb, arith, if◌then◌else◌, eq_iff, Bool-cases, Result-cases, inl, inr, trim_space,
  Result, ok, err,
}
use text.Mathlib.TextLemmas.{append_assoc, cons-append, nil-append}
use fleetcontrol.Gen.Client.{HttpRequest, RequestEditorFn, Client, apply_editors}
use fleetcontrol.Fleetctl.Runtime.{
  Config, Options, opened, Os, split_colon, before_colon, override, path, load, content, save_at,
  save, drop_key, client,
}

abbrev pub has_break : String → Bool
has_break String.[] = false
has_break (String.◌∷◌ c s) = eqb (code c) 10 || eqb (code c) 13 || has_break s

-- strconv.Quote gives a text without blanks around it and without line breaks, which strconv.Unquote
-- reads back.
pub record QuotesBack {S : Type 0} (os : Os S) (t : String) : Type 0 where
  pub unquotes : os.unquote (os.quote t) ≡ some t
  pub trims : trim_space (String.◌++◌ " " (os.quote t)) ≡ os.quote t
  pub one_line : has_break (os.quote t) ≡ false

-- A line that bufio.Scanner takes: with its line feed it stays below bufio.MaxScanTokenSize, in bytes.
abbrev pub IsShort : String → Type 0
IsShort t = len t + 1 < 65536

-- A file that was written with two lines, neither too long for the scanner, is scanned as these.
abbrev pub ScansBack : {S : Type 0} → Os S → Type 0
ScansBack {S} os =
    (file a b : String) (s s' : S)
    → has_break a ≡ false
    → has_break b ≡ false
    → IsShort a
    → IsShort b
    → os.write_file file (String.◌++◌ a (String.◌++◌ "\n" (String.◌++◌ b "\n"))) s ≡ (ok tt, s')
    → os.open_file file s' ≡ opened (a ∷ b ∷ []) none

has_break-append : (s t : String) → has_break (String.◌++◌ s t) ≡ (has_break s || has_break t)
has_break-append String.[] t = rw (nil-append t)
has_break-append (String.◌∷◌ c s) t = rw (cons-append c s t, has_break-append s t) (ground arith)

before_colon-none : (c : Char) (o : Option (String × String)) → before_colon c o ≡ none → o ≡ none
before_colon-none c none h = refl
before_colon-none c (some (key, value)) h = absurd (ground arith)

-- A word without a colon, a colon and a rest are split there.
split_word :
    (w t : String)
    → split_colon w ≡ none
    → split_colon (String.◌++◌ w (String.◌∷◌ ":" t)) ≡ some (w, t)
split_word String.[] t h = rw (nil-append (String.◌∷◌ ":" t))
split_word (String.◌∷◌ c s) t h = elim (Bool-cases (eqb (code c) 58)) [
  | inl colon ↦ let clash = rw colon at h in absurd (ground arith)
  | inr other ↦
      let rest : split_colon s ≡ none = before_colon-none c (split_colon s) (rw other at h) in
      rw (cons-append c s (String.◌∷◌ ":" t), other, split_word s t rest)
]

-- A line of the file, with its key before the colon.
split_line :
    (w q : String)
    → split_colon w ≡ none
    → split_colon (String.◌++◌ (String.◌++◌ w ": ") q) ≡ some (w, String.◌++◌ " " q)
split_line w q h =
    let e : String.◌++◌ (String.◌++◌ w ": ") q
        ≡ String.◌++◌ w (String.◌∷◌ ":" (String.◌++◌ " " q)) =
      append_assoc w ": " q ∙ ap (String.◌++◌ w) (cons-append ":" " " q) in
    rw e (split_word w (String.◌++◌ " " q) h)

module _ {S : Type 0} (os : Os S) (o : Options S) where
  -- A save with no error has written the content to the file of the options.
  save_at_sound :
      (p : Result String) (cfg : Config) (s s' : S)
      → save_at os o p cfg s ≡ (ok tt, s')
      → (file : String) × (t : S) × (p ≡ ok file)
        × (os.write_file file (content os o cfg) t ≡ (ok tt, s'))
  save_at_sound (err e) cfg s s' h = let x = ap (λ r. r.0) h in absurd (ground arith)
  save_at_sound (ok file) cfg s s' h = elim (Result-cases (os.mkdir_all (os.dir file) s).0) [
    | inl (u, made) ↦ (file, (os.mkdir_all (os.dir file) s).1, refl, rw made at h)
    | inr (e, refused) ↦ let x = ap (λ r. r.0) (rw refused at h) in absurd (ground arith)
  ]

  -- If the file system reads back what it wrote, strconv.Quote and Unquote are inverse on the two
  -- values, and both lines of the file are below the limit of 65536 bytes of bufio.Scanner, Load
  -- returns the configuration that Save has written without an error, with the server that the
  -- option --server overrides.
  pub load-save :
      (cfg : Config) (s s' : S)
      → ScansBack os
      → QuotesBack os cfg.server
      → QuotesBack os cfg.token
      → IsShort (String.◌++◌ "server: " (os.quote cfg.server))
      → IsShort (String.◌++◌ "token: " (os.quote cfg.token))
      → save os o cfg s ≡ (ok tt, s')
      → load os o s' ≡ ok (override os o cfg)
  unfolding load save trim_space
  load-save cfg s s' scans server token short_server short_token saved =
      let (file, t, located, written) = save_at_sound (path os o) cfg s s' saved in
      let scanned =
        scans file (String.◌++◌ "server: " (os.quote cfg.server))
          (String.◌++◌ "token: " (os.quote cfg.token)) t s'
          (has_break-append "server: " (os.quote cfg.server) ∙ server.one_line)
          (has_break-append "token: " (os.quote cfg.token) ∙ token.one_line) short_server
          short_token written in
      rw (
        located,
        scanned,
        split_line "server" (os.quote cfg.server) refl,
        split_line "token" (os.quote cfg.token) refl,
        server.trims,
        server.unquotes,
        token.trims,
        token.unquotes,
      )

abbrev value_or : {A : Type 0} → A → Result A → A
value_or a (ok b) = b
value_or a (err e) = a

abbrev pub get_header : String → List (String × String) → Option String
get_header key [] = none
get_header key ((k, v) ∷ headers) = if k == key then some v else get_header key headers

module _ {S : Type 0} (os : Os S) (o : Options S) where
  -- What a command that needs a login can send: only requests with the token of the file.
  abbrev pub Authorizes : Config → Client S → List RequestEditorFn → HttpRequest → Type 0
  Authorizes cfg c editors req =
      (cfg.token ≢ "")
      × ((sent : HttpRequest) × (apply_editors c editors req ≡ ok sent)
          × (get_header "Authorization" sent.headers ≡ some (String.◌++◌ "Bearer " cfg.token))
          × (sent.method ≡ req.method)
          × (sent.url ≡ req.url)
          × (sent.body ≡ req.body))

  -- Options.Client for a command that needs a login succeeds only with a token in the
  -- configuration, and its editors put that token on every request and change no method, URL or
  -- body.
  pub client-Authorizes :
      (s : S) (c : Client S) (editors : List RequestEditorFn) (req : HttpRequest)
      → client os o true s ≡ ok (c, editors)
      → (cfg : Config) × (load os o s ≡ ok cfg) × Authorizes cfg c editors req
  unfolding client
  client-Authorizes s c editors req h = elim (Result-cases (load os o s)) [
    | inr (e, failed) ↦ absurd (ground arith)
    | inl (cfg, loaded) ↦ elim (Bool-cases (cfg.token == "")) [
      | inl logged_out ↦ absurd (ground arith)
      | inr logged_in ↦
          let made = ap (value_or (c, editors)) (rw (loaded, logged_in) at h) in
          (
            cfg,
            loaded,
            (
              (λ empty. ground (arith, eq_iff cfg.token "")),
              rw (← ap (λ x. x.0) made, ← ap (λ x. x.1) made)
                  (
                    record req {
                      headers =
                          ("Authorization", String.◌++◌ "Bearer " cfg.token)
                          ∷ drop_key os o "Authorization" req.headers;
                    },
                    refl,
                    refl,
                    refl,
                    refl,
                    refl,
                  ),
            ),
          )
    ]
  ]
