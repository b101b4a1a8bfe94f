-- ===== src/Auth/Jwt.antt =====
-- api/internal/auth/jwt.go. Instants are nanoseconds. The package golang-jwt is a parameter,
-- `JwtLibrary`; the clock `m.now` is read once in a call, and is the call's argument `now`.
pub mod Config
pub mod Tokens
use Prim.Native.String.{len}
use fleetcontrol.Common.{
  ℕ, ◌+◌, ◌*◌, ◌≡◌, String, Bool, true, false, not, ◌&&◌, ◌||◌, Option, none, some, List, [], ◌∷◌,
  ltb, leb, ◌==◌, if◌then◌else◌, trim_space, Error, new, wrap, sentinel, message, invalid_token,
  invalid_jwt_config, Result, ok, err,
}
use fleetcontrol.Auth.Principal.{actor_human, Principal, new_human_principal}

abbrev pub Time : Type 0
Time = ℕ

abbrev pub second : Time
second = 1000000000

abbrev pub minimum_jwt_secret_bytes : ℕ
minimum_jwt_secret_bytes = 32

-- HumanTokenTTL, an hour
abbrev pub human_token_ttl : Time
human_token_ttl = 3600 * second

pub record JwtConfig : Type 0 where
  pub secret : String
  pub issuer : String
  pub audience : String

-- Claims, with the fields of the embedded jwt.RegisteredClaims; a nil date is `none`.
pub record Claims : Type 0 where
  pub actor_kind : String
  pub role : String
  pub issuer : String
  pub subject : String
  pub audience : List String
  pub expires_at : Option Time
  pub not_before : Option Time
  pub issued_at : Option Time

-- Claims.Validate
unfoldable pub validate_claims : Claims → Option Error
validate_claims c = elim c.issued_at [
  | none ↦ some (new "issued-at claim is required")
  | some _ ↦
      if not (c.actor_kind == actor_human)
      then some (new "actor kind must be human")
      else elim (new_human_principal c.subject c.role) [ err e ↦ some e | ok _ ↦ none ]
]

pub record JwtManager : Type 0 where
  pub secret : String
  pub issuer : String
  pub audience : String

abbrev pub config_error : String → Error
config_error reason = wrap (sentinel invalid_jwt_config) reason

-- NewJWTManager; the copy of the secret's bytes is the same text.
unfoldable pub new_jwt_manager : JwtConfig → Result JwtManager
new_jwt_manager c =
    if ltb (len c.secret) minimum_jwt_secret_bytes || trim_space c.secret == ""
    then err (config_error "secret must contain at least 32 bytes")
    else if trim_space c.issuer == ""
    then err (config_error "issuer is required")
    else if trim_space c.audience == ""
    then err (config_error "audience is required")
    else ok (record {
      secret = c.secret;
      issuer = trim_space c.issuer;
      audience = trim_space c.audience;
    })

abbrev pub hs256 : String
hs256 = "HS256"

-- What ParseHumanToken asks of jwt.ParseWithClaims: the key that its key function returns, and the
-- options in the order in which they are passed.
pub record ParserOptions : Type 0 where
  pub key : String
  pub methods : List String
  pub issuer : String
  pub audience : String
  pub expiration_required : Bool
  pub verify_issued_at : Bool
  pub now : Time

-- What jwt.ParseWithClaims leaves: its error, whether it returned a token, that token's `Valid`,
-- and the claims that it wrote.
pub record Parsed : Type 0 where
  pub error : Option Error
  pub returned : Bool
  pub valid : Bool
  pub claims : Claims

-- golang-jwt: jwt.NewNumericDate, Token.SignedString for a signing method, a key and claims, and
-- jwt.ParseWithClaims, which calls the claims' own Validate.
pub record JwtLibrary : Type 0 where
  pub numeric_date : Time → Time
  pub signed_string : String → String → Claims → Result String
  pub parse_with_claims : String → (Claims → Option Error) → ParserOptions → Parsed

abbrev pub human_claims : JwtLibrary → JwtManager → Time → Principal → String → Claims
human_claims lib m now p role = record {
  actor_kind = p.kind;
  role = role;
  issuer = m.issuer;
  subject = p.subject;
  audience = m.audience ∷ [];
  expires_at = some (lib.numeric_date (now + human_token_ttl));
  not_before = none;
  issued_at = some (lib.numeric_date now);
}

-- GenerateHumanToken
unfoldable pub generate_human_token :
    JwtLibrary → JwtManager → Time → String → String → Result String
generate_human_token lib m now subject role = elim (new_human_principal subject role) [
  | err e ↦ err e
  | ok p ↦ lib.signed_string hs256 m.secret (human_claims lib m now p role)
]

abbrev pub parser_options : JwtManager → Time → ParserOptions
parser_options m now = record {
  key = m.secret;
  methods = hs256 ∷ [];
  issuer = m.issuer;
  audience = m.audience;
  expiration_required = true;
  verify_issued_at = true;
  now = now;
}

abbrev pub parse_claims : JwtLibrary → JwtManager → Time → String → Parsed
parse_claims lib m now token = lib.parse_with_claims token validate_claims (parser_options m now)

abbrev pub is_error : Option Error → Bool
is_error none = false
is_error (some _) = true

-- ParseHumanToken
unfoldable pub parse_human_token : JwtLibrary → JwtManager → Time → String → Result Principal
parse_human_token lib m now token =
    let parsed = parse_claims lib m now token in
    if is_error parsed.error || not parsed.returned || not parsed.valid
    then err (wrap (sentinel invalid_token) "validation failed")
    else elim (new_human_principal parsed.claims.subject parsed.claims.role) [
      | err e ↦ err (wrap (sentinel invalid_token) (message e))
      | ok p ↦ ok p
    ]
