-- ===== src/Auth/Jwt/Tokens.antt =====
-- Issuing and authenticating human tokens.
use mathlib.Core.Path.{subst}
use fleetcontrol.Common.{
  ◌+◌, ◌≤◌, ◌<◌, ◌≡◌, refl, String, Bool, true, false, not, ◌&&◌, ◌||◌, Option, none, some, List,
  [], ◌∷◌, ltb, leb, ◌==◌, eq_iff, eq_refl, arith, Result-cases, error_is, Option-cases, wrap,
  sentinel, invalid_token, Error, inl, inr, ok, err,
}
use fleetcontrol.Auth.Principal.{actor_human, Principal, new_human_principal}
use fleetcontrol.Auth.Principal.Invariant.{IsValid}
use fleetcontrol.Auth.Principal.Accessors.{
  human_of, new_human_principal-eq, new_human_principal-IsValid,
}
use fleetcontrol.Auth.Jwt.{
  Time, human_token_ttl, Claims, validate_claims, JwtManager, hs256, ParserOptions, Parsed,
  JwtLibrary, human_claims, generate_human_token, parser_options, parse_claims, parse_human_token,
}

abbrev pub contains : String → List String → Bool
contains x [] = false
contains x (y ∷ ys) = x == y || contains x ys

abbrev pub date_ok : Bool → (Time → Bool) → Option Time → Bool
date_ok required test none = not required
date_ok required test (some t) = test t

-- The checks that golang-jwt documents for the registered claims under the parser's options.
abbrev pub registered_ok : ParserOptions → Claims → Bool
registered_ok o c =
    date_ok o.expiration_required (λ t. ltb o.now t) c.expires_at
    && date_ok false (λ t. leb t o.now) c.not_before
    && (not o.verify_issued_at || date_ok false (λ t. leb t o.now) c.issued_at)
    && contains o.audience c.audience
    && c.issuer == o.issuer

abbrev pub accepted : Claims → Parsed
accepted c = record { error = none; returned = true; valid = true; claims = c }

-- A parse with no error has checked the registered claims and has called the claims' Validate.
abbrev pub ChecksClaims : JwtLibrary → Type 0
ChecksClaims lib =
    (token : String) (v : Claims → Option Error) (o : ParserOptions)
    → (lib.parse_with_claims token v o).error ≡ none
    → let c = (lib.parse_with_claims token v o).claims in (registered_ok o c ≡ true) × (v c ≡ none)

-- A token that was signed with a key from some claims is accepted under that key, if the claims
-- pass; and no parse without an error reads other claims from it.
pub record ReadsBack (lib : JwtLibrary) (key : String) (c : Claims) : Type 0 where
  pub reads :
      (token : String) (v : Claims → Option Error) (o : ParserOptions)
      → lib.signed_string hs256 key c ≡ ok token
      → o.key ≡ key
      → o.methods ≡ hs256 ∷ []
      → registered_ok o c ≡ true
      → v c ≡ none
      → lib.parse_with_claims token v o ≡ accepted c
  pub reads_only :
      (token : String) (v : Claims → Option Error) (o : ParserOptions)
      → lib.signed_string hs256 key c ≡ ok token
      → (lib.parse_with_claims token v o).error ≡ none
      → (lib.parse_with_claims token v o).claims ≡ c

-- jwt.NewNumericDate cuts the part below a second off.
abbrev pub RoundsDown : JwtLibrary → Type 0
RoundsDown lib = (t : Time) → lib.numeric_date t ≤ t

-- A token that GenerateHumanToken issues was signed from the claims of a valid human.
pub generate_human_token_sound :
    (lib : JwtLibrary) (m : JwtManager) (now : Time) (s r token : String)
    → generate_human_token lib m now s r ≡ ok token
    → (new_human_principal s r ≡ ok (human_of s r))
      × (lib.signed_string hs256 m.secret (human_claims lib m now (human_of s r) r) ≡ ok token)
unfolding generate_human_token
generate_human_token_sound lib m now s r token h = elim (Result-cases (new_human_principal s r)) [
  | inl (p, made) ↦
      let same : p ≡ human_of s r = new_human_principal-eq s r p made in
      let signed : lib.signed_string hs256 m.secret (human_claims lib m now p r) ≡ ok token =
        ground arith in
      subst
        (λ q.
          (new_human_principal s r ≡ ok q)
          × (lib.signed_string hs256 m.secret (human_claims lib m now q r) ≡ ok token))
        same (made, signed)
  | inr (e, refused) ↦ absurd (ground arith)
]

human_claims-validate :
    (lib : JwtLibrary) (m : JwtManager) (now : Time) (s r : String)
    → new_human_principal s r ≡ ok (human_of s r)
    → validate_claims (human_claims lib m now (human_of s r) r) ≡ none
unfolding validate_claims
human_claims-validate lib m now s r made = rw made

-- Claims issued an hour ago or earlier have expired.
expired_claims :
    (lib : JwtLibrary) (m : JwtManager) (issued read : Time) (p : Principal) (r : String)
    → RoundsDown lib
    → issued + human_token_ttl ≤ read
    → registered_ok (parser_options m read) (human_claims lib m issued p r) ≡ false
expired_claims lib m issued read p r down late = ground (arith, down (issued + human_token_ttl))

module _ (lib : JwtLibrary) (m : JwtManager) (issued read : Time) (s r token : String)
    (reading : ReadsBack lib m.secret (human_claims lib m issued (human_of s r) r))
    (generated : generate_human_token lib m issued s r ≡ ok token) where
  -- If golang-jwt reads back what it signed, a token of GenerateHumanToken that the same manager
  -- reads after its issue and before its expiry authenticates the human that it was issued to,
  -- with the same subject and role.
  pub parse-generate :
      RoundsDown lib
      → issued ≤ read
      → read < lib.numeric_date (issued + human_token_ttl)
      → parse_human_token lib m read token ≡ ok (human_of s r)
  unfolding parse_human_token
  parse-generate down after before =
      let (made, signed) = generate_human_token_sound lib m issued s r token generated in
      let back =
        reading.reads token validate_claims (parser_options m read) signed refl refl
          (ground (arith, eq_refl m.audience, eq_refl m.issuer, down issued))
          (human_claims-validate lib m issued s r made) in
      rw (back, made)

  -- If golang-jwt checks the claims and reads back no others than those it signed, a token
  -- authenticates nobody from an hour after its issue on.
  pub parse_expired :
      RoundsDown lib
      → ChecksClaims lib
      → issued + human_token_ttl ≤ read
      → (e : Error) × (parse_human_token lib m read token ≡ err e)
  unfolding parse_human_token
  parse_expired down checks late =
      let parsed : Parsed = parse_claims lib m read token in
      elim (Option-cases parsed.error) [
        | inl fine ↦
            let (_, signed) = generate_human_token_sound lib m issued s r token generated in
            let same =
              reading.reads_only token validate_claims (parser_options m read) signed fine in
            let current = (checks token validate_claims (parser_options m read) fine).0 in
            absurd (ground (arith, expired_claims lib m issued read (human_of s r) r down late))
        | inr (e, failed) ↦ (wrap (sentinel invalid_token) "validation failed", ground arith)
      ]

-- Every error of ParseHumanToken is an ErrInvalidToken.
parse_refusal :
    (lib : JwtLibrary) (m : JwtManager) (now : Time) (token : String) (e : Error)
    → parse_human_token lib m now token ≡ err e
    → error_is e invalid_token ≡ true
unfolding parse_human_token
parse_refusal lib m now token e h = ground arith

-- A principal that ParseHumanToken returns.
pub record Authenticated (lib : JwtLibrary) (m : JwtManager) (now : Time) (token : String)
    (p : Principal) : Type 0 where
  pub valid : IsValid p
  pub is_human : p.kind ≡ actor_human
  pub no_error : (parse_claims lib m now token).error ≡ none
  pub token_valid : (parse_claims lib m now token).valid ≡ true
  pub same_subject : p.subject ≡ (parse_claims lib m now token).claims.subject
  pub same_role : p.role ≡ (parse_claims lib m now token).claims.role

pub parse_sound :
    (lib : JwtLibrary) (m : JwtManager) (now : Time) (token : String) (p : Principal)
    → parse_human_token lib m now token ≡ ok p
    → Authenticated lib m now token p
unfolding parse_human_token
parse_sound lib m now token p h =
    let c : Claims = (parse_claims lib m now token).claims in
    let no_error : (parse_claims lib m now token).error ≡ none = ground arith in
    let token_valid : (parse_claims lib m now token).valid ≡ true = ground arith in
    let made : new_human_principal c.subject c.role ≡ ok p = ground arith in
    let (valid, is_human, same_subject, same_role) =
      new_human_principal-IsValid c.subject c.role p made in
    record {
      valid = valid;
      is_human = is_human;
      no_error = no_error;
      token_valid = token_valid;
      same_subject = same_subject;
      same_role = same_role;
    }

-- What the claims `c` of an accepted token say about the principal `p` that it authenticates.
pub record Vouches (m : JwtManager) (now : Time) (c : Claims) (p : Principal) : Type 0 where
  pub valid : IsValid p
  pub is_human : p.kind ≡ actor_human
  pub actor_kind : c.actor_kind ≡ actor_human
  pub same_subject : p.subject ≡ c.subject
  pub same_role : p.role ≡ c.role
  pub issuer : c.issuer ≡ m.issuer
  pub audience : contains m.audience c.audience ≡ true
  pub expires : (t : Time) × (c.expires_at ≡ some t) × (now < t)
  pub issued : (t : Time) × (c.issued_at ≡ some t) × (t ≤ now)

module _ (m : JwtManager) (now : Time) (c : Claims) where
  expires_of_registered :
      registered_ok (parser_options m now) c ≡ true
      → (t : Time) × (c.expires_at ≡ some t) × (now < t)
  expires_of_registered h = elim (Option-cases c.expires_at) [
    | inl missing ↦ absurd (ground arith)
    | inr (t, present) ↦ (t, present, ground arith)
  ]

  issued_of_claims :
      registered_ok (parser_options m now) c ≡ true
      → validate_claims c ≡ none
      → (t : Time) × (c.issued_at ≡ some t) × (t ≤ now)
  unfolding validate_claims
  issued_of_claims h v = elim (Option-cases c.issued_at) [
    | inl missing ↦ absurd (ground arith)
    | inr (t, present) ↦ (t, present, ground arith)
  ]

  actor_kind_of_claims : validate_claims c ≡ none → c.actor_kind ≡ actor_human
  unfolding validate_claims
  actor_kind_of_claims v = ground (arith, eq_iff c.actor_kind actor_human)

-- If golang-jwt checks the registered claims and calls Claims.Validate, ParseHumanToken returns a
-- principal only for a token whose claims name a human, this issuer and this audience, have not
-- expired and were not issued in the future; the principal is valid and has the subject and the
-- role of the claims.
pub parse_human_token-Vouches :
    (lib : JwtLibrary) (m : JwtManager) (now : Time) (token : String) (p : Principal)
    → ChecksClaims lib
    → parse_human_token lib m now token ≡ ok p
    → Vouches m now (parse_claims lib m now token).claims p
parse_human_token-Vouches lib m now token p checks h =
    let a = parse_sound lib m now token p h in
    let c : Claims = (parse_claims lib m now token).claims in
    let (registered, own) = checks token validate_claims (parser_options m now) a.no_error in
    record {
      valid = a.valid;
      is_human = a.is_human;
      actor_kind = actor_kind_of_claims m now c own;
      same_subject = a.same_subject;
      same_role = a.same_role;
      issuer = ground (arith, eq_iff c.issuer m.issuer);
      audience = ground arith;
      expires = expires_of_registered m now c registered;
      issued = issued_of_claims m now c registered own;
    }
