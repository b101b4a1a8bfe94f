-- ===== src/Tests/Fixtures.antt =====
-- A small fleet, and concrete functions in place of the packages outside the repository.
use fleetcontrol.Common.{
  ℕ, ◌+◌, ◌≡◌, refl, ap, sym, String, Bool, true, false, not, ◌&&◌, Option, none, some, [], ◌∷◌,
  ◌==◌, arith, if◌then◌else◌, Bool-cases, inl, inr, Error, external, Result, ok, err,
}
use fleetcontrol.Auth.Principal.{Uuid, actor_human, role_admin}
use fleetcontrol.Auth.Jwt.{Time, Claims, JwtManager, ParserOptions, Parsed, JwtLibrary, is_error}
use fleetcontrol.Auth.Jwt.Tokens.{registered_ok, accepted, ChecksClaims, ReadsBack, RoundsDown}
use fleetcontrol.Gen.Models.{manual, operator, pending, ready}
use fleetcontrol.Http.{Request, Wire, Handler, no_content}
use fleetcontrol.Database.{Db, Postgres, healthy, refused}
use fleetcontrol.Satellite.Model.{Satellite}
use fleetcontrol.User.Model.{User}
use fleetcontrol.User.Service.{Bcrypt}

abbrev pub manager : JwtManager
manager = record {
  secret = "0123456789abcdef0123456789abcdef";
  issuer = "fleetcontrol";
  audience = "fleetcontrol-api";
}

abbrev pub issued : Time
issued = 1000000000000

abbrev pub soon : Time
soon = 1060000000000

abbrev pub too_late : Time
too_late = 4600000000000

abbrev pub alice_claims : Claims
alice_claims = record {
  actor_kind = actor_human;
  role = role_admin;
  issuer = "fleetcontrol";
  subject = "1";
  audience = "fleetcontrol-api" ∷ [];
  expires_at = some 4600000000000;
  not_before = none;
  issued_at = some 1000000000000;
}

abbrev pub judged : Bool → Parsed
judged true = accepted alice_claims
judged false = record {
  error = some (external "token is malformed");
  returned = false;
  valid = false;
  claims = alice_claims;
}

abbrev pub alice_passes : (Claims → Option Error) → ParserOptions → Bool
alice_passes v o =
    o.key == "0123456789abcdef0123456789abcdef"
    && registered_ok o alice_claims
    && not (is_error (v alice_claims))

-- A library that knows one token.
abbrev pub jwt : JwtLibrary
jwt = record {
  numeric_date = λ t. t;
  signed_string = λ method key c. ok "alice-token";
  parse_with_claims = λ token v o. judged (token == "alice-token" && alice_passes v o);
}

abbrev text_of : String → Result String → String
text_of t (ok u) = u
text_of t (err e) = t

claims_of : (b : Bool) → (judged b).claims ≡ alice_claims
claims_of true = refl
claims_of false = refl

no_error_of : (o : Option Error) → not (is_error o) ≡ true → o ≡ none
no_error_of none h = refl
no_error_of (some e) h = absurd (ground arith)

pub jwt-ChecksClaims : ChecksClaims jwt
jwt-ChecksClaims token v o fine = elim (Bool-cases (token == "alice-token" && alice_passes v o)) [
  | inr bad ↦ let clash : (judged false).error ≡ none = rw bad at fine in absurd (ground arith)
  | inl good ↦ rw good (ground arith, no_error_of (v alice_claims) (ground arith))
]

pub jwt-ReadsBack : ReadsBack jwt manager.secret alice_claims
jwt-ReadsBack = record {
  reads = λ token v o signed same_key methods current fine.
      let known : token ≡ "alice-token" = ap (text_of token) (sym signed) in
      rw (known, same_key, current, fine) refl;
  reads_only = λ token v o signed fine. claims_of (token == "alice-token" && alice_passes v o);
}

pub jwt-RoundsDown : RoundsDown jwt
jwt-RoundsDown t = ground arith

-- Alice is an admin with the password "secret", and Bob a viewer.
abbrev pub alice : User
alice = record {
  id = 1;
  username = "alice";
  password_hash = "hash";
  role = role_admin;
  created_at = 1;
}

abbrev pub edge : Satellite
edge = record {
  id = 1;
  name = "edge-1";
  region = "hcm";
  status = pending;
  managed_by = manual;
  last_seen_at = none;
  created_at = 1;
}

-- A Satellite that the operator owns.
abbrev pub core : Satellite
core = record {
  id = 2;
  name = "core-1";
  region = "hn";
  status = ready;
  managed_by = operator;
  last_seen_at = some 2;
  created_at = 2;
}

abbrev pub fleet_db : Db
fleet_db = record { satellites = core ∷ edge ∷ []; users = alice ∷ []; calls = 0 }

abbrev pub empty_db : Db
empty_db = record { satellites = []; users = []; calls = 0 }

abbrev pub healthy_pg : Postgres
healthy_pg n = record { fault = healthy; fresh = n + 10; now = n + 5 }

abbrev pub down_pg : Postgres
down_pg n = record { fault = refused "connection reset"; fresh = n + 10; now = n + 5 }

abbrev pub bcrypt : Bcrypt
bcrypt = record {
  generate_from_password = λ salt password cost. ok "hash";
  compare_hash_and_password =
      λ hash password. if password == "secret" then none else some (external "mismatch");
}

abbrev pub uuid_of : String → Option Uuid
uuid_of t = if t == "1" then some 1 else if t == "2" then some 2 else none

abbrev pub bound : Option Uuid → Result Uuid
bound none = err (external "invalid UUID length")
bound (some id) = ok id

abbrev pub bound_uuid : String → Result Uuid
bound_uuid t = bound (uuid_of t)

abbrev pub wire : Wire
wire = record {
  decode_create_satellite = λ t. some (record { name = "edge-2"; region = "dn" });
  decode_update_satellite = λ t. some (record { region = "dn" });
  decode_create_user = λ t. some (record {
    password = "secret";
    role = if t == "root" then some "root" else none;
    username = "bob";
  });
  decode_login = λ t. some (record { password = t; username = "alice" });
  parse_uuid = uuid_of;
  bind_uuid = bound_uuid;
}

-- A request with Alice's token for an id.
abbrev pub request : String → String → Request
request id body = record {
  method = "PATCH";
  path = "/satellites";
  header = λ key. if key == "Authorization" then "Bearer alice-token" else "";
  url_param = λ key. id;
  body = body;
  principal = none;
  scopes = none;
}

abbrev pub anonymous : Request
anonymous = record (request "1" "") { header = λ key. "" }

abbrev pub answering : Handler ℕ
answering r n = (no_content, n + 1)
