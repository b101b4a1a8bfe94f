-- ===== src/Auth/Middleware.antt =====
-- api/internal/auth/middleware.go. The context value under principalContextKey is the request's
-- field `principal`; a handler that wraps another is a function of that handler.
pub mod Access
use fleetcontrol.Common.{
  Error, ◌≡◌, String, Bool, true, false, not, ◌||◌, Option, none, some, ◌==◌, starts_with,
  trim_prefix, if◌then◌else◌, Result, ok, err,
}
use fleetcontrol.Auth.Principal.{Principal, zero_principal, validate, human_role}
use fleetcontrol.Auth.Jwt.{Time, JwtLibrary, JwtManager, parse_human_token}
use fleetcontrol.Http.{Request, Outcome, Handler, http_error}

abbrev pub checked : Principal → Option Error → Principal × Bool
checked p (some e) = (zero_principal, false)
checked p none = (p, true)

abbrev pub valid_or_none : Option Principal → Principal × Bool
valid_or_none none = (zero_principal, false)
valid_or_none (some p) = checked p (validate p)

-- PrincipalFromContext
unfoldable pub principal_from_context : Request → Principal × Bool
principal_from_context r = valid_or_none r.principal

-- `r.WithContext(withPrincipal(r.Context(), principal))`
abbrev pub with_principal : Request → Principal → Request
with_principal r p = record r { principal = some p }

abbrev pub missing_token : Outcome
missing_token =
    http_error "{\"error\":{\"code\":\"UNAUTHORIZED\",\"message\":\"missing or invalid token\"}}"
      401

abbrev pub rejected_token : Outcome
rejected_token =
    http_error "{\"error\":{\"code\":\"UNAUTHORIZED\",\"message\":\"invalid token\"}}" 401

abbrev pub insufficient_role : Outcome
insufficient_role =
    http_error "{\"error\":{\"code\":\"FORBIDDEN\",\"message\":\"insufficient role\"}}" 403

abbrev pub bearer : String
bearer = "Bearer "

module _ {S : Type 0} where
  abbrev pub authenticated : Handler S → Request → Result Principal → S → Outcome × S
  authenticated next r (err e) s = (rejected_token, s)
  authenticated next r (ok p) s = next (with_principal r p) s

  -- Middleware; `now` is what the manager's clock gives while the request is handled.
  unfoldable pub middleware : JwtLibrary → JwtManager → Time → Handler S → Handler S
  middleware lib m now next r s =
      let header = r.header "Authorization" in
      if header == "" || not (starts_with header bearer)
      then (missing_token, s)
      else authenticated next r (parse_human_token lib m now (trim_prefix header bearer)) s

  abbrev pub require_role : String → Handler S → Request → Principal × Bool → S → Outcome × S
  require_role role next r (p, found) s =
      let (principal_role, is_human) = human_role p in
      if not found || not is_human || not (principal_role == role)
      then (insufficient_role, s)
      else next r s

  -- RequireHumanRole
  unfoldable pub require_human_role : String → Handler S → Handler S
  unfolding principal_from_context human_role
  require_human_role role next r s = require_role role next r (principal_from_context r) s
