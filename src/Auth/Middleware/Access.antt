-- ===== src/Auth/Middleware/Access.antt =====
-- Whom the middlewares let through.
use Prim.Native.String
use fleetcontrol.Common.{
  ◌≡◌, refl, ◌⊎◌, inl, inr, String, true, false, not, ◌||◌, some, ◌==◌, starts_with, trim_prefix,
  trim_prefix-append, arith, eq_iff, Bool-cases, Option-cases, Result-cases, ok,
}
use text.Mathlib.TextLemmas.{append-eq-nil_iff}
use text.Mathlib.TextPositions.{starts_with-append}
use fleetcontrol.Auth.Principal.{Principal, actor_human, validate}
use fleetcontrol.Auth.Principal.Invariant.{IsValid, validate_iff}
use fleetcontrol.Auth.Jwt.{Time, JwtLibrary, JwtManager, parse_human_token}
use fleetcontrol.Auth.Jwt.Tokens.{parse_sound}
use fleetcontrol.Http.{Request, Outcome, Handler}
use fleetcontrol.Auth.Middleware.{
  with_principal, missing_token, rejected_token, insufficient_role, bearer, authenticated,
  middleware, require_human_role,
}

bearer_word : ¬ (◌≡◌ {A = String} bearer "")
bearer_word e = ground (arith, eq_iff bearer "")

bearer_not_empty : (token : String) → (String.◌++◌ bearer token == "") ≡ false
bearer_not_empty token = elim (Bool-cases (String.◌++◌ bearer token == "")) [
  | inl nothing ↦
      let (no_bearer, _) = append-eq-nil_iff.0 ((eq_iff _ _).0 nothing) in
      absurd (bearer_word no_bearer)
  | inr something ↦ something
]

-- A request is answered 401 with the state as it was, or its bearer token authenticates a valid
-- human, and the next handler runs on it with that human in its context.
abbrev pub Admitted :
    {S : Type 0} → JwtLibrary → JwtManager → Time → Handler S → Request → S → Outcome × S → Type 0
Admitted lib m now next r s result =
    ((result ≡ (missing_token, s)) ⊎ (result ≡ (rejected_token, s)))
    ⊎ ((p : Principal) × (parse_human_token lib m now
            (trim_prefix (r.header "Authorization") bearer)
          ≡ ok p)
        × (starts_with (r.header "Authorization") bearer ≡ true)
        × IsValid p
        × (p.kind ≡ actor_human)
        × (result ≡ next (with_principal r p) s))

module _ {S : Type 0} (lib : JwtLibrary) (m : JwtManager) (now : Time) (next : Handler S) where
  -- The authentication middleware answers 401 with the state as it was, or runs the next handler
  -- with a valid human that the bearer token authenticates in its context.
  pub middleware-Admitted :
      (r : Request) (s : S) → Admitted lib m now next r s (middleware lib m now next r s)
  unfolding middleware
  middleware-Admitted r s =
      let header = r.header "Authorization" in
      elim (Bool-cases (header == "" || not (starts_with header bearer))) [
        | inl missing ↦ rw missing (inl (inl refl))
        | inr present ↦
            rw present
              (elim (Result-cases (parse_human_token lib m now (trim_prefix header bearer))) [
                | inr (e, refused) ↦ rw refused (inl (inr refl))
                | inl (p, parsed) ↦
                    let a = parse_sound lib m now _ p parsed in
                    inr (p, parsed, ground arith, a.valid, a.is_human, rw parsed)
              ])
      ]

  -- With the header `Bearer ` and a token, the outcome rests on the token alone.
  pub middleware-bearer :
      (r : Request) (s : S) (token : String)
      → r.header "Authorization" ≡ String.◌++◌ bearer token
      → middleware lib m now next r s ≡ authenticated next r (parse_human_token lib m now token) s
  unfolding middleware
  middleware-bearer r s token h =
      rw (h, starts_with-append, trim_prefix-append, bearer_not_empty token)

-- The role gate answers 403 with the state as it was, or runs the next handler for a valid human
-- with the role in the context.
pub require_human_role_iff :
    {S : Type 0} (role : String) (next : Handler S) (r : Request) (s : S)
    → (require_human_role role next r s ≡ (insufficient_role, s))
      ⊎ ((p : Principal) × (r.principal ≡ some p)
          × IsValid p
          × (p.kind ≡ actor_human)
          × (p.role ≡ role)
          × (require_human_role role next r s ≡ next r s))
unfolding require_human_role
require_human_role_iff role next r s = elim (Option-cases r.principal) [
  | inl nobody ↦ inl (rw nobody)
  | inr (p, somebody) ↦ elim (Option-cases (validate p)) [
    | inr (e, bad) ↦ inl (rw (somebody, bad))
    | inl good ↦ elim (Bool-cases (p.kind == actor_human)) [
      | inr machine ↦ inl (rw (somebody, good, machine))
      | inl is_human ↦ elim (Bool-cases (p.role == role)) [
        | inr other ↦ inl (rw (somebody, good, is_human, other))
        | inl same ↦ inr (
          p,
          somebody,
          (validate_iff p).0 good,
          (eq_iff _ _).0 is_human,
          (eq_iff _ _).0 same,
          rw (somebody, good, is_human, same),
        )
      ]
    ]
  ]
]
