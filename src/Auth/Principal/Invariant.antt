-- ===== src/Auth/Principal/Invariant.antt =====
-- What makes a principal valid, as ADR 0001 states it, against Principal.Validate.
use mathlib.Core.Path.{subst, subst₂}
use fleetcontrol.Common.{sym, String, ◌≡◌, ◌≢◌, ◌↔◌, ◌⊎◌, inl, inr, none, arith, eq_iff, trim_space}
use fleetcontrol.Auth.Principal.{
  Uuid, nil_uuid, Principal, actor_human, actor_operator, actor_agent, role_admin, role_viewer,
  validate,
}

-- Each kind of caller with the attributes that it must have, and no others.
pub data IsValid : Principal → Type 0 where
  human :
      (s r : String)
      → trim_space s ≢ ""
      → (r ≡ role_admin) ⊎ (r ≡ role_viewer)
      → IsValid (record { kind = actor_human; subject = s; role = r; satellite_id = nil_uuid })
  operator :
      (s : String)
      → trim_space s ≢ ""
      → IsValid (record { kind = actor_operator; subject = s; role = ""; satellite_id = nil_uuid })
  agent :
      (s : String) (id : Uuid)
      → trim_space s ≢ ""
      → id ≢ nil_uuid
      → IsValid (record { kind = actor_agent; subject = s; role = ""; satellite_id = id })

-- Validate on a valid principal, one kind at a time.
pub IsValid-validate : {p : Principal} → IsValid p → validate p ≡ none
unfolding validate
IsValid-validate (human s r named (inl is_admin)) =
    ground (arith, eq_iff (trim_space s) "", eq_iff r role_admin)
IsValid-validate (human s r named (inr is_viewer)) =
    ground (arith, eq_iff (trim_space s) "", eq_iff r role_viewer)
IsValid-validate (operator s named) = ground (arith, eq_iff (trim_space s) "")
IsValid-validate (agent s id named bound) = ground (arith, eq_iff (trim_space s) "")

-- An accepted principal of each kind is valid.
abbrev Accepts : (s r : String) (id : Uuid) → String → Type 0
Accepts s r id k =
    let p : Principal = record { kind = k; subject = s; role = r; satellite_id = id } in
    validate p ≡ none → IsValid p

Accepts-human : (s r : String) (id : Uuid) → Accepts s r id actor_human
unfolding validate
Accepts-human s r id h =
    let named : trim_space s ≢ "" = ground (arith, eq_iff (trim_space s) "") in
    let unbound : nil_uuid ≡ id = ground arith in
    let role : (r ≡ role_admin) ⊎ (r ≡ role_viewer) =
      ground (arith, eq_iff r role_admin, eq_iff r role_viewer) in
    subst (λ i. IsValid (record { kind = actor_human; subject = s; role = r; satellite_id = i }))
      unbound (human s r named role)

Accepts-operator : (s r : String) (id : Uuid) → Accepts s r id actor_operator
unfolding validate
Accepts-operator s r id h =
    let named : trim_space s ≢ "" = ground (arith, eq_iff (trim_space s) "") in
    let unbound : nil_uuid ≡ id = ground arith in
    let no_role : "" ≡ r = ground (arith, eq_iff r "") in
    subst₂
      (λ t i. IsValid (record { kind = actor_operator; subject = s; role = t; satellite_id = i }))
      no_role unbound (operator s named)

Accepts-agent : (s r : String) (id : Uuid) → Accepts s r id actor_agent
unfolding validate
Accepts-agent s r id h =
    let named : trim_space s ≢ "" = ground (arith, eq_iff (trim_space s) "") in
    let bound : id ≢ nil_uuid = ground (arith, eq_iff r "") in
    let no_role : "" ≡ r = ground (arith, eq_iff r "") in
    subst (λ t. IsValid (record { kind = actor_agent; subject = s; role = t; satellite_id = id }))
      no_role (agent s id named bound)

-- No other kind is accepted.
kind_of_validate :
    (p : Principal)
    → validate p ≡ none
    → (p.kind ≡ actor_human) ⊎ ((p.kind ≡ actor_operator) ⊎ (p.kind ≡ actor_agent))
unfolding validate
kind_of_validate p accepted =
    ground
      (arith, eq_iff p.kind actor_human, eq_iff p.kind actor_operator, eq_iff p.kind actor_agent)

pub validate-IsValid : (p : Principal) → validate p ≡ none → IsValid p
validate-IsValid p h = elim (kind_of_validate p h) [
  | inl e ↦ subst (Accepts p.subject p.role p.satellite_id) (sym e) (Accepts-human _ _ _) h
  | inr (inl e) ↦ subst (Accepts p.subject p.role p.satellite_id) (sym e) (Accepts-operator _ _ _) h
  | inr (inr e) ↦ subst (Accepts p.subject p.role p.satellite_id) (sym e) (Accepts-agent _ _ _) h
]

-- Principal.Validate returns nil exactly for a named human with the role admin or viewer and no
-- Satellite, a named operator with no role and no Satellite, or a named agent with no role that is
-- bound to a Satellite.
pub validate_iff : (p : Principal) → (validate p ≡ none) ↔ IsValid p
validate_iff p = (validate-IsValid p, IsValid-validate)
