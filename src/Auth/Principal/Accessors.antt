-- ===== src/Auth/Principal/Accessors.antt =====
-- The constructors and the accessors of a principal.
use fleetcontrol.Common.{
  sym, String, ◌≡◌, refl, ◌≢◌, ◌↔◌, ◌⊎◌, inl, inr, true, false, arith, Option-cases, error_is,
  invalid_principal, Error, ok, err,
}
use fleetcontrol.Auth.Principal.{
  nil_uuid, Principal, actor_human, actor_operator, actor_agent, role_admin, role_viewer, validate,
  new_principal, new_human_principal, human_role, bound_satellite,
}
use fleetcontrol.Auth.Principal.Invariant.{IsValid, human, operator, agent, validate_iff}

new_principal_of_valid : (p : Principal) → IsValid p → new_principal p ≡ ok p
unfolding new_principal
new_principal_of_valid p v = ground (arith, (validate_iff p).1 v)

new_principal_sound : (q p : Principal) → new_principal q ≡ ok p → (q ≡ p) × IsValid q
unfolding new_principal
new_principal_sound q p h = elim (Option-cases (validate q)) [
  | inl accepted ↦ (ground arith, (validate_iff q).0 accepted)
  | inr (e, refused) ↦ absurd (ground arith)
]

-- The constructor of principals returns a principal exactly when what it was asked for is valid,
-- and then that principal unchanged.
new_principal-eq-ok_iff : (q p : Principal) → (new_principal q ≡ ok p) ↔ ((q ≡ p) × IsValid q)
new_principal-eq-ok_iff q p =
    (new_principal_sound q p, λ (same, valid). rw (← same) (new_principal_of_valid q valid))

-- Every refusal is an ErrInvalidPrincipal.
pub new_principal_refusal :
    (q : Principal) (e : Error) → new_principal q ≡ err e → error_is e invalid_principal ≡ true
unfolding new_principal validate
new_principal_refusal q e h = ground arith

-- What NewHumanPrincipal returns is a valid human with the subject and the role that it was given.
pub new_human_principal-IsValid :
    (s r : String) (p : Principal)
    → new_human_principal s r ≡ ok p
    → IsValid p × (p.kind ≡ actor_human) × (p.subject ≡ s) × (p.role ≡ r)
unfolding new_human_principal
new_human_principal-IsValid s r p h =
    let (same, valid) = new_principal_sound _ p h in rw (← same) (valid, refl, refl, refl)

abbrev pub human_of : String → String → Principal
human_of subject role = record {
  kind = actor_human;
  subject = subject;
  role = role;
  satellite_id = nil_uuid;
}

pub new_human_principal-eq :
    (s r : String) (p : Principal) → new_human_principal s r ≡ ok p → p ≡ human_of s r
unfolding new_human_principal
new_human_principal-eq s r p h = sym (new_principal_sound _ p h).0

-- The role and the binding that the accessors give fit the kind of the principal.
abbrev pub Exposes : Principal → Type 0
Exposes p =
    (((p.kind ≡ actor_human)
        × (((human_role p) ≡ (role_admin, true)) ⊎ ((human_role p) ≡ (role_viewer, true)))
        × (bound_satellite p ≡ (nil_uuid, false)))
      ⊎ (((p.kind ≡ actor_operator)
            × (human_role p ≡ ("", false))
            × (bound_satellite p ≡ (nil_uuid, false)))
          ⊎ ((p.kind ≡ actor_agent)
              × (human_role p ≡ ("", false))
              × (bound_satellite p ≡ (p.satellite_id, true))
              × (p.satellite_id ≢ nil_uuid))))

-- Of a valid principal, only a human shows a role, admin or viewer, and only an agent shows a
-- Satellite, which is not the nil UUID.
IsValid-Exposes : {p : Principal} → IsValid p → Exposes p
unfolding human_role bound_satellite
IsValid-Exposes (human s r named (inl a)) = inl (refl, inl (rw a), refl)
IsValid-Exposes (human s r named (inr a)) = inl (refl, inr (rw a), refl)
IsValid-Exposes (operator s named) = inr (inl (refl, refl, refl))
IsValid-Exposes (agent s id named bound) = inr (inr (refl, refl, ground arith, bound))
