-- ===== src/Auth/Principal.antt =====
-- api/internal/auth/principal.go. A UUID is the number that its 16 bytes spell; uuid.Nil is 0.
pub mod Invariant
pub mod Accessors
use fleetcontrol.Common.{
  ℕ, String, Bool, true, false, not, ◌&&◌, ◌||◌, Option, none, some, eqb, ◌==◌, if◌then◌else◌,
  trim_space, Error, wrap, sentinel, invalid_principal, Result, ok, err,
}

abbrev pub Uuid : Type 0
Uuid = ℕ

abbrev pub nil_uuid : Uuid
nil_uuid = 0

-- The named string types ActorKind and HumanRole hold any text; these are their constants.
abbrev pub actor_human : String
actor_human = "human"

abbrev pub actor_operator : String
actor_operator = "operator"

abbrev pub actor_agent : String
actor_agent = "agent"

abbrev pub role_admin : String
role_admin = "admin"

abbrev pub role_viewer : String
role_viewer = "viewer"

pub record Principal : Type 0 where
  pub kind : String
  pub subject : String
  pub role : String
  pub satellite_id : Uuid

-- `Principal{}`
abbrev pub zero_principal : Principal
zero_principal = record { kind = ""; subject = ""; role = ""; satellite_id = nil_uuid }

abbrev pub principal_error : String → Error
principal_error reason = wrap (sentinel invalid_principal) reason

-- Principal.Validate: `none` is the nil error.
unfoldable pub validate : Principal → Option Error
validate p =
    if trim_space p.subject == ""
    then some (principal_error "subject is required")
    else if p.kind == actor_human
    then (if not (p.role == role_admin) && not (p.role == role_viewer)
        then some (principal_error "human role must be admin or viewer")
        else if not (eqb p.satellite_id nil_uuid)
        then some (principal_error "human principal cannot bind a satellite")
        else none)
    else if p.kind == actor_operator
    then (if not (p.role == "")
        then some (principal_error "operator principal cannot have a human role")
        else if not (eqb p.satellite_id nil_uuid)
        then some (principal_error "operator principal cannot bind a satellite")
        else none)
    else if p.kind == actor_agent
    then (if not (p.role == "")
        then some (principal_error "agent principal cannot have a human role")
        else if eqb p.satellite_id nil_uuid
        then some (principal_error "agent principal requires a satellite binding")
        else none)
    else some (principal_error "actor kind is not recognized")

unfoldable pub new_principal : Principal → Result Principal
new_principal p = elim (validate p) [ some e ↦ err e | none ↦ ok p ]

unfoldable pub new_human_principal : String → String → Result Principal
unfolding new_principal
new_human_principal subject role =
    new_principal
      (record { kind = actor_human; subject = subject; role = role; satellite_id = nil_uuid })

unfoldable pub new_operator_principal : String → Result Principal
unfolding new_principal
new_operator_principal subject =
    new_principal
      (record { kind = actor_operator; subject = subject; role = ""; satellite_id = nil_uuid })

unfoldable pub new_agent_principal : String → Uuid → Result Principal
unfolding new_principal
new_agent_principal subject id =
    new_principal (record { kind = actor_agent; subject = subject; role = ""; satellite_id = id })

-- Principal.HumanRole: the second result is Go's `bool`.
unfoldable pub human_role : Principal → String × Bool
human_role p = if not (p.kind == actor_human) then ("", false) else (p.role, true)

-- Principal.SatelliteID
unfoldable pub bound_satellite : Principal → Uuid × Bool
bound_satellite p =
    if not (p.kind == actor_agent) || eqb p.satellite_id nil_uuid
    then (nil_uuid, false)
    else (p.satellite_id, true)
