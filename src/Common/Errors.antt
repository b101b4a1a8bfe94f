-- ===== src/Common/Errors.antt =====
-- Go's `error` values: the sentinels that the packages export, and the ways the code builds others.
use Prim.Native.Nat.{ℕ}
use Prim.Native.String
use Prim.Native.String.{String}
use mathlib.Core.Path.{◌≡◌, refl}
use mathlib.Core.Logic.{◌⊎◌, inl, inr}
use mathlib.Core.Bool.{Bool, false}
use fleetcontrol.Common.Tests.{eqb}

-- The errors that `errors.Is` and `==` tell apart by identity.
pub data Sentinel : Type 0 where
  managed_by_operator invalid_role invalid_principal invalid_token invalid_jwt_config no_rows :
      Sentinel

-- `sentinel` is an exported variable, `new` is `errors.New` or `fmt.Errorf` with no `%w`,
-- `wrap` is `fmt.Errorf("%w: %s", …)`, `context` is `fmt.Errorf("text: %w", …)`, and `external` is
-- an error that a library returned.
pub data Error : Type 0 where
  sentinel : Sentinel → Error
  new : String → Error
  wrap : Error → String → Error
  context : String → Error → Error
  external : String → Error

abbrev pub sentinel_text : Sentinel → String
sentinel_text managed_by_operator = "satellite is managed by operator and cannot be edited manually"
sentinel_text invalid_role = "role must be one of: admin, viewer"
sentinel_text invalid_principal = "invalid principal"
sentinel_text invalid_token = "invalid human token"
sentinel_text invalid_jwt_config = "invalid JWT configuration"
sentinel_text no_rows = "no rows in result set"

-- The `Error()` method.
abbrev pub message : Error → String
message (sentinel s) = sentinel_text s
message (new t) = t
message (wrap e t) = String.◌++◌ (message e) (String.◌++◌ ": " t)
message (context t e) = String.◌++◌ t (String.◌++◌ ": " (message e))
message (external t) = t

abbrev sentinel_index : Sentinel → ℕ
sentinel_index managed_by_operator = 0
sentinel_index invalid_role = 1
sentinel_index invalid_principal = 2
sentinel_index invalid_token = 3
sentinel_index invalid_jwt_config = 4
sentinel_index no_rows = 5

abbrev pub same_sentinel : Sentinel → Sentinel → Bool
same_sentinel s t = eqb (sentinel_index s) (sentinel_index t)

-- errors.Is for a sentinel: the error itself, or what it wraps.
abbrev pub error_is : Error → Sentinel → Bool
error_is (sentinel s) t = same_sentinel s t
error_is (new _) t = false
error_is (wrap e _) t = error_is e t
error_is (context _ e) t = error_is e t
error_is (external _) t = false

-- `err == target`: no unwrapping.
abbrev pub error_eq : Error → Sentinel → Bool
error_eq (sentinel s) t = same_sentinel s t
error_eq _ t = false

-- A value and an `error` result.
pub data Result {ℓ} (A : Type ℓ) : Type ℓ where
  ok : A → Result A
  err : Error → Result A

pub Result-cases {ℓ} :
    {A : Type ℓ} (r : Result A) → ((a : A) × (r ≡ ok a)) ⊎ ((e : Error) × (r ≡ err e))
Result-cases (ok a) = inl (a, refl)
Result-cases (err e) = inr (e, refl)
