-- ===== src/Auth/Jwt/Config.antt =====
-- Which JWT configurations NewJWTManager accepts.
use Prim.Native.String.{len}
use fleetcontrol.Common.{
  ◌≤◌, ◌≡◌, ◌≢◌, ◌↔◌, true, arith, eq_iff, trim_space, error_is, invalid_jwt_config, Error, ok, err,
}
use fleetcontrol.Auth.Jwt.{JwtConfig, JwtManager, minimum_jwt_secret_bytes, new_jwt_manager}

-- The configuration is strong enough, and the manager holds it with the blanks cut off.
pub record Configures (c : JwtConfig) (m : JwtManager) : Type 0 where
  pub long : minimum_jwt_secret_bytes ≤ len c.secret
  pub not_blank : trim_space c.secret ≢ ""
  pub issued : m.issuer ≢ ""
  pub addressed : m.audience ≢ ""
  pub same_secret : m.secret ≡ c.secret
  pub same_issuer : m.issuer ≡ trim_space c.issuer
  pub same_audience : m.audience ≡ trim_space c.audience

-- NewJWTManager returns a manager exactly when the secret has at least 32 bytes and is not blank
-- and issuer and audience are not blank; it holds the secret as given, and issuer and audience
-- trimmed.
pub new_jwt_manager_iff :
    (c : JwtConfig) (m : JwtManager) → (new_jwt_manager c ≡ ok m) ↔ Configures c m
unfolding new_jwt_manager
new_jwt_manager_iff c m = ground (
  arith,
  eq_iff (trim_space c.secret) "",
  eq_iff (trim_space c.issuer) "",
  eq_iff (trim_space c.audience) "",
)

-- Every refusal is an ErrInvalidJWTConfig.
pub new_jwt_manager_refusal :
    (c : JwtConfig) (e : Error) → new_jwt_manager c ≡ err e → error_is e invalid_jwt_config ≡ true
unfolding new_jwt_manager
new_jwt_manager_refusal c e h = ground arith
