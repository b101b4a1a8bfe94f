-- ===== src/User/Model.antt =====
-- api/internal/user/model.go
use fleetcontrol.Common.{String}
use fleetcontrol.Auth.Principal.{Uuid}
use fleetcontrol.Auth.Jwt.{Time}

pub record User : Type 0 where
  pub id : Uuid
  pub username : String
  pub password_hash : String
  pub role : String
  pub created_at : Time
