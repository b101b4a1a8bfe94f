-- ===== src/Satellite/Model.antt =====
-- api/internal/satellite/model.go
use fleetcontrol.Common.{String, Option}
use fleetcontrol.Auth.Principal.{Uuid}
use fleetcontrol.Auth.Jwt.{Time}

pub record Satellite : Type 0 where
  pub id : Uuid
  pub name : String
  pub region : String
  pub status : String
  pub managed_by : String
  pub last_seen_at : Option Time
  pub created_at : Time
