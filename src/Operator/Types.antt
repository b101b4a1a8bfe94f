-- ===== src/Operator/Types.antt =====
-- operator/api/v1alpha1/satellite_types.go, with the types of apimachinery that it is made of as they
-- are documented; a nil pointer, map or slice is `none`.
use fleetcontrol.Common.{ℕ, String, Option, List}
use fleetcontrol.Auth.Jwt.{Time}

pub record Condition : Type 0 where
  pub kind : String
  pub status : String
  pub observed_generation : ℕ
  pub last_transition_time : Time
  pub reason : String
  pub message : String

pub record SatelliteSpec : Type 0 where
  pub region : String

pub record SatelliteStatus : Type 0 where
  pub phase : String
  pub managed_by : String
  pub last_heartbeat : Option Time
  pub conditions : List Condition

-- The kind and the API version of an object.
pub record TypeMeta : Type 0 where
  pub kind : String
  pub api_version : String

-- The fields of an object's metadata that are pointers, maps or slices.
pub data MetaField : Type 0 where
  deletion_timestamp deletion_grace_period_seconds labels annotations : MetaField
  owner_references finalizers managed_fields : MetaField

-- `content` is what such a field holds, as a text.
pub record ObjectMeta : Type 0 where
  pub name : String
  pub generate_name : String
  pub namespace : String
  pub self_link : String
  pub uid : String
  pub resource_version : String
  pub generation : ℕ
  pub creation_timestamp : Time
  pub content : MetaField → Option String

pub record Satellite : Type 0 where
  pub type_meta : TypeMeta
  pub metadata : ObjectMeta
  pub spec : SatelliteSpec
  pub status : SatelliteStatus

pub record ListMeta : Type 0 where
  pub self_link : String
  pub resource_version : String
  pub continue_token : String
  pub remaining_item_count : Option ℕ

pub record SatelliteList : Type 0 where
  pub type_meta : TypeMeta
  pub metadata : ListMeta
  pub items : List Satellite
