-- ===== src/Operator/DeepCopy/Reading.antt =====
-- What a value in memory reads as: the value of operator/api/v1alpha1/satellite_types.go that it and
-- the cells that it points to spell.
use fleetcontrol.Common.{ℕ, String, ◌≡◌, Option, none, some, List, [], ◌∷◌, ◌++◌}
use fleetcontrol.Auth.Jwt.{Time}
use fleetcontrol.Operator.Types.{
  Condition, MetaField, ObjectMeta, ListMeta, SatelliteStatus, Satellite, SatelliteList,
}
use fleetcontrol.Operator.Memory.{
  ObjectMetaStruct, ListMetaStruct, StatusStruct, SatelliteStruct, ListStruct, meta_cell,
  count_cell, time_cell, conditions_cell, satellite_cell, satellites_cell, list_cell, Memory,
  get_elem?, get_elem?-append,
}

abbrev pub FieldReads : Memory → Option ℕ → Option String → Type 0
FieldReads m none none = Unit
FieldReads m (some a) (some t) = get_elem? m a ≡ some (meta_cell t)
FieldReads m _ _ = ⊥

abbrev pub CountReads : Memory → Option ℕ → Option ℕ → Type 0
CountReads m none none = Unit
CountReads m (some a) (some n) = get_elem? m a ≡ some (count_cell n)
CountReads m _ _ = ⊥

-- The fields of an object's metadata that hold no address.
abbrev pub IsLabelled : ObjectMetaStruct → ObjectMeta → Type 0
IsLabelled o v =
    (o.name ≡ v.name)
    × (o.generate_name ≡ v.generate_name)
    × (o.namespace ≡ v.namespace)
    × (o.self_link ≡ v.self_link)
    × (o.uid ≡ v.uid)
    × (o.resource_version ≡ v.resource_version)
    × (o.generation ≡ v.generation)
    × (o.creation_timestamp ≡ v.creation_timestamp)

abbrev pub ObjectMetaReads : Memory → ObjectMetaStruct → ObjectMeta → Type 0
ObjectMetaReads m o v =
    IsLabelled o v × ((field : MetaField) → FieldReads m (o.reference field) (v.content field))

abbrev pub ListMetaReads : Memory → ListMetaStruct → ListMeta → Type 0
ListMetaReads m l v =
    (l.self_link ≡ v.self_link)
    × (l.resource_version ≡ v.resource_version)
    × (l.continue_token ≡ v.continue_token)
    × CountReads m l.remaining_item_count v.remaining_item_count

abbrev pub HeartbeatReads : Memory → Option ℕ → Option Time → Type 0
HeartbeatReads m none none = Unit
HeartbeatReads m (some a) (some t) = get_elem? m a ≡ some (time_cell t)
HeartbeatReads m _ _ = ⊥

-- A nil slice reads as an empty one.
abbrev pub ConditionsReads : Memory → Option ℕ → List Condition → Type 0
ConditionsReads m none [] = Unit
ConditionsReads m none (c ∷ cs) = ⊥
ConditionsReads m (some a) cs = get_elem? m a ≡ some (conditions_cell cs)

abbrev pub StatusReads : Memory → StatusStruct → SatelliteStatus → Type 0
StatusReads m status v =
    (status.phase ≡ v.phase)
    × (status.managed_by ≡ v.managed_by)
    × HeartbeatReads m status.last_heartbeat v.last_heartbeat
    × ConditionsReads m status.conditions v.conditions

abbrev pub SatelliteReads : Memory → SatelliteStruct → Satellite → Type 0
SatelliteReads m sat v =
    (sat.type_meta ≡ v.type_meta)
    × ObjectMetaReads m sat.metadata v.metadata
    × (sat.spec ≡ v.spec)
    × StatusReads m sat.status v.status

abbrev pub ItemsRead : Memory → List SatelliteStruct → List Satellite → Type 0
ItemsRead m [] [] = Unit
ItemsRead m (sat ∷ sats) (v ∷ vs) = SatelliteReads m sat v × ItemsRead m sats vs
ItemsRead m _ _ = ⊥

abbrev pub ArrayReads : Memory → Option ℕ → List Satellite → Type 0
ArrayReads m none [] = Unit
ArrayReads m none (v ∷ vs) = ⊥
ArrayReads m (some a) vs =
    (sats : List SatelliteStruct) × (get_elem? m a ≡ some (satellites_cell sats))
    × ItemsRead m sats vs

abbrev pub ListReads : Memory → ListStruct → SatelliteList → Type 0
ListReads m list v =
    (list.type_meta ≡ v.type_meta)
    × ListMetaReads m list.metadata v.metadata
    × ArrayReads m list.items v.items

-- A pointer to a Satellite, and one to a list of them.
abbrev pub SatelliteAt : Memory → Option ℕ → Satellite → Type 0
SatelliteAt m none v = ⊥
SatelliteAt m (some a) v =
    (sat : SatelliteStruct) × (get_elem? m a ≡ some (satellite_cell sat)) × SatelliteReads m sat v

abbrev pub ListAt : Memory → Option ℕ → SatelliteList → Type 0
ListAt m none v = ⊥
ListAt m (some a) v =
    (list : ListStruct) × (get_elem? m a ≡ some (list_cell list)) × ListReads m list v

-- More cells change nothing that reads.
module _ (m more : Memory) where
  FieldReads-append :
      (p : Option ℕ) (v : Option String) → FieldReads m p v → FieldReads (m ++ more) p v
  FieldReads-append none none h = tt
  FieldReads-append (some a) (some t) h = get_elem?-append m more a (meta_cell t) h
  FieldReads-append none (some t) h = absurd h
  FieldReads-append (some a) none h = absurd h

  CountReads-append : (p : Option ℕ) (v : Option ℕ) → CountReads m p v → CountReads (m ++ more) p v
  CountReads-append none none h = tt
  CountReads-append (some a) (some n) h = get_elem?-append m more a (count_cell n) h
  CountReads-append none (some n) h = absurd h
  CountReads-append (some a) none h = absurd h

  ObjectMetaReads-append :
      (o : ObjectMetaStruct) (v : ObjectMeta)
      → ObjectMetaReads m o v
      → ObjectMetaReads (m ++ more) o v
  ObjectMetaReads-append o v (labelled, fields) =
      (labelled, λ field. FieldReads-append (o.reference field) (v.content field) (fields field))

  pub ListMetaReads-append :
      (l : ListMetaStruct) (v : ListMeta) → ListMetaReads m l v → ListMetaReads (m ++ more) l v
  ListMetaReads-append l v (link, version, next, count) =
      (link, version, next, CountReads-append l.remaining_item_count v.remaining_item_count count)

  HeartbeatReads-append :
      (p : Option ℕ) (v : Option Time) → HeartbeatReads m p v → HeartbeatReads (m ++ more) p v
  HeartbeatReads-append none none h = tt
  HeartbeatReads-append (some a) (some t) h = get_elem?-append m more a (time_cell t) h
  HeartbeatReads-append none (some t) h = absurd h
  HeartbeatReads-append (some a) none h = absurd h

  pub ConditionsReads-append :
      (p : Option ℕ) (v : List Condition) → ConditionsReads m p v → ConditionsReads (m ++ more) p v
  ConditionsReads-append none [] h = tt
  ConditionsReads-append none (c ∷ cs) h = absurd h
  ConditionsReads-append (some a) cs h = get_elem?-append m more a (conditions_cell cs) h

  pub StatusReads-append :
      (status : StatusStruct) (v : SatelliteStatus)
      → StatusReads m status v
      → StatusReads (m ++ more) status v
  StatusReads-append status v (phase, owner, heartbeat, conditions) = (
    phase,
    owner,
    HeartbeatReads-append status.last_heartbeat v.last_heartbeat heartbeat,
    ConditionsReads-append status.conditions v.conditions conditions,
  )

  pub SatelliteReads-append :
      (sat : SatelliteStruct) (v : Satellite)
      → SatelliteReads m sat v
      → SatelliteReads (m ++ more) sat v
  SatelliteReads-append sat v (kind, metadata, spec, status) = (
    kind,
    ObjectMetaReads-append sat.metadata v.metadata metadata,
    spec,
    StatusReads-append sat.status v.status status,
  )

  pub ItemsRead-append :
      (sats : List SatelliteStruct) (vs : List Satellite)
      → ItemsRead m sats vs
      → ItemsRead (m ++ more) sats vs
  ItemsRead-append [] [] h = tt
  ItemsRead-append (sat ∷ sats) (v ∷ vs) (h, hs) =
      (SatelliteReads-append sat v h, ItemsRead-append sats vs hs)
  ItemsRead-append [] (v ∷ vs) h = absurd h
  ItemsRead-append (sat ∷ sats) [] h = absurd h

  pub ArrayReads-append :
      (p : Option ℕ) (vs : List Satellite) → ArrayReads m p vs → ArrayReads (m ++ more) p vs
  ArrayReads-append none [] h = tt
  ArrayReads-append none (v ∷ vs) h = absurd h
  ArrayReads-append (some a) vs (sats, there, reads) =
      (sats, get_elem?-append m more a (satellites_cell sats) there, ItemsRead-append sats vs reads)
