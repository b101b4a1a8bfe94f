-- ===== src/Operator/DeepCopy/Independence.antt =====
-- What the copies of operator/api/v1alpha1/zz_generated.deepcopy.go share with their originals.
use fleetcontrol.Common.{ℕ, ◌≡◌, refl, sym, Option, none, some, List, [], ◌∷◌, ◌++◌, map}
use fleetcontrol.Auth.Jwt.{Time}
use fleetcontrol.Operator.Types.{
  Condition, ObjectMeta, ListMeta, SatelliteStatus, Satellite, SatelliteList,
}
use fleetcontrol.Operator.Memory.{
  ObjectMetaStruct, ListMetaStruct, ListStruct, StatusStruct, SatelliteStruct, time_cell,
  conditions_cell, satellite_cell, satellites_cell, list_cell, Memory, length, get_elem?, set_elem,
  get_elem?-append_first,
}
use fleetcontrol.Operator.DeepCopy.{
  MetaLibrary, copy_heartbeat, copy_conditions, status_deep_copy_into, satellite_deep_copy_into,
  zero_condition, zero_satellite, zero_list, copy_items, copy_array, list_deep_copy_into,
  satellite_deep_copy, list_deep_copy,
}
use fleetcontrol.Operator.DeepCopy.Fresh.{
  Keeps, Keeps-same, Keeps-map, Keeps-result, Keeps-then, Keeps-store, Separate, Keeps-Separate,
}
use fleetcontrol.Operator.DeepCopy.Reading.{
  ObjectMetaReads, ListMetaReads, ListReads, ListMetaReads-append, StatusReads-append,
  HeartbeatReads, ConditionsReads, StatusReads, SatelliteReads, ItemsRead, ArrayReads, SatelliteAt,
  ListAt, ConditionsReads-append, ItemsRead-append, ArrayReads-append, SatelliteReads-append,
}

-- The copies of apimachinery hold what their originals do, in cells of their own.
pub record CopiesMeta (lib : MetaLibrary) : Type 0 where
  pub times :
      (a : ℕ) (m : Memory) (t : Time)
      → get_elem? m a ≡ some (time_cell t)
      → lib.time_deep_copy a m ≡ (length m, m ++ (time_cell t ∷ []))
  pub conditions : (c : Condition) → lib.copy_condition c ≡ c
  pub object_meta :
      (m : Memory) (o : ObjectMetaStruct) (v : ObjectMeta)
      → ObjectMetaReads m o v
      → Keeps m (lib.copy_object_meta o m).1 (λ x. ObjectMetaReads x (lib.copy_object_meta o m).0 v)
  pub list_meta :
      (m : Memory) (l : ListMetaStruct) (v : ListMeta)
      → ListMetaReads m l v
      → Keeps m (lib.copy_list_meta l m).1 (λ x. ListMetaReads x (lib.copy_list_meta l m).0 v)

module _ (lib : MetaLibrary) (copies : CopiesMeta lib) where
  map_copy : (cs : List Condition) → map lib.copy_condition cs ≡ cs
  map_copy [] = refl
  map_copy (c ∷ cs) = rw (copies.conditions c, map_copy cs) refl

  copy_heartbeat-Keeps :
      (m : Memory) (p : Option ℕ) (v : Option Time)
      → HeartbeatReads m p v
      → Keeps m (copy_heartbeat lib p m).1 (λ x. HeartbeatReads x (copy_heartbeat lib p m).0 v)
  copy_heartbeat-Keeps m none none h = Keeps-same m _ (λ x. tt)
  copy_heartbeat-Keeps m (some a) (some t) h = rw (copies.times a m t h) (
    time_cell t ∷ [],
    refl,
    λ other more same. rw (sym same) (get_elem?-append_first other more (time_cell t)),
  )
  copy_heartbeat-Keeps m none (some t) h = absurd h
  copy_heartbeat-Keeps m (some a) none h = absurd h

  copy_conditions-Keeps :
      (m : Memory) (p : Option ℕ) (v : List Condition)
      → ConditionsReads m p v
      → Keeps m (copy_conditions lib p m).1 (λ x. ConditionsReads x (copy_conditions lib p m).0 v)
  copy_conditions-Keeps m none [] h = Keeps-same m _ (λ x. tt)
  copy_conditions-Keeps m none (c ∷ cs) h = absurd h
  copy_conditions-Keeps m (some a) cs h =
      let z = conditions_cell (map (λ c. zero_condition) cs) in
      Keeps-result m (λ p x. ConditionsReads x p cs) (copy_conditions lib (some a) m)
        (some (length m), set_elem (m ++ (z ∷ [])) (length m) (conditions_cell cs))
        (rw (h, map_copy cs) refl)
        (Keeps-map m _ (λ x. (get_elem? x (length m) ≡ some (conditions_cell cs)) × Unit) _
          (λ x found. found.0)
          (Keeps-store m (m ++ (z ∷ [])) z (conditions_cell cs) (λ x. Unit)
            (Keeps-same (m ++ (z ∷ [])) (λ x. Unit) (λ x. tt))))

  status-Keeps :
      (m : Memory) (status : StatusStruct) (v : SatelliteStatus)
      → StatusReads m status v
      → Keeps m
          (status_deep_copy_into lib status m).1
          (λ x. StatusReads x (status_deep_copy_into lib status m).0 v)
  unfolding status_deep_copy_into
  status-Keeps m status v (phase, owner, heartbeat, conditions) =
      let p = status.last_heartbeat in
      let m' = (copy_heartbeat lib p m).1 in
      let keeps = copy_heartbeat-Keeps m p v.last_heartbeat heartbeat in
      let there : ConditionsReads m' status.conditions v.conditions =
        rw keeps.1 (ConditionsReads-append m keeps.0 status.conditions v.conditions conditions) in
      Keeps-map m _
        (λ x.
          HeartbeatReads x (copy_heartbeat lib p m).0 v.last_heartbeat
          × ConditionsReads x (copy_conditions lib status.conditions m').0 v.conditions)
        (λ x. StatusReads x (status_deep_copy_into lib status m).0 v)
        (λ x both. (phase, owner, both.0, both.1))
        (Keeps-then m m' _ (λ x. HeartbeatReads x (copy_heartbeat lib p m).0 v.last_heartbeat)
          (λ x. ConditionsReads x (copy_conditions lib status.conditions m').0 v.conditions) keeps
          (copy_conditions-Keeps m' status.conditions v.conditions there))

  satellite-Keeps :
      (m : Memory) (sat : SatelliteStruct) (v : Satellite)
      → SatelliteReads m sat v
      → Keeps m
          (satellite_deep_copy_into lib sat m).1
          (λ x. SatelliteReads x (satellite_deep_copy_into lib sat m).0 v)
  unfolding satellite_deep_copy_into
  satellite-Keeps m sat v (kind, metadata, spec, status) =
      let m' = (lib.copy_object_meta sat.metadata m).1 in
      let keeps = copies.object_meta m sat.metadata v.metadata metadata in
      let there : StatusReads m' sat.status v.status =
        rw keeps.1 (StatusReads-append m keeps.0 sat.status v.status status) in
      Keeps-map m _
        (λ x.
          ObjectMetaReads x (lib.copy_object_meta sat.metadata m).0 v.metadata
          × StatusReads x (status_deep_copy_into lib sat.status m').0 v.status)
        (λ x. SatelliteReads x (satellite_deep_copy_into lib sat m).0 v)
        (λ x both. (kind, both.0, spec, both.1))
        (Keeps-then m m' _
          (λ x. ObjectMetaReads x (lib.copy_object_meta sat.metadata m).0 v.metadata)
          (λ x. StatusReads x (status_deep_copy_into lib sat.status m').0 v.status) keeps
          (status-Keeps m' sat.status v.status there))

  copy_items-Keeps :
      (m : Memory) (sats : List SatelliteStruct) (vs : List Satellite)
      → ItemsRead m sats vs
      → Keeps m (copy_items lib sats m).1 (λ x. ItemsRead x (copy_items lib sats m).0 vs)
  unfolding copy_items
  copy_items-Keeps m [] [] h = Keeps-same m _ (λ x. tt)
  copy_items-Keeps m (sat ∷ sats) (v ∷ vs) (h, hs) =
      let m' = (satellite_deep_copy_into lib sat m).1 in
      let keeps = satellite-Keeps m sat v h in
      let there : ItemsRead m' sats vs = rw keeps.1 (ItemsRead-append m keeps.0 sats vs hs) in
      Keeps-then m m' _ (λ x. SatelliteReads x (satellite_deep_copy_into lib sat m).0 v)
        (λ x. ItemsRead x (copy_items lib sats m').0 vs) keeps (copy_items-Keeps m' sats vs there)
  copy_items-Keeps m [] (v ∷ vs) h = absurd h
  copy_items-Keeps m (sat ∷ sats) [] h = absurd h

  copy_array-Keeps :
      (m : Memory) (p : Option ℕ) (vs : List Satellite)
      → ArrayReads m p vs
      → Keeps m (copy_array lib p m).1 (λ x. ArrayReads x (copy_array lib p m).0 vs)
  copy_array-Keeps m none [] h = Keeps-same m _ (λ x. tt)
  copy_array-Keeps m none (v ∷ vs) h = absurd h
  copy_array-Keeps m (some a) vs (sats, there, reads) =
      let z = satellites_cell (map (λ s. zero_satellite) sats) in
      let r = copy_items lib sats (m ++ (z ∷ [])) in
      Keeps-result m (λ p x. ArrayReads x p vs) (copy_array lib (some a) m)
        (some (length m), set_elem r.1 (length m) (satellites_cell r.0)) (rw there refl)
        (Keeps-map m _
          (λ x. (get_elem? x (length m) ≡ some (satellites_cell r.0)) × ItemsRead x r.0 vs)
          (λ x. ArrayReads x (some (length m)) vs) (λ x found. (r.0, found.0, found.1))
          (Keeps-store m r.1 z (satellites_cell r.0) (λ x. ItemsRead x r.0 vs)
            (copy_items-Keeps (m ++ (z ∷ [])) sats vs (ItemsRead-append m (z ∷ []) sats vs reads))))

  -- If the copies of apimachinery hold what their originals do, DeepCopy of a Satellite only adds
  -- cells to the memory, and the pointer that it returns reads as the Satellite did, whatever the
  -- cells from before the call hold later and whatever is allocated after it.
  pub satellite_deep_copy-Separate :
      (m : Memory) (p : Option ℕ) (v : Satellite) (other more : Memory)
      → SatelliteAt m p v
      → length other ≡ length m
      → Separate m
          (satellite_deep_copy lib p m).1
          other
          more
          (λ x. SatelliteAt x (satellite_deep_copy lib p m).0 v)
  unfolding satellite_deep_copy
  satellite_deep_copy-Separate m none v other more h same = absurd h
  satellite_deep_copy-Separate m (some a) v other more (sat, there, reads) same =
      let z = satellite_cell zero_satellite in
      let r = satellite_deep_copy_into lib sat (m ++ (z ∷ [])) in
      Keeps-Separate m (satellite_deep_copy lib (some a) m).1 other more
        (λ x. SatelliteAt x (satellite_deep_copy lib (some a) m).0 v) same
        (Keeps-result m (λ p x. SatelliteAt x p v) (satellite_deep_copy lib (some a) m)
          (some (length m), set_elem r.1 (length m) (satellite_cell r.0)) (rw there refl)
          (Keeps-map m _
            (λ x. (get_elem? x (length m) ≡ some (satellite_cell r.0)) × SatelliteReads x r.0 v)
            (λ x. SatelliteAt x (some (length m)) v) (λ x found. (r.0, found.0, found.1))
            (Keeps-store m r.1 z (satellite_cell r.0) (λ x. SatelliteReads x r.0 v)
              (satellite-Keeps (m ++ (z ∷ [])) sat v
                (SatelliteReads-append m (z ∷ []) sat v reads)))))

  list-Keeps :
      (m : Memory) (list : ListStruct) (v : SatelliteList)
      → ListReads m list v
      → Keeps m
          (list_deep_copy_into lib list m).1
          (λ x. ListReads x (list_deep_copy_into lib list m).0 v)
  unfolding list_deep_copy_into
  list-Keeps m list v (kind, metadata, reads) =
      let m' = (lib.copy_list_meta list.metadata m).1 in
      let keeps = copies.list_meta m list.metadata v.metadata metadata in
      let there : ArrayReads m' list.items v.items =
        rw keeps.1 (ArrayReads-append m keeps.0 list.items v.items reads) in
      Keeps-map m _
        (λ x.
          ListMetaReads x (lib.copy_list_meta list.metadata m).0 v.metadata
          × ArrayReads x (copy_array lib list.items m').0 v.items)
        (λ x. ListReads x (list_deep_copy_into lib list m).0 v) (λ x both. (kind, both.0, both.1))
        (Keeps-then m m' _ (λ x. ListMetaReads x (lib.copy_list_meta list.metadata m).0 v.metadata)
          (λ x. ArrayReads x (copy_array lib list.items m').0 v.items) keeps
          (copy_array-Keeps m' list.items v.items there))

  -- If the copies of apimachinery hold what their originals do, DeepCopy of a list of Satellites
  -- only adds cells to the memory, and the pointer that it returns reads as the list did, with its
  -- metadata and the labels, annotations and other references of every item, whatever the cells
  -- from before the call hold later and whatever is allocated after it.
  pub list_deep_copy-Separate :
      (m : Memory) (p : Option ℕ) (v : SatelliteList) (other more : Memory)
      → ListAt m p v
      → length other ≡ length m
      → Separate m
          (list_deep_copy lib p m).1
          other
          more
          (λ x. ListAt x (list_deep_copy lib p m).0 v)
  unfolding list_deep_copy
  list_deep_copy-Separate m none v other more h same = absurd h
  list_deep_copy-Separate m (some a) v other more (list, there, (kind, metadata, reads)) same =
      let z = list_cell zero_list in
      let r = list_deep_copy_into lib list (m ++ (z ∷ [])) in
      Keeps-Separate m (list_deep_copy lib (some a) m).1 other more
        (λ x. ListAt x (list_deep_copy lib (some a) m).0 v) same
        (Keeps-result m (λ p x. ListAt x p v) (list_deep_copy lib (some a) m)
          (some (length m), set_elem r.1 (length m) (list_cell r.0)) (rw there refl)
          (Keeps-map m _ (λ x. (get_elem? x (length m) ≡ some (list_cell r.0)) × ListReads x r.0 v)
            (λ x. ListAt x (some (length m)) v) (λ x found. (r.0, found.0, found.1))
            (Keeps-store m r.1 z (list_cell r.0) (λ x. ListReads x r.0 v)
              (list-Keeps (m ++ (z ∷ [])) list v (
                kind,
                ListMetaReads-append m (z ∷ []) list.metadata v.metadata metadata,
                ArrayReads-append m (z ∷ []) list.items v.items reads,
              )))))
