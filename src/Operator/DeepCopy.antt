-- ===== src/Operator/DeepCopy.antt =====
-- operator/api/v1alpha1/zz_generated.deepcopy.go. A DeepCopyInto is the value that it leaves in *out.
pub mod Reading
pub mod Fresh
pub mod Independence
use fleetcontrol.Common.{ℕ, zero, suc, ◌-◌, String, Option, none, some, List, [], ◌∷◌, ◌++◌, map}
use fleetcontrol.Operator.Types.{Condition, SatelliteSpec, TypeMeta}
use fleetcontrol.Operator.Memory.{
  ObjectMetaStruct, ListMetaStruct, StatusStruct, SatelliteStruct, ListStruct, Cell, time_cell,
  conditions_cell, spec_cell, status_cell, satellite_cell, satellites_cell, list_cell, Memory,
  length, get_elem?, set_elem,
}

-- The copying of the types of apimachinery: the DeepCopy of a time takes and returns an address.
pub record MetaLibrary : Type 0 where
  pub time_deep_copy : ℕ → Memory → ℕ × Memory
  pub copy_condition : Condition → Condition
  pub copy_object_meta : ObjectMetaStruct → Memory → ObjectMetaStruct × Memory
  pub copy_list_meta : ListMetaStruct → Memory → ListMetaStruct × Memory

-- The zero values.
abbrev pub zero_spec : SatelliteSpec
zero_spec = record { region = "" }

abbrev pub zero_status : StatusStruct
zero_status = record { phase = ""; managed_by = ""; last_heartbeat = none; conditions = none }

abbrev pub zero_type : TypeMeta
zero_type = record { kind = ""; api_version = "" }

abbrev pub zero_object_meta : ObjectMetaStruct
zero_object_meta = record {
  name = "";
  generate_name = "";
  namespace = "";
  self_link = "";
  uid = "";
  resource_version = "";
  generation = 0;
  creation_timestamp = 0;
  reference = λ field. none;
}

abbrev pub zero_list_meta : ListMetaStruct
zero_list_meta = record {
  self_link = "";
  resource_version = "";
  continue_token = "";
  remaining_item_count = none;
}

abbrev pub zero_satellite : SatelliteStruct
zero_satellite = record {
  type_meta = zero_type;
  metadata = zero_object_meta;
  spec = zero_spec;
  status = zero_status;
}

abbrev pub zero_list : ListStruct
zero_list = record { type_meta = zero_type; metadata = zero_list_meta; items = none }

abbrev pub zero_condition : Condition
zero_condition = record {
  kind = "";
  status = "";
  observed_generation = 0;
  last_transition_time = 0;
  reason = "";
  message = "";
}

-- What an address of the right type holds; no other is followed.
abbrev pub conditions_of : Option Cell → List Condition
conditions_of (some (conditions_cell cs)) = cs
conditions_of _ = []

abbrev pub satellites_of : Option Cell → List SatelliteStruct
satellites_of (some (satellites_cell sats)) = sats
satellites_of _ = []

abbrev pub spec_of : Option Cell → SatelliteSpec
spec_of (some (spec_cell spec)) = spec
spec_of _ = zero_spec

abbrev pub status_of : Option Cell → StatusStruct
status_of (some (status_cell status)) = status
status_of _ = zero_status

abbrev pub satellite_of : Option Cell → SatelliteStruct
satellite_of (some (satellite_cell sat)) = sat
satellite_of _ = zero_satellite

abbrev pub list_of : Option Cell → ListStruct
list_of (some (list_cell list)) = list
list_of _ = zero_list

-- The cell at an address is overwritten.
abbrev pub store : ℕ → Cell → Memory → ℕ × Memory
store a c m = (a, set_elem m a c)

abbrev pub to_pointer : ℕ × Memory → Option ℕ × Memory
to_pointer (a, m) = (some a, m)

-- runtime.Object, for the two types that implement it.
pub data RuntimeObject : Type 0 where
  satellite_object : ℕ → RuntimeObject
  list_object : ℕ → RuntimeObject

abbrev pub as_object : (ℕ → RuntimeObject) → Option ℕ × Memory → Option RuntimeObject × Memory
as_object kind (none, m) = (none, m)
as_object kind (some a, m) = (some (kind a), m)

module _ (lib : MetaLibrary) where
  abbrev pub copy_heartbeat : Option ℕ → Memory → Option ℕ × Memory
  copy_heartbeat none m = (none, m)
  copy_heartbeat (some a) m = to_pointer (lib.time_deep_copy a m)

  -- make and the loop over *in, which fills the array that make has allocated.
  abbrev pub copy_conditions : Option ℕ → Memory → Option ℕ × Memory
  copy_conditions none m = (none, m)
  copy_conditions (some a) m =
      let cs = conditions_of (get_elem? m a) in
      to_pointer (
        store (length m) (conditions_cell (map lib.copy_condition cs))
          (m ++ (conditions_cell (map (λ c. zero_condition) cs) ∷ [])))

  unfoldable pub status_deep_copy_into : StatusStruct → Memory → StatusStruct × Memory
  status_deep_copy_into status m =
      let heartbeat = copy_heartbeat status.last_heartbeat m in
      let conditions = copy_conditions status.conditions heartbeat.1 in
      (record status { last_heartbeat = heartbeat.0; conditions = conditions.0 }, conditions.1)

  unfoldable pub spec_deep_copy_into : SatelliteSpec → SatelliteSpec
  spec_deep_copy_into spec = spec

  unfoldable pub satellite_deep_copy_into : SatelliteStruct → Memory → SatelliteStruct × Memory
  unfolding status_deep_copy_into
  satellite_deep_copy_into sat m =
      let metadata = lib.copy_object_meta sat.metadata m in
      let status = status_deep_copy_into sat.status metadata.1 in
      (
        record {
          type_meta = sat.type_meta;
          metadata = metadata.0;
          spec = sat.spec;
          status = status.0;
        },
        status.1,
      )

  -- The loop over the items.
  unfoldable pub copy_items : List SatelliteStruct → Memory → List SatelliteStruct × Memory
  unfolding satellite_deep_copy_into
  copy_items [] m = ([], m)
  copy_items (sat ∷ sats) m =
      let copied = satellite_deep_copy_into sat m in
      let rest = copy_items sats copied.1 in (copied.0 ∷ rest.0, rest.1)

  abbrev pub store_items : ℕ → List SatelliteStruct × Memory → ℕ × Memory
  store_items a (sats, m) = store a (satellites_cell sats) m

  abbrev pub copy_array : Option ℕ → Memory → Option ℕ × Memory
  copy_array none m = (none, m)
  copy_array (some a) m =
      let sats = satellites_of (get_elem? m a) in
      to_pointer (
        store_items (length m)
          (copy_items sats (m ++ (satellites_cell (map (λ s. zero_satellite) sats) ∷ []))))

  unfoldable pub list_deep_copy_into : ListStruct → Memory → ListStruct × Memory
  unfolding copy_items
  list_deep_copy_into list m =
      let metadata = lib.copy_list_meta list.metadata m in
      let items = copy_array list.items metadata.1 in
      (record { type_meta = list.type_meta; metadata = metadata.0; items = items.0 }, items.1)

  -- The DeepCopy of a type: nil for nil, else new and a DeepCopyInto.
  abbrev pub store_as : {A : Type 0} → (A → Cell) → ℕ → A × Memory → ℕ × Memory
  store_as cell a (x, m) = store a (cell x) m

  unfoldable pub spec_deep_copy : Option ℕ → Memory → Option ℕ × Memory
  unfolding spec_deep_copy_into
  spec_deep_copy none m = (none, m)
  spec_deep_copy (some a) m = to_pointer (
      store_as spec_cell (length m)
        (spec_deep_copy_into (spec_of (get_elem? m a)), m ++ (spec_cell zero_spec ∷ [])))

  unfoldable pub status_deep_copy : Option ℕ → Memory → Option ℕ × Memory
  unfolding status_deep_copy_into
  status_deep_copy none m = (none, m)
  status_deep_copy (some a) m = to_pointer (
      store_as status_cell (length m)
        (status_deep_copy_into (status_of (get_elem? m a)) (m ++ (status_cell zero_status ∷ []))))

  unfoldable pub satellite_deep_copy : Option ℕ → Memory → Option ℕ × Memory
  unfolding satellite_deep_copy_into
  satellite_deep_copy none m = (none, m)
  satellite_deep_copy (some a) m = to_pointer (
      store_as satellite_cell (length m) (
        satellite_deep_copy_into (satellite_of (get_elem? m a))
          (m ++ (satellite_cell zero_satellite ∷ []))))

  unfoldable pub list_deep_copy : Option ℕ → Memory → Option ℕ × Memory
  unfolding list_deep_copy_into
  list_deep_copy none m = (none, m)
  list_deep_copy (some a) m = to_pointer (
      store_as list_cell (length m)
        (list_deep_copy_into (list_of (get_elem? m a)) (m ++ (list_cell zero_list ∷ []))))

  -- DeepCopyObject: a runtime.Object, or nil.
  unfoldable pub satellite_deep_copy_object : Option ℕ → Memory → Option RuntimeObject × Memory
  unfolding satellite_deep_copy
  satellite_deep_copy_object a m = as_object satellite_object (satellite_deep_copy a m)

  unfoldable pub list_deep_copy_object : Option ℕ → Memory → Option RuntimeObject × Memory
  unfolding list_deep_copy
  list_deep_copy_object a m = as_object list_object (list_deep_copy a m)
