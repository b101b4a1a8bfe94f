-- ===== src/Tests/Operator.antt =====
-- The theorems on the operator at a cluster with one custom resource.
use fleetcontrol.Common.{
  ℕ, ◌+◌, ◌≡◌, refl, ap, String, true, arith, ◌⊎◌, ◌==◌, ◌&&◌, if◌then◌else◌, eq_iff, Option, none,
  some, [], ◌∷◌, external, Error, Result, ok, err,
}
use mathlib.Core.Option
use fleetcontrol.Operator.Types.{Satellite}
use fleetcontrol.Operator.Controller.{NamespacedName, Client, reconcile, mark_ready}
use fleetcontrol.Operator.Controller.Convergence.{CatchesUp, HasKey, IsSettled, reconcile_converges}
use fleetcontrol.Tests.Copies.{meta, meta-CopiesMeta}
use fleetcontrol.Operator.Types.{
  Condition, MetaField, deletion_timestamp, deletion_grace_period_seconds, labels, annotations,
  owner_references, finalizers, managed_fields, SatelliteList,
}
use fleetcontrol.Operator.Runtime.{Runtime, parsed, TlsConfig}
use fleetcontrol.Operator.Manager.{default_flags, manager_options}
use fleetcontrol.Operator.Manager.Options.{Hardened, manager_options-Hardened}
use fleetcontrol.Operator.Memory.{
  SatelliteStruct, ListStruct, meta_cell, count_cell, Memory, time_cell, conditions_cell,
  satellites_cell, list_cell, satellite_cell,
}
use fleetcontrol.Operator.DeepCopy.{list_deep_copy}
use fleetcontrol.Operator.DeepCopy.Fresh.{Separate}
use fleetcontrol.Operator.DeepCopy.Reading.{FieldReads, ListAt}
use fleetcontrol.Operator.DeepCopy.Independence.{list_deep_copy-Separate}

abbrev found : Option Satellite → Result Satellite
found none = err (external "not found")
found (some sat) = ok sat

abbrev result_or : Satellite → Result Satellite → Satellite
result_or sat (ok found) = found
result_or sat (err e) = sat

-- The resources of the API server by namespace and name, and the manager's cache of them.
pub record Cluster : Type 0 where
  pub stored : String → String → Option Satellite
  pub cached : String → String → Option Satellite

abbrev keyed_at : NamespacedName → Satellite → Satellite
keyed_at key sat = record sat {
  metadata = record sat.metadata { namespace = key.namespace; name = key.name };
}

abbrev put : Satellite → (String → String → Option Satellite) → String → String → Option Satellite
put sat table namespace name =
    if sat.metadata.namespace == namespace && (sat.metadata.name == name)
    then some sat
    else table namespace name

abbrev client : Client Cluster
client = record {
  get = λ key s. found (Option.map (keyed_at key) (s.cached key.namespace key.name));
  update_status = λ sat s. (none, record s { stored = put sat s.stored });
  is_not_found = λ e. true;
}

-- The cache has what the API server had.
abbrev Synced : Cluster → Cluster → Type 0
Synced s t = (namespace name : String) → t.cached namespace name ≡ s.stored namespace name

abbrev labelled_with : {A : Type 0} → Option A → MetaField → Option A
labelled_with o labels = o
labelled_with o _ = none

abbrev pending : Satellite
pending = record {
  type_meta = record { kind = "Satellite"; api_version = "fleetcontrol.io/v1alpha1" };
  metadata = record {
    name = "hcm";
    generate_name = "";
    namespace = "fleet";
    self_link = "";
    uid = "u1";
    resource_version = "1";
    generation = 1;
    creation_timestamp = 3;
    content = labelled_with (some "team=edge");
  };
  spec = record { region = "hcm" };
  status = record { phase = "Pending"; managed_by = ""; last_heartbeat = none; conditions = [] };
}

abbrev req : NamespacedName
req = record { namespace = "fleet"; name = "hcm" }

found_key :
    (key : NamespacedName) (o : Option Satellite) (sat : Satellite)
    → found (Option.map (keyed_at key) o) ≡ ok sat
    → HasKey key sat
found_key key none sat h = absurd (ground arith)
found_key key (some stored) sat h =
    let same : keyed_at key stored ≡ sat = ap (result_or pending) h in rw (← same) (refl, refl)

client-CatchesUp : CatchesUp client Synced
client-CatchesUp = record {
  keyed = λ key sat s there. found_key key (s.cached key.namespace key.name) sat there;
  reads_back = λ key new s s' t (same_namespace, same_name) accepted caught_up. (
    keyed_at key new,
    rw (
      caught_up key.namespace key.name,
      ← ap (λ x. x.1) accepted,
      (eq_iff new.metadata.namespace key.namespace).1 same_namespace,
      (eq_iff new.metadata.name key.name).1 same_name,
    ),
    refl,
  );
}

-- A second resource with the same name in another namespace.
abbrev other : Satellite
other = record pending { metadata = record pending.metadata { namespace = "test" } }

abbrev two_resources : String → String → Option Satellite
two_resources = put pending (put other (λ namespace name. none))

abbrev before : Cluster
before = record { stored = two_resources; cached = two_resources }

abbrev after : Cluster
after = record before { stored = put (mark_ready pending) two_resources }

abbrev synchronized : Cluster
synchronized = record after { cached = after.stored }

marked : reconcile client req before ≡ (ok tt, after)
unfolding reconcile
marked = refl

reconcile_converges_example :
    (IsSettled client req before × (after ≡ before))
    ⊎ (IsSettled client req synchronized
        × (reconcile client req synchronized ≡ (ok tt, synchronized)))
reconcile_converges_example =
    reconcile_converges client req Synced before after synchronized client-CatchesUp marked
      (λ namespace name. refl)

-- A cluster that grants everything; the state counts the calls.
abbrev granting : ℕ → Option Error × ℕ
granting n = (none, n + 1)

abbrev runtime : Runtime ℕ String String ℕ
runtime = record {
  info = λ text values n. n + 1;
  log_error = λ e text values n. n + 1;
  set_logger = λ n. n;
  add_client_go = granting;
  add_to_group_version = λ group version n. n;
  add_known_types = λ group version types n. n;
  add_to_scheme = λ fs n. granting n;
  parse_flags = λ f. parsed f;
  new_webhook_server = λ o. 0;
  get_config = some "cluster";
  new_manager = λ c o n. (ok "manager", n + 1);
  complete_controller = λ m kind name n. granting n;
  add_healthz_check = λ m name n. granting n;
  add_readyz_check = λ m name n. granting n;
  start = λ m n. granting n;
}

abbrev plain_tls : TlsConfig
plain_tls = record { next_protos = "h2" ∷ "http/1.1" ∷ [] }

manager_options-Hardened_example :
    Hardened runtime default_flags plain_tls 0 (manager_options runtime default_flags)
manager_options-Hardened_example = manager_options-Hardened runtime default_flags plain_tls 0 refl

-- A Satellite with a heartbeat and a condition, in a list of one.
abbrev met : Condition
met = record {
  kind = "Available";
  status = "True";
  observed_generation = 1;
  last_transition_time = 5;
  reason = "Deployed";
  message = "";
}

abbrev seen_satellite : Satellite
seen_satellite = record pending {
  status = record pending.status { last_heartbeat = some 7; conditions = met ∷ [] };
}

abbrev seen_struct : SatelliteStruct
seen_struct = record {
  type_meta = pending.type_meta;
  metadata = record {
    name = "hcm";
    generate_name = "";
    namespace = "fleet";
    self_link = "";
    uid = "u1";
    resource_version = "1";
    generation = 1;
    creation_timestamp = 3;
    reference = labelled_with (some 5);
  };
  spec = pending.spec;
  status = record {
    phase = "Pending";
    managed_by = "";
    last_heartbeat = some 0;
    conditions = some 1;
  };
}

abbrev seen_list_struct : ListStruct
seen_list_struct = record {
  type_meta = record { kind = "SatelliteList"; api_version = "fleetcontrol.io/v1alpha1" };
  metadata = record {
    self_link = "";
    resource_version = "9";
    continue_token = "";
    remaining_item_count = some 6;
  };
  items = some 2;
}

abbrev heap : Memory
heap =
    time_cell 7
    ∷ conditions_cell (met ∷ [])
    ∷ satellites_cell (seen_struct ∷ [])
    ∷ list_cell seen_list_struct
    ∷ satellite_cell seen_struct
    ∷ meta_cell "team=edge"
    ∷ count_cell 0
    ∷ []

abbrev seen_list : SatelliteList
seen_list = record {
  type_meta = seen_list_struct.type_meta;
  metadata = record {
    self_link = "";
    resource_version = "9";
    continue_token = "";
    remaining_item_count = some 0;
  };
  items = seen_satellite ∷ [];
}

-- The labels are in the cell 5, and no other reference is set.
seen-FieldReads :
    (field : MetaField)
    → FieldReads heap (seen_struct.metadata.reference field) (pending.metadata.content field)
seen-FieldReads labels = refl
seen-FieldReads deletion_timestamp = tt
seen-FieldReads deletion_grace_period_seconds = tt
seen-FieldReads annotations = tt
seen-FieldReads owner_references = tt
seen-FieldReads finalizers = tt
seen-FieldReads managed_fields = tt

-- The heap with every cell overwritten.
abbrev overwritten : Memory
overwritten =
    time_cell 0
    ∷ time_cell 0
    ∷ time_cell 0
    ∷ time_cell 0
    ∷ time_cell 0
    ∷ time_cell 0
    ∷ time_cell 0
    ∷ []

list_deep_copy-Separate_example :
    Separate heap
      (list_deep_copy meta (some 3) heap).1
      overwritten
      []
      (λ x. ListAt x (list_deep_copy meta (some 3) heap).0 seen_list)
list_deep_copy-Separate_example =
    list_deep_copy-Separate meta meta-CopiesMeta heap (some 3) seen_list overwritten []
      (
        seen_list_struct,
        refl,
        (
          refl,
          (refl, refl, refl, refl),
          (
            seen_struct ∷ [],
            refl,
            (
              (
                refl,
                ((refl, refl, refl, refl, refl, refl, refl, refl), seen-FieldReads),
                refl,
                (refl, refl, refl, refl),
              ),
              tt,
            ),
          ),
        ),
      )
      refl
