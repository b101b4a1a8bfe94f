-- ===== src/Operator/Manager/Starting.antt =====
-- When the operator's manager runs.
use fleetcontrol.Common.{true, false, ◌≡◌, List, [], ◌∷◌, Option, none, some, Error, ok}
use fleetcontrol.Operator.Runtime.{Flags, parsed, Exit, Runtime}
use fleetcontrol.Operator.Manager.{manager_options, log_watchers}

-- The flags as they are documented, before a command line sets them.
abbrev pub documented_flags : Flags
documented_flags = record {
  metrics_addr = "0";
  metrics_cert_path = "";
  metrics_cert_name = "tls.crt";
  metrics_cert_key = "tls.key";
  webhook_cert_path = "";
  webhook_cert_name = "tls.crt";
  webhook_cert_key = "tls.key";
  enable_leader_election = false;
  probe_addr = ":8081";
  secure_metrics = true;
  enable_http2 = false;
}

module _ {S C M W : Type 0} (rt : Runtime S C M W) where
  -- The calls of main that a manager went through, from a state to the last one.
  abbrev pub Runs : M → S → S → Type 0
  Runs m s s' =
      (a : S) × (b : S) × (c : S) × (rt.complete_controller m "Satellite" "satellite" s ≡ (none, a))
      × (rt.add_healthz_check m "healthz" a ≡ (none, b))
      × (rt.add_readyz_check m "readyz" b ≡ (none, c))
      × (rt.start m (rt.info "Starting manager" [] c) ≡ (none, s'))

  -- The group version and the two types of the custom resource.
  abbrev pub registrations : List (S → Option Error × S)
  registrations =
      (λ s. (none, rt.add_to_group_version "fleetcontrol.io" "v1alpha1" s))
      ∷ (λ s. (
        none,
        rt.add_known_types "fleetcontrol.io" "v1alpha1" ("Satellite" ∷ "SatelliteList" ∷ []) s,
      ))
      ∷ []

  abbrev pub Starts : S → S → Type 0
  Starts s s' =
      (a : S) × (b : S) × (c : S) × (f : Flags) × (config : C) × (m : M) × (rt.add_client_go s
        ≡ (none, a))
      × (rt.add_to_scheme registrations a ≡ (none, b))
      × (rt.parse_flags documented_flags ≡ parsed f)
      × (rt.get_config ≡ some config)
      × (rt.new_manager config (manager_options rt f) (log_watchers rt f (rt.set_logger b))
          ≡ (ok m, c))
      × Runs m c s'

  abbrev state_of : Exit × S → S
  state_of (e, s) = s

  abbrev Configured : Flags → S → S → Type 0
  Configured f s s' =
      (c : S) × (config : C) × (m : M) × (rt.get_config ≡ some config)
      × (rt.new_manager config (manager_options rt f) s ≡ (ok m, c))
      × Runs m c s'
