-- ===== src/Operator/Manager.antt =====
-- operator/cmd/main.go, and operator/api/v1alpha1/groupversion_info.go for the scheme it fills.
-- controller-runtime, the flag package and the log are parameters over a state S.
pub mod Options
pub mod Starting
use Prim.Native.String
use fleetcontrol.Common.{
  ℕ, String, Bool, true, false, not, Option, none, some, List, [], ◌∷◌, eqb, if◌then◌else◌, Error,
  Result, ok, err,
}
use fleetcontrol.Operator.Runtime.{
  Flags, TlsConfig, TlsOption, WebhookOptions, FilterProvider, MetricsOptions, ManagerOptions,
  Parsing, Exit, Runtime, with_authentication_and_authorization, parsed, exits, init_panic, exited,
  returned,
}

abbrev pub default_flags : Flags
default_flags = record {
  metrics_addr = "0";
  metrics_cert_path = "";
  metrics_cert_name = "tls.crt";
  metrics_cert_key = "tls.key";
  webhook_cert_path = "";
  webhook_cert_name = "tls.crt";
  webhook_cert_key = "tls.key";
  enable_leader_election = false;
  probe_addr = ":8081";
  secure_metrics = true;
  enable_http2 = false;
}

abbrev pub given : String → Bool
given String.[] = false
given (String.◌∷◌ c s) = true

module _ {S C M W : Type 0} (rt : Runtime S C M W) where
  -- SchemeBuilder: AddToGroupVersion, then the types that satellite_types.go registers.
  abbrev pub scheme_builder : List (S → Option Error × S)
  scheme_builder =
      (λ s. (none, rt.add_to_group_version "fleetcontrol.io" "v1alpha1" s))
      ∷ (λ s. (
        none,
        rt.add_known_types "fleetcontrol.io" "v1alpha1" ("Satellite" ∷ "SatelliteList" ∷ []) s,
      ))
      ∷ []

  -- init, with the rest of the program behind it; utilruntime.Must panics on an error.
  abbrev pub must : (S → Exit × S) → Option Error × S → Exit × S
  must next (none, s) = next s
  must next (some e, s) = (init_panic e, s)

  unfoldable pub init : (S → Exit × S) → S → Exit × S
  init next s = must (λ s. must next (rt.add_to_scheme scheme_builder s)) (rt.add_client_go s)

  unfoldable pub disable_http2 : TlsOption S
  disable_http2 c s = (record c { next_protos = "http/1.1" ∷ [] }, rt.info "Disabling HTTP/2" [] s)

  abbrev pub tls_opts : Flags → List (TlsOption S)
  tls_opts f = if not f.enable_http2 then disable_http2 ∷ [] else []

  unfoldable pub webhook_options : Flags → WebhookOptions S
  webhook_options f =
      if given f.webhook_cert_path
      then record {
        tls_opts = tls_opts f;
        cert_dir = f.webhook_cert_path;
        cert_name = f.webhook_cert_name;
        key_name = f.webhook_cert_key;
      }
      else record { tls_opts = tls_opts f; cert_dir = ""; cert_name = ""; key_name = "" }

  abbrev pub served_metrics : Flags → MetricsOptions S
  served_metrics f = record {
    bind_address = f.metrics_addr;
    secure_serving = f.secure_metrics;
    tls_opts = tls_opts f;
    filter_provider = if f.secure_metrics then some with_authentication_and_authorization else none;
    cert_dir = "";
    cert_name = "";
    key_name = "";
  }

  unfoldable pub metrics_options : Flags → MetricsOptions S
  metrics_options f =
      if given f.metrics_cert_path
      then record (served_metrics f) {
        cert_dir = f.metrics_cert_path;
        cert_name = f.metrics_cert_name;
        key_name = f.metrics_cert_key;
      }
      else served_metrics f

  unfoldable pub manager_options : Flags → ManagerOptions S W
  unfolding webhook_options metrics_options
  manager_options f = record {
    metrics = metrics_options f;
    webhook_server = rt.new_webhook_server (webhook_options f);
    health_probe_bind_address = f.probe_addr;
    leader_election = f.enable_leader_election;
    leader_election_id = "60429f8c.fleetcontrol.io";
  }

  -- The log entries of the two certificate watchers.
  abbrev pub log_watchers : Flags → S → S
  log_watchers f s =
      let webhook =
        if given f.webhook_cert_path
        then rt.info "Initializing webhook certificate watcher using provided certificates"
            (("webhook-cert-path", f.webhook_cert_path)
              ∷ ("webhook-cert-name", f.webhook_cert_name)
              ∷ ("webhook-cert-key", f.webhook_cert_key)
              ∷ [])
            s
        else s in
      if given f.metrics_cert_path
      then rt.info "Initializing metrics certificate watcher using provided certificates"
          (("metrics-cert-path", f.metrics_cert_path)
            ∷ ("metrics-cert-name", f.metrics_cert_name)
            ∷ ("metrics-cert-key", f.metrics_cert_key)
            ∷ [])
          webhook
      else webhook

  -- SetupWithManager of satellite_controller.go.
  unfoldable pub setup_with_manager : M → S → Option Error × S
  setup_with_manager m s = rt.complete_controller m "Satellite" "satellite" s

  -- One step of main: its error is logged, and the program exits.
  abbrev pub checked :
      String → List (String × String) → (S → Exit × S) → Option Error × S → Exit × S
  checked text values next (none, s) = next s
  checked text values next (some e, s) = (exited 1, rt.log_error e text values s)

  abbrev pub run_manager : M → S → Exit × S
  run_manager m s =
      checked "Failed to run manager" [] (λ s. (returned, s))
        (rt.start m (rt.info "Starting manager" [] s))

  abbrev pub add_ready : M → S → Exit × S
  add_ready m s =
      checked "Failed to set up ready check" [] (run_manager m) (rt.add_readyz_check m "readyz" s)

  abbrev pub add_health : M → S → Exit × S
  add_health m s =
      checked "Failed to set up health check" [] (add_ready m) (rt.add_healthz_check m "healthz" s)

  unfoldable pub run_with : M → S → Exit × S
  unfolding setup_with_manager
  run_with m s =
      checked "Failed to create controller" (("controller", "satellite") ∷ []) (add_health m)
        (setup_with_manager m s)

  abbrev pub created : Result M × S → Exit × S
  created (ok m, s) = run_with m s
  created (err e, s) = (exited 1, rt.log_error e "Failed to start manager" [] s)

  abbrev pub configured : Flags → Option C → S → Exit × S
  configured f none s = (exited 1, s)
  configured f (some c) s = created (rt.new_manager c (manager_options f) s)

  abbrev pub flagged : Parsing → S → Exit × S
  flagged (exits code) s = (exited code, s)
  flagged (parsed f) s = configured f rt.get_config (log_watchers f (rt.set_logger s))

  -- main, with the init that runs before it.
  unfoldable pub main : S → Exit × S
  unfolding init
  main s = init (λ s. flagged (rt.parse_flags default_flags) s) s
