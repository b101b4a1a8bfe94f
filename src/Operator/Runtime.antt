-- ===== src/Operator/Runtime.antt =====
-- What operator/cmd/main.go uses of controller-runtime, of the flag package and of the log.
use fleetcontrol.Common.{ℕ, String, Bool, Option, List, Error, Result}

-- The variables of main that flags set.
pub record Flags : Type 0 where
  pub metrics_addr : String
  pub metrics_cert_path : String
  pub metrics_cert_name : String
  pub metrics_cert_key : String
  pub webhook_cert_path : String
  pub webhook_cert_name : String
  pub webhook_cert_key : String
  pub enable_leader_election : Bool
  pub probe_addr : String
  pub secure_metrics : Bool
  pub enable_http2 : Bool

-- Of tls.Config, the protocols it offers.
pub record TlsConfig : Type 0 where
  pub next_protos : List String

-- func(*tls.Config), which also writes to the log.
abbrev pub TlsOption : Type 0 → Type 0
TlsOption S = TlsConfig → S → TlsConfig × S

-- webhook.Options.
pub record WebhookOptions (S : Type 0) : Type 0 where
  pub tls_opts : List (TlsOption S)
  pub cert_dir : String
  pub cert_name : String
  pub key_name : String

-- filters.WithAuthenticationAndAuthorization, the one filter that main names.
pub data FilterProvider : Type 0 where
  with_authentication_and_authorization : FilterProvider

-- metricsserver.Options; a nil FilterProvider is `none`.
pub record MetricsOptions (S : Type 0) : Type 0 where
  pub bind_address : String
  pub secure_serving : Bool
  pub tls_opts : List (TlsOption S)
  pub filter_provider : Option FilterProvider
  pub cert_dir : String
  pub cert_name : String
  pub key_name : String

-- ctrl.Options over a type of webhook servers.
pub record ManagerOptions (S W : Type 0) : Type 0 where
  pub metrics : MetricsOptions S
  pub webhook_server : W
  pub health_probe_bind_address : String
  pub leader_election : Bool
  pub leader_election_id : String

-- What flag.Parse does: it sets the variables, or exits with a code.
pub data Parsing : Type 0 where
  parsed : Flags → Parsing
  exits : ℕ → Parsing

pub data Exit : Type 0 where
  init_panic : Error → Exit
  exited : ℕ → Exit
  returned : Exit

-- The packages: C is a rest.Config, M a manager and W a webhook server. GetConfigOrDie without a
-- configuration is `none`.
pub record Runtime (S C M W : Type 0) : Type 0 where
  pub info : String → List (String × String) → S → S
  pub log_error : Error → String → List (String × String) → S → S
  pub set_logger : S → S
  pub add_client_go : S → Option Error × S
  pub add_to_group_version : String → String → S → S
  pub add_known_types : String → String → List String → S → S
  pub add_to_scheme : List (S → Option Error × S) → S → Option Error × S
  pub parse_flags : Flags → Parsing
  pub new_webhook_server : WebhookOptions S → W
  pub get_config : Option C
  pub new_manager : C → ManagerOptions S W → S → Result M × S
  pub complete_controller : M → String → String → S → Option Error × S
  pub add_healthz_check : M → String → S → Option Error × S
  pub add_readyz_check : M → String → S → Option Error × S
  pub start : M → S → Option Error × S
