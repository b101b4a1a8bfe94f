-- ===== src/Operator/Manager/Options.antt =====
-- What operator/cmd/main.go makes of its flags.
use fleetcontrol.Common.{
  ◌≡◌, refl, ◌⊎◌, inl, inr, String, true, false, Bool-cases, none, some, List, [], ◌∷◌,
}
use fleetcontrol.Operator.Runtime.{
  Flags, TlsConfig, TlsOption, WebhookOptions, MetricsOptions, ManagerOptions, Runtime,
  with_authentication_and_authorization,
}
use fleetcontrol.Operator.Manager.{
  given, tls_opts, disable_http2, webhook_options, served_metrics, metrics_options, manager_options,
}

-- A server applies its TLS options to its configuration one after the other.
abbrev pub apply_all : {S : Type 0} → List (TlsOption S) → TlsConfig → S → TlsConfig × S
apply_all [] c s = (c, s)
apply_all (opt ∷ opts) c s = let (c', s') = opt c s in apply_all opts c' s'

module _ {S C M W : Type 0} (rt : Runtime S C M W) where
  abbrev pub OffersHttp1 : List (TlsOption S) → TlsConfig → S → Type 0
  OffersHttp1 opts c s = (apply_all opts c s).0.next_protos ≡ "http/1.1" ∷ []

  -- The certificate files are those of the flags, or none are set.
  abbrev pub Certified : String → String → String → String → String → String → Type 0
  Certified path name key dir cert key' =
      ((given path ≡ true) × (dir ≡ path) × (cert ≡ name) × (key' ≡ key))
      ⊎ ((given path ≡ false) × (dir ≡ "") × (cert ≡ "") × (key' ≡ ""))

  -- The metrics are served by HTTPS behind authentication and authorization, or by HTTP to
  -- everybody.
  abbrev pub Guarded : Flags → MetricsOptions S → Type 0
  Guarded f m =
      ((f.secure_metrics ≡ true)
        × (m.secure_serving ≡ true)
        × (m.filter_provider ≡ some with_authentication_and_authorization))
      ⊎ ((f.secure_metrics ≡ false) × (m.secure_serving ≡ false) × (m.filter_provider ≡ none))

  abbrev pub HardenedWebhook : Flags → TlsConfig → S → WebhookOptions S → Type 0
  HardenedWebhook f c s wo =
      OffersHttp1 wo.tls_opts c s
      × Certified f.webhook_cert_path f.webhook_cert_name f.webhook_cert_key wo.cert_dir
          wo.cert_name wo.key_name

  abbrev pub HardenedMetrics : Flags → TlsConfig → S → MetricsOptions S → Type 0
  HardenedMetrics f c s m =
      OffersHttp1 m.tls_opts c s
      × Guarded f m
      × Certified f.metrics_cert_path f.metrics_cert_name f.metrics_cert_key m.cert_dir m.cert_name
          m.key_name

  abbrev pub Hardened : Flags → TlsConfig → S → ManagerOptions S W → Type 0
  Hardened f c s o =
      ((wo : WebhookOptions S) × (o.webhook_server ≡ rt.new_webhook_server wo)
        × HardenedWebhook f c s wo)
      × HardenedMetrics f c s o.metrics

  served-Guarded : (f : Flags) → Guarded f (served_metrics rt f)
  served-Guarded f = elim (Bool-cases f.secure_metrics) [
    | inl set ↦ rw set (inl (refl, refl, refl))
    | inr unset ↦ rw unset (inr (refl, refl, refl))
  ]

  tls_opts-OffersHttp1 :
      (f : Flags) (c : TlsConfig) (s : S) → f.enable_http2 ≡ false → OffersHttp1 (tls_opts rt f) c s
  unfolding disable_http2
  tls_opts-OffersHttp1 f c s off = rw off refl

  webhook_options-Hardened :
      (f : Flags) (c : TlsConfig) (s : S)
      → f.enable_http2 ≡ false
      → HardenedWebhook f c s (webhook_options rt f)
  unfolding webhook_options
  webhook_options-Hardened f c s off = elim (Bool-cases (given f.webhook_cert_path)) [
    | inl set ↦ rw set (tls_opts-OffersHttp1 f c s off, inl (refl, refl, refl, refl))
    | inr unset ↦ rw unset (tls_opts-OffersHttp1 f c s off, inr (refl, refl, refl, refl))
  ]

  metrics_options-Hardened :
      (f : Flags) (c : TlsConfig) (s : S)
      → f.enable_http2 ≡ false
      → HardenedMetrics f c s (metrics_options rt f)
  unfolding metrics_options
  metrics_options-Hardened f c s off = elim (Bool-cases (given f.metrics_cert_path)) [
    | inl set ↦
        rw set (tls_opts-OffersHttp1 f c s off, served-Guarded f, inl (refl, refl, refl, refl))
    | inr unset ↦
        rw unset (tls_opts-OffersHttp1 f c s off, served-Guarded f, inr (refl, refl, refl, refl))
  ]

  -- Without the flag enable-http2, the TLS options of the webhook server and of the metrics server
  -- make any TLS configuration offer HTTP/1.1 alone; the metrics are served by HTTPS behind
  -- authentication and authorization exactly with the flag metrics-secure, and the certificate
  -- files of both are those of the flags or unset.
  pub manager_options-Hardened :
      (f : Flags) (c : TlsConfig) (s : S)
      → f.enable_http2 ≡ false
      → Hardened f c s (manager_options rt f)
  unfolding manager_options
  manager_options-Hardened f c s off = (
    (webhook_options rt f, refl, webhook_options-Hardened f c s off),
    metrics_options-Hardened f c s off,
  )
