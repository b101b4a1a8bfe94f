-- ===== src/Health.antt =====
-- api/internal/health/handler.go; `ping` is what pool.Ping returns within its two seconds, `none`
-- being the nil error.
use fleetcontrol.Common.{Option, none, some, [], ◌∷◌, Error}
use fleetcontrol.Http.{Handler, Payload, write_json}

module _ {S : Type 0} where
  unfoldable pub health : Option Error → Handler S
  health (some e) r s =
      (write_json 503 (Payload.fields (("status", "error") ∷ ("db", "disconnected") ∷ [])), s)
  health none r s =
      (write_json 200 (Payload.fields (("status", "ok") ∷ ("db", "connected") ∷ [])), s)

  unfoldable pub version : Handler S
  version r s = (write_json 200 (Payload.fields (("version", "v0.1.0") ∷ [])), s)
