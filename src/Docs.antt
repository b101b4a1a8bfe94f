-- ===== src/Docs.antt =====
-- api/internal/docs/handler.go; `spec` is the embedded file of api/openapi/spec.go, and `page` the
-- constant swaggerUIHTML.
use fleetcontrol.Common.{String}
use fleetcontrol.Http.{Handler, Payload, responded}

module _ {S : Type 0} where
  unfoldable pub serve_spec : String → Handler S
  serve_spec spec r s = (
    responded
        (record { status = 200; content_type = "application/yaml"; payload = Payload.text spec }),
    s,
  )

  unfoldable pub serve_ui : String → Handler S
  serve_ui page r s = (
    responded (record {
      status = 200;
      content_type = "text/html; charset=utf-8";
      payload = Payload.text page;
    }),
    s,
  )
