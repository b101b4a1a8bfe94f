-- ===== src/Logger.antt =====
-- api/pkg/logger/middleware.go: the state of the logged handler is the state behind it, and the log
-- entries so far, without their times.
use fleetcontrol.Common.{ℕ, String, List, ◌∷◌}
use fleetcontrol.Http.{Request, Outcome, responded, panicked, Handler}

pub record Entry : Type 0 where
  pub method : String
  pub path : String
  pub status : ℕ

abbrev pub Logged : Type 0 → Type 0
Logged S = S × List Entry

-- What follows `next.ServeHTTP`: a panic skips it.
abbrev pub after_serve : {S : Type 0} → Request → Outcome × Logged S → Outcome × Logged S
after_serve r (responded resp, (s, log)) =
    (responded resp, (s, record { method = r.method; path = r.path; status = resp.status } ∷ log))
after_serve r (panicked reason, logged) = (panicked reason, logged)

unfoldable pub request_logger : {S : Type 0} → Handler (Logged S) → Handler (Logged S)
request_logger next r logged = after_serve r (next r logged)
