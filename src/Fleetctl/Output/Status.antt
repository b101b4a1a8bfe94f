-- ===== src/Fleetctl/Output/Status.antt =====
-- Which responses StatusError of fleetctl/internal/output/output.go accepts.
use fleetcontrol.Common.{
  ℕ, String, ◌≡◌, refl, ◌≢◌, ◌⊎◌, inl, inr, true, false, Bool-cases, Option, none, some, List, ◌==◌,
  eq_iff, arith,
}
use fleetcontrol.Fleetctl.Output.{ApiError, Texts, expects, fallback, from_envelope, status_error}

fallback_message : (texts : Texts) (status : ℕ) → (fallback texts status).message ≢ ""
fallback_message texts status =
    ground (arith, eq_iff (texts.status_text status) "", eq_iff "unexpected response" "")

from_envelope_message :
    (texts : Texts) (status : ℕ) (o : Option (String × String))
    → ((from_envelope texts status o).status_code ≡ status)
      × ((from_envelope texts status o).message ≢ "")
from_envelope_message texts status none = (refl, fallback_message texts status)
from_envelope_message texts status (some (code, message)) = elim (Bool-cases (message == "")) [
  | inl empty ↦ rw empty (refl, fallback_message texts status)
  | inr full ↦ rw full (refl, ground (arith, eq_iff message ""))
]

-- StatusError accepts exactly the expected status codes; every other response becomes an error
-- that carries its status code and a message that is not empty.
pub status_error-Verdict :
    (texts : Texts) (status : ℕ) (body : String) (expected : List ℕ)
    → ((expects status expected ≡ true) × (status_error texts status body expected ≡ none))
      ⊎ ((expects status expected ≡ false)
          × ((e : ApiError) × (status_error texts status body expected ≡ some e)
              × (e.status_code ≡ status)
              × (e.message ≢ "")))
unfolding status_error
status_error-Verdict texts status body expected = elim (Bool-cases (expects status expected)) [
  | inl wanted ↦ inl (wanted, rw wanted)
  | inr other ↦
      let (same, full) = from_envelope_message texts status (texts.decode body) in
      inr (other, (from_envelope texts status (texts.decode body), rw other, same, full))
]
