-- ===== src/Tests/Commands.antt =====
-- The theorems on command lines, with a cobra that follows names down the tree.
use fleetcontrol.Common.{
  ◌≡◌, ◌≢◌, refl, ◌⊎◌, inl, inr, String, true, false, Bool-cases, none, [], ◌∷◌, ◌==◌, ap, Result,
  ok, err, sym,
}
use fleetcontrol.Gen.Client.{new_client_with_responses}
use fleetcontrol.Gen.Client.WithResponse
use fleetcontrol.Fleetctl.Output.{line, printed, status_error}
use fleetcontrol.Fleetctl.Secret.{read}
use fleetcontrol.Fleetctl.Root.{login}
use fleetcontrol.Fleetctl.Root.Login.{Fails, KeepsToken, login-KeepsToken}
use fleetcontrol.Fleetctl.Runtime.{Config, load, save, client}
use fleetcontrol.Fleetctl.Commands.{
  Values, out_of_range, text_flag, password_stdin_flag, bound_options, run_login, execute,
}
use fleetcontrol.Fleetctl.Commands.Flags.{run-Sticks}
use fleetcontrol.Fleetctl.Commands.LoggedOut.{HasNoToken, Outcome, execute-LoggedOut}
use fleetcontrol.Tests.Cobra.{values, walker, walker-Dispatches}
use fleetcontrol.Tests.Fleetctl.{env, reader}

-- Values that agree on the flags of login, and on no other.
abbrev other_values : Values
other_values = record values { switch_of = λ name. name == "password-stdin" }

run-Sticks_example :
    ((run_login (bound_options env) reader values [] "").0 ≢ out_of_range)
    × (run_login (bound_options env) reader values [] ""
        ≡ run_login (bound_options env) reader other_values [] "")
run-Sticks_example =
    run-Sticks env reader none
      (text_flag "config" false
        ∷ text_flag "server" false
        ∷ text_flag "username" true
        ∷ password_stdin_flag
        ∷ [])
      (run_login (bound_options env) reader) values other_values [] ""
      (inr (inl (inl (refl, refl, refl)))) refl (refl, (refl, (refl, (refl, tt))))

abbrev token_in : Result Config → String
token_in (ok cfg) = cfg.token
token_in (err e) = ""

-- The empty file holds no token, whatever the flags are.
empty-HasNoToken : (v : Values) → HasNoToken (bound_options env v) ""
unfolding load
empty-HasNoToken v cfg loaded =
    let kept = ap token_in loaded in
    elim (Bool-cases (v.text_of "config" == "")) [
      | inl c ↦ elim (Bool-cases (v.text_of "server" == "")) [
        | inl d ↦ sym (rw (c, d) at kept)
        | inr d ↦ sym (rw (c, d) at kept)
      ]
      | inr c ↦ elim (Bool-cases (v.text_of "server" == "")) [
        | inl d ↦ sym (rw (c, d) at kept)
        | inr d ↦ sym (rw (c, d) at kept)
      ]
    ]

execute-LoggedOut_example :
    Outcome env reader "" (execute walker env reader ("satellite" ∷ "delete" ∷ "2" ∷ []) "")
execute-LoggedOut_example =
    execute-LoggedOut env reader "" empty-HasNoToken walker ("satellite" ∷ "delete" ∷ "2" ∷ [])
      walker-Dispatches

login-KeepsToken_example :
    Fails (login env reader "alice" true "")
    ⊎ KeepsToken env "alice" (read reader true "") (login env reader "alice" true "")
login-KeepsToken_example = login-KeepsToken env reader "alice" true ""

-- The run of the example succeeds, and the file has the token of the response.
logged_in : login env reader "alice" true "" ≡ (
  printed (line "Login successful"),
  "server: \"http://localhost:8080\"\ntoken: \"alice-token\"\n",
)
unfolding login read load save new_client_with_responses WithResponse.post_auth_login_with_response
    status_error client
logged_in = refl
