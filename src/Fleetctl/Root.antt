-- ===== src/Fleetctl/Root.antt =====
-- fleetctl/cmd/root.go: the commands login and health.
pub mod Login
use fleetcontrol.Common.{
  String, Bool, false, Option, none, some, [], ◌∷◌, new, context, Result, ok, err,
}
use fleetcontrol.Gen.Models.{LoginResponse}
use fleetcontrol.Gen.Client.WithResponse
use fleetcontrol.Fleetctl.Output.{Ending, printed}
use fleetcontrol.Fleetctl.Output
use fleetcontrol.Fleetctl.Runtime.{Config, load, save}
use fleetcontrol.Fleetctl.Secret.{PasswordReader, read}
use fleetcontrol.Fleetctl.Satellite.{Env, with_client, received, fails, print_json}

module _ {S : Type 0} (env : Env S) where
  abbrev pub saved : Result (Unit {0}) × S → Ending × S
  saved (err e, s) = fails env (context "save config" e) s
  saved (ok _, s) = (printed (Output.line "Login successful"), s)

  abbrev pub save_token : String → Result Config → S → Ending × S
  save_token token (err e) s = fails env e s
  save_token token (ok cfg) s = saved (save env.os env.options (record cfg { token = token }) s)

  abbrev pub keep_token : Option String → S → Ending × S
  keep_token none s = fails env (new "login response did not contain a token") s
  keep_token (some token) s = save_token token (load env.os env.options s) s

  abbrev pub token_of : Option LoginResponse → Option String
  token_of none = none
  token_of (some r) = r.token

  abbrev pub login_with : String → Result String × S → Ending × S
  login_with username (err e, s) = fails env e s
  login_with username (ok password, s) =
      with_client env false
        (λ session s'.
          received env "login request" (200 ∷ []) (λ resp. keep_token (token_of resp.json.json_200))
            (WithResponse.post_auth_login_with_response env.library session.0 []
              (record { password = password; username = username }) s'))
        s

  -- newLoginCommand; `from_stdin` is the flag --password-stdin.
  unfoldable pub login : PasswordReader S → String → Bool → S → Ending × S
  unfolding WithResponse.post_auth_login_with_response read load save
  login passwords username from_stdin s = login_with username (read passwords from_stdin s)

  -- newHealthCommand
  unfoldable pub health : S → Ending × S
  unfolding WithResponse.get_health_with_response
  health = with_client env false (λ session s.
      received env "health request" (200 ∷ [])
        (λ resp s'. print_json env (Output.health resp.json.json_200) s')
        (WithResponse.get_health_with_response env.library session.0 session.1 s))
