-- ===== src/Fleetctl/User.antt =====
-- fleetctl/cmd/user/user.go: what the commands do after cobra has read the flags.
use fleetcontrol.Common.{
  String, Bool, true, not, ◌&&◌, some, [], ◌∷◌, ◌==◌, if◌then◌else◌, new, Result, ok, err,
}
use fleetcontrol.Gen.Client.WithResponse
use fleetcontrol.Fleetctl.Output.{Ending, printed}
use fleetcontrol.Fleetctl.Output
use fleetcontrol.Fleetctl.Secret.{PasswordReader, read}
use fleetcontrol.Fleetctl.Satellite.{Env, Session, with_client, received, fails, print_json}

module _ {S : Type 0} (env : Env S) (passwords : PasswordReader S) where
  abbrev pub create_with : String → String → Session env → Result String × S → Ending × S
  create_with username role session (err e, s) = fails env e s
  create_with username role session (ok password, s) =
      received env "create user" (201 ∷ [])
        (λ resp s'. print_json env (Output.user resp.json.json_201) s')
        (WithResponse.post_users_with_response env.library session.0 session.1
          (record { password = password; role = some role; username = username }) s)

  -- newCreateCommand; `from_stdin` is the flag --password-stdin.
  unfoldable pub create : String → String → Bool → S → Ending × S
  unfolding WithResponse.post_users_with_response read
  create username role from_stdin s =
      if not (role == "admin") && not (role == "viewer")
      then fails env (new "role must be admin or viewer") s
      else with_client env true
          (λ session s'. create_with username role session (read passwords from_stdin s')) s

-- newListCommand
unfoldable pub list : {S : Type 0} → Env S → S → Ending × S
unfolding WithResponse.get_users_with_response
list env = with_client env true (λ session s.
    received env "list users" (200 ∷ [])
      (λ resp s'. print_json env (Output.users resp.json.json_200) s')
      (WithResponse.get_users_with_response env.library session.0 session.1 s))
