-- ===== src/Fleetctl/Commands/LoggedOut.antt =====
-- fleetctl/cmd/root.go on a machine whose configuration holds no token.
use fleetcontrol.Common.{
  String, Bool, true, ◌≡◌, refl, inl, inr, not, ◌&&◌, Option, some, List, [], ◌∷◌, ◌==◌, arith,
  Error, ok, Result-cases, Bool-cases,
}
use fleetcontrol.Fleetctl.Output.{Failure, Ending, failed}
use fleetcontrol.Fleetctl.Runtime.{Config, load, client}
use fleetcontrol.Fleetctl.Secret.{PasswordReader}
use fleetcontrol.Fleetctl.Satellite
use fleetcontrol.Fleetctl.Satellite.{Env, Session, with_client}
use fleetcontrol.Fleetctl.User
use fleetcontrol.Fleetctl.Commands.{
  root_flags, Flag, Values, Done, done, with_first, run_login, run_health, bound_options,
  new_root_command, own, called, Cobra, Exit, exit_1, exit_of, execute,
}
use fleetcontrol.Fleetctl.Commands.Guard.{tree-All, Property, accepts, All, All-Has, Dispatches}

-- Load gives no token with these options.
abbrev pub HasNoToken : {S : Type 0} → Env S → S → Type 0
HasNoToken env s = (cfg : Config) → load env.os env.options s ≡ ok cfg → cfg.token ≡ ""

-- The command fails and leaves the state as it is.
abbrev RefusedIn : {S : Type 0} → S → Ending × S → Type 0
RefusedIn s result = (f : Failure) × (result ≡ (failed f, s))

abbrev pub exit_with : {S : Type 0} → Done × S → Exit × S
exit_with (d, s) = (exit_of (called d), s)

module _ {S : Type 0} (env : Env S) (s : S) (no_token : HasNoToken env s) where
  abbrev Refused : Ending × S → Type 0
  Refused = RefusedIn s

  with_client-Refused :
      (command : Session env → S → Ending × S) → Refused (with_client env true command s)
  unfolding client
  with_client-Refused command = elim (Result-cases (load env.os env.options s)) [
    | inr (e, bad) ↦ rw bad (_, refl)
    | inl (cfg, loaded) ↦ rw (loaded, no_token cfg loaded) (_, refl)
  ]

  get-Refused : (arg : String) → Refused (Satellite.get env arg s)
  unfolding Satellite.get
  get-Refused arg = elim (Result-cases (env.parse_uuid arg)) [
    | inr (e, bad) ↦ rw bad (_, refl)
    | inl (id, parsed) ↦ rw parsed (with_client-Refused _)
  ]

  delete-Refused : (arg : String) → Refused (Satellite.delete env arg s)
  unfolding Satellite.delete
  delete-Refused arg = elim (Result-cases (env.parse_uuid arg)) [
    | inr (e, bad) ↦ rw bad (_, refl)
    | inl (id, parsed) ↦ rw parsed (with_client-Refused _)
  ]

  create-Refused : (name region : String) → Refused (Satellite.create env name region s)
  unfolding Satellite.create
  create-Refused name region = with_client-Refused _

  list-Refused : Refused (Satellite.list env s)
  unfolding Satellite.list
  list-Refused = with_client-Refused _

  create_user-Refused :
      (passwords : PasswordReader S) (username role : String) (from_stdin : Bool)
      → Refused (User.create env passwords username role from_stdin s)
  unfolding User.create
  create_user-Refused passwords username role from_stdin =
      elim (Bool-cases (not (role == "admin") && not (role == "viewer"))) [
        | inl unknown ↦ rw unknown (_, refl)
        | inr known ↦ rw known (with_client-Refused _)
      ]

  list_users-Refused : Refused (User.list env s)
  unfolding User.list
  list_users-Refused = with_client-Refused _

-- What a command line does: cobra answers it, a command refuses it, or it is a login or a check of
-- the health.
pub data Outcome {S : Type 0} (env : Env S) (passwords : PasswordReader S) (s : S)
    (result : Exit × S) : Type 0 where
  answered : (e : Option Error) → result ≡ (exit_of (own e), s) → Outcome env passwords s result
  refused : (f : Failure) → result ≡ (exit_1 f, s) → Outcome env passwords s result
  logs_in :
      (v : Values) (rest : List String)
      → result ≡ exit_with (run_login (bound_options env) passwords v rest s)
      → Outcome env passwords s result
  checks_health :
      (v : Values) (rest : List String)
      → result ≡ exit_with (run_health (bound_options env) v rest s)
      → Outcome env passwords s result

module _ {S : Type 0} (env : Env S) (passwords : PasswordReader S) (s : S)
    (no_token : (v : Values) → HasNoToken (bound_options env v) s) where
  abbrev Tame : Property S
  Tame n flags run =
      (v : Values) (rest : List String)
      → accepts n rest ≡ true
      → Outcome env passwords s (exit_with (run v rest s))

  done-Tame :
      {result : Ending × S} → RefusedIn s result → Outcome env passwords s (exit_with (done result))
  done-Tame (f, e) = rw e (refused f refl)

  first-Tame :
      (run : Values → String → S → Ending × S)
      → ((v : Values) (arg : String) → RefusedIn s (run v arg s))
      → (flags : List Flag) → Tame (some 1) flags (λ v. with_first (run v))
  first-Tame run refuses flags v [] counted = absurd (ground arith)
  first-Tame run refuses flags v (arg ∷ rest) counted = done-Tame (refuses v arg)

  tree-Tame : All Tame [] (new_root_command env passwords)
  tree-Tame =
      tree-All env passwords Tame (λ v rest counted. logs_in v rest refl, tt)
        (λ v rest counted. checks_health v rest refl, tt)
        (
          λ v rest counted. done-Tame (
              create-Refused (bound_options env v) s (no_token v) (v.text_of "name")
                (v.text_of "region")),
          tt,
        )
        (
          first-Tame _ (λ v arg. get-Refused (bound_options env v) s (no_token v) arg) root_flags,
          tt,
        )
        (λ v rest counted. done-Tame (list-Refused (bound_options env v) s (no_token v)), tt)
        (
          first-Tame _ (λ v arg. delete-Refused (bound_options env v) s (no_token v) arg)
              root_flags,
          tt,
        )
        (
          λ v rest counted. done-Tame (
              create_user-Refused (bound_options env v) s (no_token v) passwords
                (v.text_of "username") (v.text_of "role") (v.switch_of "password-stdin")),
          tt,
        )
        (λ v rest counted. done-Tame (list_users-Refused (bound_options env v) s (no_token v)), tt)

  -- If cobra changes nothing but through the RunE of one command of the tree, which it calls with
  -- as many arguments as are declared, and the configuration holds no token whatever the flags
  -- are, every command line is answered by cobra, or refused with status 1, and leaves the state
  -- as it is, or is a run of login or health.
  pub execute-LoggedOut :
      (cobra : Cobra S) (args : List String)
      → Dispatches cobra
      → Outcome env passwords s (execute cobra env passwords args s)
  unfolding execute
  execute-LoggedOut cobra args dispatches =
      elim (dispatches (new_root_command env passwords) args s) [
        | inl (e, own_answer) ↦ answered e (rw own_answer refl)
        | inr (n, flags, run, v, rest, there, counted, ran) ↦
            rw ran (All-Has Tame (new_root_command env passwords) [] tree-Tame there v rest counted)
      ]
