-- ===== src/Fleetctl/Commands.antt =====
-- The tree of commands: NewRootCommand, Execute, newLoginCommand and newHealthCommand of
-- fleetctl/cmd/root.go, and NewCommand and the constructors that it calls in
-- fleetctl/cmd/satellite/satellite.go and fleetctl/cmd/user/user.go, with the flags, the argument
-- counts and the required flags that they declare. The help texts are left out. Cobra is a parameter:
-- it reads the command line against a tree, and answers itself or calls the RunE of one command.
pub mod Guard
pub mod Flags
pub mod LoggedOut
use fleetcontrol.Common.{ℕ, String, Bool, true, false, Option, none, some, List, [], ◌∷◌, Error}
use fleetcontrol.Fleetctl.Output.{Failure, plain, Ending, printed, failed}
use fleetcontrol.Fleetctl.Runtime.{Options}
use fleetcontrol.Fleetctl.Secret.{PasswordReader}
use fleetcontrol.Fleetctl.Satellite
use fleetcontrol.Fleetctl.Satellite.{Env}
use fleetcontrol.Fleetctl.User
use fleetcontrol.Fleetctl.Root

-- StringVar and BoolVar with their defaults; `required` is MarkFlagRequired.
pub data Default : Type 0 where
  text : String → Default
  switch : Bool → Default

pub record Flag : Type 0 where
  pub name : String
  pub default : Default
  pub required : Bool

-- What the variables that the flags are bound to hold when a command runs.
pub record Values : Type 0 where
  pub text_of : String → String
  pub switch_of : String → Bool

-- How a RunE ends: it returns, or panics on an index that is out of range.
pub data Done : Type 0 where
  returned : Ending → Done
  out_of_range : Done

abbrev pub RunE : Type 0 → Type 0
RunE S = Values → List String → S → Done × S

-- `args` is the n of cobra.ExactArgs(n).
pub record Spec (S : Type 0) : Type 0 where
  pub name : String
  pub persistent_flags : List Flag
  pub flags : List Flag
  pub args : Option ℕ
  pub run : Option (RunE S)

mutual
  pub data Command (S : Type 0) : Type 0 where
    command : Spec S → Commands S → Command S

  pub data Commands (S : Type 0) : Type 0 where
    no_commands : Commands S
    and_command : Command S → Commands S → Commands S

abbrev pub text_flag : String → Bool → Flag
text_flag name required = record { name = name; default = text ""; required = required }

abbrev pub password_stdin_flag : Flag
password_stdin_flag = record { name = "password-stdin"; default = switch false; required = false }

abbrev pub done : {S : Type 0} → Ending × S → Done × S
done (ending, s) = (returned ending, s)

-- `args[0]`
abbrev pub with_first : {S : Type 0} → (String → S → Ending × S) → List String → S → Done × S
with_first run [] s = (out_of_range, s)
with_first run (arg ∷ args) s = done (run arg s)

module _ {S : Type 0} where
  abbrev leaf : String → List Flag → Option ℕ → RunE S → Command S
  leaf name flags args run =
      command
        (record { name = name; persistent_flags = []; flags = flags; args = args; run = some run })
        no_commands

  abbrev group : String → List Flag → Commands S → Command S
  group name flags children =
      command
        (record { name = name; persistent_flags = flags; flags = []; args = none; run = none })
        children

-- What the commands stand on, with the shared `opts` as it is when a command runs.
abbrev pub Shared : Type 0 → Type 0
Shared S = Values → Env S

module _ {S : Type 0} (shared : Shared S) where
  -- newCreateCommand of satellite.go
  abbrev pub satellite_create : Command S
  satellite_create =
      leaf "create" (text_flag "name" true ∷ text_flag "region" true ∷ []) none
        (λ v args s. done (Satellite.create (shared v) (v.text_of "name") (v.text_of "region") s))

  -- newGetCommand
  abbrev pub satellite_get : Command S
  satellite_get = leaf "get" [] (some 1) (λ v. with_first (Satellite.get (shared v)))

  -- newListCommand of satellite.go
  abbrev pub satellite_list : Command S
  satellite_list = leaf "list" [] none (λ v args s. done (Satellite.list (shared v) s))

  -- newDeleteCommand
  abbrev pub satellite_delete : Command S
  satellite_delete = leaf "delete" [] (some 1) (λ v. with_first (Satellite.delete (shared v)))

  -- NewCommand of satellite.go
  abbrev pub satellite_command : Command S
  satellite_command = group "satellite" [] (
      and_command satellite_create (
        and_command satellite_get
          (and_command satellite_list (and_command satellite_delete no_commands))))

  module _ (passwords : PasswordReader S) where
    -- newCreateCommand of user.go
    abbrev pub user_create : Command S
    user_create =
        leaf "create"
          (text_flag "username" true
            ∷ password_stdin_flag
            ∷ record { name = "role"; default = text "viewer"; required = false }
            ∷ [])
          none
          (λ v args s. done (
            User.create (shared v) passwords (v.text_of "username") (v.text_of "role")
              (v.switch_of "password-stdin") s))

    -- newListCommand of user.go
    abbrev pub user_list : Command S
    user_list = leaf "list" [] none (λ v args s. done (User.list (shared v) s))

    -- NewCommand of user.go
    abbrev pub user_command : Command S
    user_command = group "user" [] (and_command user_create (and_command user_list no_commands))

    abbrev pub run_login : RunE S
    run_login v args s =
        done
          (Root.login (shared v) passwords (v.text_of "username") (v.switch_of "password-stdin") s)

    -- newLoginCommand
    abbrev pub login_command : Command S
    login_command =
        leaf "login" (text_flag "username" true ∷ password_stdin_flag ∷ []) none run_login

  abbrev pub run_health : RunE S
  run_health v args s = done (Root.health (shared v) s)

  -- newHealthCommand
  abbrev pub health_command : Command S
  health_command = leaf "health" [] none run_health

-- `&runtime.Options{}` with the persistent flags bound to it.
abbrev pub bound_options : {S : Type 0} → Env S → Shared S
bound_options env v = record env {
  options = record {
    config_path = v.text_of "config";
    server = v.text_of "server";
    http_client = none;
  };
}

-- --config and --server
abbrev pub root_flags : List Flag
root_flags = text_flag "config" false ∷ text_flag "server" false ∷ []

-- newRootCommand; the options of `env` are not read.
abbrev pub new_root_command : {S : Type 0} → Env S → PasswordReader S → Command S
new_root_command env passwords =
    let shared = bound_options env in
    group "fleetctl" root_flags (
      and_command (login_command shared passwords) (
        and_command (health_command shared) (
          and_command (satellite_command shared)
            (and_command (user_command shared passwords) no_commands))))

-- Cobra's Execute: its own answer, with or without an error, or what a RunE has done.
pub data Ran : Type 0 where
  own : Option Error → Ran
  called : Done → Ran

abbrev pub Cobra : Type 0 → Type 0
Cobra S = Command S → List String → S → Ran × S

-- How the process ends: status 0, status 1 with an error on the standard error, or the panic.
pub data Exit : Type 0 where
  exit_0 : Exit
  exit_1 : Failure → Exit
  crashed : Exit

abbrev pub exit_of : Ran → Exit
exit_of (own none) = exit_0
exit_of (own (some e)) = exit_1 (plain e)
exit_of (called (returned (printed p))) = exit_0
exit_of (called (returned (failed f))) = exit_1 f
exit_of (called out_of_range) = crashed

-- Execute, on the arguments of the process.
unfoldable pub execute :
    {S : Type 0} → Cobra S → Env S → PasswordReader S → List String → S → Exit × S
unfolding Satellite.create Satellite.get Satellite.list Satellite.delete User.create User.list
    Root.login Root.health
execute cobra env passwords args s =
    let (ran, s') = cobra (new_root_command env passwords) args s in (exit_of ran, s')
