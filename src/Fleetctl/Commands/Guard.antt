-- ===== src/Fleetctl/Commands/Guard.antt =====
-- The commands in the tree of fleetctl/cmd/root.go, and what is assumed of cobra.
use mathlib.Core.Path.{subst}
use fleetcontrol.Common.{
  ℕ, suc, String, Bool, true, ◌≡◌, ◌⊎◌, inl, inr, Option, none, some, List, [], ◌∷◌, ◌++◌, eqb,
  Error,
}
use fleetcontrol.Fleetctl.Secret.{PasswordReader}
use fleetcontrol.Fleetctl.Satellite.{Env}
use fleetcontrol.Fleetctl.Commands.{
  Flag, Values, RunE, Command, command, Commands, no_commands, and_command, Shared, root_flags,
  satellite_create, satellite_get, satellite_list, satellite_delete, user_create, user_list,
  satellite_command, user_command, login_command, health_command, bound_options, new_root_command,
  own, called, Cobra,
}

abbrev pub length : {A : Type 0} → List A → ℕ
length [] = 0
length (x ∷ xs) = suc (length xs)

-- What cobra checks with Args: a nil Args of a command below the root takes any arguments.
abbrev pub accepts : Option ℕ → List String → Bool
accepts none args = true
accepts (some n) args = eqb (length args) n

-- The tree has a command with this count of arguments, these flags, its own and those that it
-- inherits, and this RunE.
abbrev mutual
  pub Has : {S : Type 0} → List Flag → Option ℕ → List Flag → RunE S → Command S → Type 0
  Has inherited n flags run (command spec children) =
      ((spec.args ≡ n)
        × (inherited ++ spec.persistent_flags ++ spec.flags ≡ flags)
        × (spec.run ≡ some run))
      ⊎ HasIn (inherited ++ spec.persistent_flags) n flags run children

  pub HasIn : {S : Type 0} → List Flag → Option ℕ → List Flag → RunE S → Commands S → Type 0
  HasIn inherited n flags run no_commands = ⊥
  HasIn inherited n flags run (and_command c cs) =
      Has inherited n flags run c ⊎ HasIn inherited n flags run cs

-- A property of a command with its count of arguments and its flags.
abbrev pub Property : Type 0 → Type 1
Property S = Option ℕ → List Flag → RunE S → Type 0

abbrev pub AllOf : {S : Type 0} → Property S → Option ℕ → List Flag → Option (RunE S) → Type 0
AllOf P n flags none = Unit
AllOf P n flags (some run) = P n flags run

-- Every command of the tree has the property.
abbrev mutual
  pub All : {S : Type 0} → Property S → List Flag → Command S → Type 0
  All P inherited (command spec children) =
      AllOf P spec.args (inherited ++ spec.persistent_flags ++ spec.flags) spec.run
      × AllIn P (inherited ++ spec.persistent_flags) children

  pub AllIn : {S : Type 0} → Property S → List Flag → Commands S → Type 0
  AllIn P inherited no_commands = Unit
  AllIn P inherited (and_command c cs) = All P inherited c × AllIn P inherited cs

mutual
  pub All-Has :
      {S : Type 0} (P : Property S) (c : Command S) (inherited : List Flag) {flags : List Flag}
      {n : Option ℕ} {run : RunE S}
      → All P inherited c
      → Has inherited n flags run c
      → P n flags run
  All-Has P (command spec children) inherited {flags} {n} {run} (here, below) (inl (e, g, f)) =
      subst (λ m. P m flags run) e
        (subst (λ l. P spec.args l run) g
          (subst (AllOf P spec.args (inherited ++ spec.persistent_flags ++ spec.flags)) f here))
  All-Has P (command spec children) inherited (here, below) (inr h) =
      AllIn-HasIn P children (inherited ++ spec.persistent_flags) below h

  AllIn-HasIn :
      {S : Type 0} (P : Property S) (cs : Commands S) (inherited : List Flag) {flags : List Flag}
      {n : Option ℕ} {run : RunE S}
      → AllIn P inherited cs
      → HasIn inherited n flags run cs
      → P n flags run
  AllIn-HasIn P no_commands inherited all h = absurd h
  AllIn-HasIn P (and_command c cs) inherited (first, rest) (inl h) = All-Has P c inherited first h
  AllIn-HasIn P (and_command c cs) inherited (first, rest) (inr h) =
      AllIn-HasIn P cs inherited rest h

-- Documented behaviour of cobra: a run changes nothing but through one RunE of the tree, which it
-- calls only with as many arguments as its command declares.
abbrev pub Dispatches : {S : Type 0} → Cobra S → Type 0
Dispatches {S} cobra =
    (c : Command S) (args : List String) (s : S)
    → ((e : Option Error) × (cobra c args s ≡ (own e, s)))
      ⊎ ((n : Option ℕ) × (flags : List Flag) × (run : RunE S) × (v : Values) × (rest : List String)
          × Has [] n flags run c
          × (accepts n rest ≡ true)
          × (cobra c args s ≡ (called (run v rest s).0, (run v rest s).1)))

-- The tree of the program has what its eight commands have.
module _ {S : Type 0} (env : Env S) (passwords : PasswordReader S) (P : Property S) where
  abbrev pub Of : Command S → Type 0
  Of c = All P root_flags c

  abbrev shared : Shared S
  shared = bound_options env

  pub tree-All :
      Of (login_command shared passwords)
      → Of (health_command shared)
      → Of (satellite_create shared)
      → Of (satellite_get shared)
      → Of (satellite_list shared)
      → Of (satellite_delete shared)
      → Of (user_create shared passwords)
      → Of (user_list shared passwords)
      → All P [] (new_root_command env passwords)
  tree-All login health create get list delete new_user users =
      let satellites : Of (satellite_command shared) =
        (tt, (create, (get, (list, (delete, tt))))) in
      let all_users : Of (user_command shared passwords) = (tt, (new_user, (users, tt))) in
      (tt, (login, (health, (satellites, (all_users, tt)))))
