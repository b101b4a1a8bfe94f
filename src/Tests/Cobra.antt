-- ===== src/Tests/Cobra.antt =====
-- A cobra that follows the names of a command line down the tree, and gives every flag one value.
use fleetcontrol.Common.{
  ℕ, ◌≡◌, refl, ◌⊎◌, inl, inr, String, Bool, true, false, Bool-cases, Option, none, some, List, [],
  Error, ◌∷◌, ◌++◌, ◌==◌, if◌then◌else◌,
}
use fleetcontrol.Fleetctl.Commands.{
  Flag, Values, RunE, Spec, Command, command, Commands, no_commands, and_command, Ran, own, called,
  Cobra,
}
use fleetcontrol.Fleetctl.Commands.Guard.{accepts, Has, HasIn, Dispatches}

abbrev pub values : Values
values = record {
  text_of = λ name. if name == "username" then "alice" else "";
  switch_of = λ name. true;
}

module _ {S : Type 0} where
  abbrev Reached : List Flag → Command S → Type 0
  Reached inherited c =
      (n : Option ℕ) × (flags : List Flag) × (run : RunE S) × (rest : List String) × Has inherited n
        flags run c
      × (accepts n rest ≡ true)

  abbrev ReachedIn : List Flag → Commands S → Type 0
  ReachedIn inherited cs =
      (n : Option ℕ) × (flags : List Flag) × (run : RunE S) × (rest : List String) × HasIn inherited
        n flags run cs
      × (accepts n rest ≡ true)

  module _ (inherited : List Flag) where
    abbrev at_run :
        (spec : Spec S) (cs : Commands S) (rest : List String) (o : Option (RunE S))
        → spec.run ≡ o
        → Option (Reached inherited (command spec cs))
    at_run spec cs rest none e = none
    at_run spec cs rest (some run) e = elim (Bool-cases (accepts spec.args rest)) [
      | inl counted ↦ some (
        spec.args,
        inherited ++ spec.persistent_flags ++ spec.flags,
        run,
        rest,
        inl (refl, refl, e),
        counted,
      )
      | inr refused ↦ none
    ]

    abbrev below :
        (spec : Spec S) (cs : Commands S)
        → Option (Reached inherited (command spec cs))
        → Option (ReachedIn (inherited ++ spec.persistent_flags) cs)
        → Option (Reached inherited (command spec cs))
    below spec cs here none = here
    below spec cs here (some (n, flags, run, rest, there, counted)) =
        some (n, flags, run, rest, inr there, counted)

    abbrev first_of :
        (c : Command S) (cs : Commands S)
        → Bool
        → Option (Reached inherited c)
        → Option (ReachedIn inherited cs)
        → Option (ReachedIn inherited (and_command c cs))
    first_of c cs true none others = none
    first_of c cs true (some (n, flags, run, rest, there, counted)) others =
        some (n, flags, run, rest, inl there, counted)
    first_of c cs false o none = none
    first_of c cs false o (some (n, flags, run, rest, there, counted)) =
        some (n, flags, run, rest, inr there, counted)

  abbrev name_of : Command S → String
  name_of (command spec cs) = spec.name

  abbrev mutual
    reach : (c : Command S) (inherited : List Flag) → List String → Option (Reached inherited c)
    reach (command spec cs) inherited args =
        below inherited spec cs (at_run inherited spec cs args spec.run refl)
          (reach_in cs (inherited ++ spec.persistent_flags) args)

    reach_in :
        (cs : Commands S) (inherited : List Flag) → List String → Option (ReachedIn inherited cs)
    reach_in no_commands inherited args = none
    reach_in (and_command c cs) inherited [] = none
    reach_in (and_command c cs) inherited (name ∷ args) =
        first_of inherited c cs (name_of c == name) (reach c inherited args)
          (reach_in cs inherited (name ∷ args))

  abbrev ran : (c : Command S) → Option (Reached [] c) → S → Ran × S
  ran c none s = (own none, s)
  ran c (some (n, flags, run, rest, there, counted)) s =
      (called (run values rest s).0, (run values rest s).1)

  abbrev pub walker : Cobra S
  walker c args s = ran c (reach c [] args) s

  ran-Dispatches :
      (c : Command S) (o : Option (Reached [] c)) (s : S)
      → ((e : Option Error) × (ran c o s ≡ (own e, s)))
        ⊎ ((n : Option ℕ) × (flags : List Flag) × (run : RunE S) × (v : Values) × (rest : List
              String)
            × Has [] n flags run c
            × (accepts n rest ≡ true)
            × (ran c o s ≡ (called (run v rest s).0, (run v rest s).1)))
  ran-Dispatches c none s = inl (none, refl)
  ran-Dispatches c (some (n, flags, run, rest, there, counted)) s =
      inr (n, flags, run, values, rest, there, counted, refl)

  pub walker-Dispatches : Dispatches walker
  walker-Dispatches c args s = ran-Dispatches c (reach c [] args) s
