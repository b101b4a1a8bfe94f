-- ===== src/Fleetctl/Commands/Flags.antt =====
-- The commands of fleetctl/cmd against the arguments and the flags that they declare.
use fleetcontrol.Common.{ℕ, String, true, ◌≡◌, ◌≢◌, refl, Option, some, List, [], ◌∷◌, arith}
use fleetcontrol.Fleetctl.Output.{Ending}
use fleetcontrol.Fleetctl.Secret.{PasswordReader}
use fleetcontrol.Fleetctl.Satellite
use fleetcontrol.Fleetctl.Satellite.{Env}
use fleetcontrol.Fleetctl.Commands.{
  Default, text, switch, Flag, Values, returned, out_of_range, RunE, with_first, bound_options,
  new_root_command,
}
use fleetcontrol.Fleetctl.Commands.Guard.{accepts, Has, All, All-Has, Property, tree-All}

-- Both give the flag the same value, of its kind.
abbrev pub AgreeAt : Default → String → Values → Values → Type 0
AgreeAt (text default) name v w = v.text_of name ≡ w.text_of name
AgreeAt (switch default) name v w = v.switch_of name ≡ w.switch_of name

abbrev pub AgreeOn : List Flag → Values → Values → Type 0
AgreeOn [] v w = Unit
AgreeOn (flag ∷ flags) v w = AgreeAt flag.default flag.name v w × AgreeOn flags v w

module _ {S : Type 0} (env : Env S) (passwords : PasswordReader S) where
  -- The RunE stays within its arguments and reads no flag but the given ones.
  abbrev Sticks : Property S
  Sticks n flags run =
      (v w : Values) (rest : List String) (s : S)
      → accepts n rest ≡ true
      → AgreeOn flags v w
      → ((run v rest s).0 ≢ out_of_range) × (run v rest s ≡ run w rest s)

  returned_in_range : (e : Ending) → returned e ≢ out_of_range
  returned_in_range e h = absurd (ground arith)

  with_first_in_range :
      (run : String → S → Ending × S) (rest : List String) (s : S)
      → accepts (some 1) rest ≡ true
      → (with_first run rest s).0 ≢ out_of_range
  with_first_in_range run [] s counted = absurd (ground arith)
  with_first_in_range run (arg ∷ rest) s counted = returned_in_range (run arg s).0

  tree-Sticks : All Sticks [] (new_root_command env passwords)
  tree-Sticks =
      tree-All env passwords Sticks
        (
          λ v w rest s _ (config, (server, (name, (from_stdin, _)))).
              (returned_in_range _, rw (config, server, name, from_stdin) refl),
          tt,
        )
        (λ v w rest s _ (config, (server, _)). (returned_in_range _, rw (config, server) refl), tt)
        (
          λ v w rest s _ (config, (server, (name, (region, _)))).
              (returned_in_range _, rw (config, server, name, region) refl),
          tt,
        )
        (
          λ v w rest s counted (config, (server, _)). (
            with_first_in_range (Satellite.get (bound_options env v)) rest s counted,
            rw (config, server) refl,
          ),
          tt,
        )
        (λ v w rest s _ (config, (server, _)). (returned_in_range _, rw (config, server) refl), tt)
        (
          λ v w rest s counted (config, (server, _)). (
            with_first_in_range (Satellite.delete (bound_options env v)) rest s counted,
            rw (config, server) refl,
          ),
          tt,
        )
        (
          λ v w rest s _ (config, (server, (name, (from_stdin, (role, _))))).
              (returned_in_range _, rw (config, server, name, from_stdin, role) refl),
          tt,
        )
        (λ v w rest s _ (config, (server, _)). (returned_in_range _, rw (config, server) refl), tt)

  -- A command in the tree of fleetctl that is called with as many arguments as it declares does
  -- not index past them, and depends on no value but those of the flags that it and the root
  -- declare, each read as the kind that it is declared with.
  pub run-Sticks :
      (n : Option ℕ) (flags : List Flag) (run : RunE S) (v w : Values) (rest : List String) (s : S)
      → Has [] n flags run (new_root_command env passwords)
      → accepts n rest ≡ true
      → AgreeOn flags v w
      → ((run v rest s).0 ≢ out_of_range) × (run v rest s ≡ run w rest s)
  run-Sticks n flags run v w rest s there counted agree =
      All-Has Sticks (new_root_command env passwords) [] tree-Sticks there v w rest s counted agree
