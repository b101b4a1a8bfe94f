-- ===== src/Fleetctl/Secret/Passwords.antt =====
-- Which passwords fleetctl/internal/secret/password.go lets through.
use fleetcontrol.Common.{
  ℕ, ◌≡◌, refl, ◌≢◌, String, Bool, true, false, Option, none, some, ◌==◌, Bool-cases, inl, inr,
  eq_iff, arith, Error, Result, ok, err, Action,
}
use fleetcontrol.Fleetctl.Secret.{
  PasswordReader, validate, trim_line_end, from_line, finished, prompted, checked_terminal,
  on_descriptor, read,
}

-- A password that is not empty, or an error.
abbrev pub IsUsable : Result String → Type 0
IsUsable (ok password) = password ≢ ""
IsUsable (err e) = Unit

validate-IsUsable : (password : String) → IsUsable (validate password)
validate-IsUsable password = elim (Bool-cases (password == "")) [
  | inl empty ↦ rw empty tt
  | inr full ↦ rw full (λ e. ground (arith, eq_iff password ""))
]

module _ {S : Type 0} (r : PasswordReader S) where
  from_line-IsUsable : (got : Result String × S) → IsUsable (from_line got).0
  from_line-IsUsable (err e, s) = tt
  from_line-IsUsable (ok password, s) = validate-IsUsable (trim_line_end password)

  finished-IsUsable :
      (password : Result String) (p : Option Error × S) → IsUsable (finished password p).0
  finished-IsUsable (ok password) (some e, s) = tt
  finished-IsUsable (ok password) (none, s) = validate-IsUsable password
  finished-IsUsable (err e) (_, s) = tt

  prompted-IsUsable :
      (terminal : S → Result String × S) (p : Option Error × S) → IsUsable (prompted r terminal p).0
  prompted-IsUsable terminal (some e, s) = tt
  prompted-IsUsable terminal (none, s) =
      finished-IsUsable (terminal s).0 (r.print "\n" (terminal s).1)

  checked_terminal-IsUsable :
      (b : Bool) (fd : ℕ) (terminal : Option (ℕ → Action S String)) (s : S)
      → r.read_terminal ≡ terminal
      → IsUsable (checked_terminal r b fd s).0
  checked_terminal-IsUsable false fd terminal s same = tt
  checked_terminal-IsUsable true fd none s same = rw same tt
  checked_terminal-IsUsable true fd (some terminal) s same =
      rw same (prompted-IsUsable (terminal fd) (r.print "Password: " s))

  on_descriptor-IsUsable :
      (d : Option ℕ) (t : Option (ℕ → Bool)) (s : S) → IsUsable (on_descriptor r d t s).0
  on_descriptor-IsUsable (some fd) (some is_terminal) s =
      checked_terminal-IsUsable (is_terminal fd) fd r.read_terminal s refl
  on_descriptor-IsUsable none t s = tt
  on_descriptor-IsUsable (some fd) none s = tt

  -- PasswordReader.Read returns an error or a password that is not empty, from the standard input
  -- and from the terminal.
  pub read-IsUsable : (from_stdin : Bool) (s : S) → IsUsable (read r from_stdin s).0
  unfolding read
  read-IsUsable true s = from_line-IsUsable (r.read_line s)
  read-IsUsable false s = on_descriptor-IsUsable r.descriptor r.is_terminal s
