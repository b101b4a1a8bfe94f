-- ===== src/Fleetctl/Secret.antt =====
-- fleetctl/internal/secret/password.go. The terminal and the two streams are parameters: each call
-- gives its result and the state after it.
pub mod Passwords
use Prim.Native.Char.{code}
use fleetcontrol.Common.{
  ℕ, String, Bool, true, false, ◌&&◌, ◌||◌, Option, none, some, ◌==◌, eqb, if◌then◌else◌, Error,
  new, context, Result, ok, err, Action,
}

-- The input is a file descriptor or is not (`none`); `is_terminal` and `read_terminal` are the two
-- functions of a PasswordReader, which may be nil; `read_line` is ReadString('\n'), with io.EOF as
-- no error, and `print` writes to the output.
pub record PasswordReader (S : Type 0) : Type 0 where
  pub descriptor : Option ℕ
  pub is_terminal : Option (ℕ → Bool)
  pub read_terminal : Option (ℕ → Action S String)
  pub read_line : Action S String
  pub print : String → S → Option Error × S

-- NewPasswordReader: `is_terminal` and `read_password` are the functions of the package term, and the
-- streams are those of the command.
abbrev pub new_password_reader :
    {S : Type 0}
    → (ℕ → Bool)
    → (ℕ → Action S String)
    → Option ℕ
    → Action S String
    → (String → S → Option Error × S)
    → PasswordReader S
new_password_reader is_terminal read_password descriptor read_line print = record {
  descriptor = descriptor;
  is_terminal = some is_terminal;
  read_terminal = some read_password;
  read_line = read_line;
  print = print;
}

-- strings.TrimRight(_, "\r\n")
abbrev pub trim_line_end : String → String
trim_line_end String.[] = String.[]
trim_line_end (String.◌∷◌ c s) =
    let rest = trim_line_end s in
    if (eqb (code c) 13 || eqb (code c) 10) && rest == "" then String.[] else String.◌∷◌ c rest

-- validate
abbrev pub validate : String → Result String
validate password = if password == "" then err (new "password must not be empty") else ok password

abbrev pub from_line : {S : Type 0} → Result String × S → Result String × S
from_line (err e, s) = (err (context "read password from stdin" e), s)
from_line (ok password, s) = (validate (trim_line_end password), s)

-- What follows the read of the terminal: the line feed is written whether or not the read failed.
abbrev pub finished : {S : Type 0} → Result String → Option Error × S → Result String × S
finished (ok password) (some e, s) = (err (context "finish password prompt" e), s)
finished (ok password) (none, s) = (validate password, s)
finished (err e) (_, s) = (err (context "read password" e), s)

module _ {S : Type 0} (r : PasswordReader S) where
  abbrev pub read_prompted : Result String × S → Result String × S
  read_prompted (password, s) = finished password (r.print "\n" s)

  abbrev pub prompted : (S → Result String × S) → Option Error × S → Result String × S
  prompted read (some e, s) = (err (context "write password prompt" e), s)
  prompted read (none, s) = read_prompted (read s)

  abbrev pub at_terminal : ℕ → Option (ℕ → Action S String) → Action S String
  at_terminal fd none s = (err (new "terminal password reader is unavailable"), s)
  at_terminal fd (some read) s = prompted (read fd) (r.print "Password: " s)

  abbrev pub checked_terminal : Bool → ℕ → Action S String
  checked_terminal false fd s =
      (err (new "password input is not a terminal; use --password-stdin"), s)
  checked_terminal true fd s = at_terminal fd r.read_terminal s

  abbrev pub on_descriptor : Option ℕ → Option (ℕ → Bool) → Action S String
  on_descriptor (some fd) (some is_terminal) s = checked_terminal (is_terminal fd) fd s
  on_descriptor none _ s = checked_terminal false 0 s
  on_descriptor (some fd) none s = checked_terminal false fd s

  -- PasswordReader.Read
  unfoldable pub read : Bool → Action S String
  read from_stdin s =
      if from_stdin then from_line (r.read_line s) else on_descriptor r.descriptor r.is_terminal s
