-- ===== src/Fleetctl/Root/Login.antt =====
-- What newLoginCommand of fleetctl/cmd/root.go leaves behind.
use mathlib.Core.Path.{subst}
use fleetcontrol.Common.{
  String, Bool, false, ◌≡◌, sym, refl, ◌⊎◌, inl, inr, Option, none, some, [], ◌∷◌, Option-cases,
  Result-cases, Result, ok, err,
}
use fleetcontrol.Gen.Client.Responses.{PostAuthLoginResponse}
use fleetcontrol.Gen.Client.WithResponse
use fleetcontrol.Fleetctl.Output.{Failure, Ending, printed, failed}
use fleetcontrol.Fleetctl.Output
use fleetcontrol.Fleetctl.Runtime.{Config, load, save, client}
use fleetcontrol.Fleetctl.Secret.{PasswordReader, read}
use fleetcontrol.Fleetctl.Satellite.{Env, Session, received, status_of}
use fleetcontrol.Fleetctl.Root.{saved, keep_token, token_of, login_with, login}

abbrev pub Fails : {S : Type 0} → Ending × S → Type 0
Fails {S} result = (f : Failure) × (s : S) × (result ≡ (failed f, s))

module _ {S : Type 0} (env : Env S) where
  -- The token is saved in the configuration that is loaded in the state before, and success printed.
  abbrev pub Saves : String → S → Ending × S → Type 0
  Saves token s result =
      (cfg : Config) × (s' : S) × (load env.os env.options s ≡ ok cfg)
      × (save env.os env.options (record cfg { token = token }) s ≡ (ok tt, s'))
      × (result ≡ (printed (Output.line "Login successful"), s'))

  saved-Saves :
      (cfg : Config) (token : String) (s : S)
      → load env.os env.options s ≡ ok cfg
      → (r : Result (Unit {0}) × S) → save env.os env.options (record cfg { token = token }) s ≡ r
      → Fails (saved env r) ⊎ Saves token s (saved env r)
  saved-Saves cfg token s loaded (err e, s') h = inl (_, _, refl)
  saved-Saves cfg token s loaded (ok tt, s') h = inr (cfg, s', loaded, h, refl)

  -- How the part of the command from the state s on ends, with what the server answered.
  abbrev Ends : Option String → S → Ending × S → Type 0
  Ends o s result = Fails result ⊎ ((token : String) × (o ≡ some token) × Saves token s result)

  keep_token-Ends : (o : Option String) (s : S) → Ends o s (keep_token env o s)
  keep_token-Ends none s = inl (_, _, refl)
  keep_token-Ends (some token) s = elim (Result-cases (load env.os env.options s)) [
    | inr (e, bad) ↦ rw bad (inl (_, _, refl))
    | inl (cfg, loaded) ↦
        let r = save env.os env.options (record cfg { token = token }) s in
        let same : keep_token env (some token) s ≡ saved env r = rw loaded refl in
        subst (Ends (some token) s) (sym same) (elim (saved-Saves cfg token s loaded r refl) [
          | inl fails ↦ inl fails
          | inr saves ↦ inr (token, refl, saves)
        ])
  ]

  -- The POST was answered 200 with a token, which is saved.
  abbrev pub LogsIn : Result PostAuthLoginResponse × S → Ending × S → Type 0
  LogsIn (answer, s) result =
      (resp : PostAuthLoginResponse) × (token : String) × (answer ≡ ok resp)
      × (status_of env resp (200 ∷ []) ≡ none)
      × (token_of env resp.json.json_200 ≡ some token)
      × Saves token s result

  received-LogsIn :
      (posted : Result PostAuthLoginResponse × S)
      → let result =
          received env "login request"
            (200 ∷ [])
            (λ resp. keep_token env (token_of env resp.json.json_200))
            posted in
        Fails result ⊎ LogsIn posted result
  received-LogsIn (err e, s) = inl (_, _, refl)
  received-LogsIn (ok resp, s) = elim (Option-cases (status_of env resp (200 ∷ []))) [
    | inr (e, bad) ↦ rw bad (inl (_, _, refl))
    | inl fine ↦
        let result =
          received env "login request" (200 ∷ [])
            (λ r. keep_token env (token_of env r.json.json_200)) (ok resp, s) in
        let same : result ≡ keep_token env (token_of env resp.json.json_200) s = rw fine refl in
        subst (λ r. Fails r ⊎ LogsIn (ok resp, s) r) (sym same)
          (elim (keep_token-Ends (token_of env resp.json.json_200) s) [
            | inl fails ↦ inl fails
            | inr (token, given, saves) ↦ inr (resp, token, refl, fine, given, saves)
          ])
  ]

  -- The POST that the command sends, with the password that is read and a client without a token.
  abbrev pub post : Session env → String → String → S → Result PostAuthLoginResponse × S
  post session username password s =
      WithResponse.post_auth_login_with_response env.library session.0 []
        (record { password = password; username = username }) s

  abbrev pub KeepsToken : String → Result String × S → Ending × S → Type 0
  KeepsToken username (given, s) result =
      (password : String) × (session : Session env) × (given ≡ ok password)
      × (client env.os env.options false s ≡ ok session)
      × LogsIn (post session username password s) result

  login_with-KeepsToken :
      (username : String) (given : Result String × S)
      → Fails (login_with env username given)
        ⊎ KeepsToken username given (login_with env username given)
  login_with-KeepsToken username (err e, s) = inl (_, _, refl)
  login_with-KeepsToken username (ok password, s) =
      elim (Result-cases (client env.os env.options false s)) [
        | inr (e, bad) ↦ rw bad (inl (_, _, refl))
        | inl (session, made) ↦
            let posted = post session username password s in
            let result =
              received env "login request" (200 ∷ [])
                (λ r. keep_token env (token_of env r.json.json_200)) posted in
            let same : login_with env username (ok password, s) ≡ result = rw made refl in
            subst (λ r. Fails r ⊎ KeepsToken username (ok password, s) r) (sym same)
              (elim (received-LogsIn posted) [
                | inl fails ↦ inl fails
                | inr logged_in ↦ inr (password, session, refl, made, logged_in)
              ])
      ]

  -- The login command fails, or the password was read, the POST with it was answered 200 with a
  -- token, this token was saved with no error in the configuration that was loaded, and success is
  -- printed.
  pub login-KeepsToken :
      (passwords : PasswordReader S) (username : String) (from_stdin : Bool) (s : S)
      → let result = login env passwords username from_stdin s in
        Fails result ⊎ KeepsToken username (read passwords from_stdin s) result
  unfolding login
  login-KeepsToken passwords username from_stdin s =
      login_with-KeepsToken username (read passwords from_stdin s)
