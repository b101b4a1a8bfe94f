-- ===== src/Fleetctl/Satellite/Guard.antt =====
-- When the delete command of fleetctl/cmd/satellite/satellite.go sends a DELETE.
use fleetcontrol.Common.{
  String, ◌≡◌, refl, ap, ◌∙◌, ◌⊎◌, inl, inr, true, false, none, [], ◌∷◌, Bool-cases, Result-cases,
  Option-cases, new, context, Result, ok, err,
}
use fleetcontrol.Auth.Principal.{Uuid}
use fleetcontrol.Gen.Client.Responses.{GetSatellitesIdResponse}
use fleetcontrol.Gen.Client.WithResponse
use fleetcontrol.Fleetctl.Output.{Ending, failed, Failure, plain}
use fleetcontrol.Fleetctl.Runtime.{client}
use fleetcontrol.Fleetctl.Satellite.{
  Env, Session, is_managed, delete_in, delete_open, delete_checked, delete, received, status_of,
}

module _ {S : Type 0} (env : Env S) (arg : String) (s : S) where
  -- What the GET of the command returns, in the state that it leaves.
  abbrev pub Checked : Uuid → Session env → Result GetSatellitesIdResponse → S → Type 0
  Checked id session result s' =
      (env.parse_uuid arg ≡ ok id)
      × (client env.os env.options true s ≡ ok session)
      × (WithResponse.get_satellites_id_with_response env.library session.0 session.1 id s
          ≡ (result, s'))

  -- The command fails before it sends the DELETE: it has sent nothing, or the GET alone.
  abbrev pub Stops : Ending × S → Type 0
  Stops result =
      (f : Failure) × ((result ≡ (failed f, s))
        ⊎ ((id : Uuid) × (session : Session env) × (result ≡ (
          failed f,
          (WithResponse.get_satellites_id_with_response env.library session.0 session.1 id s).1,
        ))))

  -- The command sends the DELETE, after a GET that was answered 200 with a Satellite that is not the
  -- operator's, or with none.
  abbrev pub Deletes : Ending × S → Type 0
  Deletes result =
      (id : Uuid) × (session : Session env) × (resp : GetSatellitesIdResponse) × (s' : S) × Checked
        id session (ok resp) s'
      × (status_of env resp (200 ∷ []) ≡ none)
      × (is_managed env resp.json.json_200 ≡ false)
      × (result ≡ delete_open env id session s')

module _ {S : Type 0} (env : Env S) where
  -- The same of the part after the GET, whose result is `result`.
  abbrev AfterGet : Uuid → Session env → Result GetSatellitesIdResponse × S → Ending × S → Type 0
  AfterGet id session (result, s') ending =
      ((f : Failure) × (ending ≡ (failed f, s')))
      ⊎ ((resp : GetSatellitesIdResponse) × (result ≡ ok resp)
          × (status_of env resp (200 ∷ []) ≡ none)
          × (is_managed env resp.json.json_200 ≡ false)
          × (ending ≡ delete_open env id session s'))

  after_get :
      (id : Uuid) (session : Session env) (got : Result GetSatellitesIdResponse × S)
      → AfterGet id session got
          (received env "check satellite ownership" (200 ∷ []) (delete_checked env id session) got)
  after_get id session (err e, s') = inl (plain (context "check satellite ownership" e), refl)
  after_get id session (ok resp, s') = elim (Option-cases (status_of env resp (200 ∷ []))) [
    | inr (e, bad) ↦ inl (Failure.api e, rw bad)
    | inl fine ↦ elim (Bool-cases (is_managed env resp.json.json_200)) [
      | inl managed ↦ inl (
        plain (new "satellite is managed by the Operator; update its CR in Git instead"),
        rw (fine, managed),
      )
      | inr free ↦ inr (resp, refl, fine, free, rw (fine, free))
    ]
  ]

  -- The delete command of fleetctl fails after nothing or the GET alone was sent, or sends the
  -- DELETE after a GET that was accepted and whose Satellite is not reported as the Operator's.
  pub delete-Verdict :
      (arg : String) (s : S)
      → Stops env arg s (delete env arg s) ⊎ Deletes env arg s (delete env arg s)
  unfolding delete
  delete-Verdict arg s = elim (Result-cases (env.parse_uuid arg)) [
    | inr (e, bad) ↦ inl (plain (context "invalid satellite ID" e), inl (rw bad))
    | inl (id, parsed) ↦ elim (Result-cases (client env.os env.options true s)) [
      | inr (e, none_made) ↦ inl (plain e, inl (rw (parsed, none_made)))
      | inl (session, made) ↦
          let got =
            WithResponse.get_satellites_id_with_response env.library session.0 session.1 id s in
          let same : delete env arg s ≡ delete_in env id session s = rw (parsed, made) in
          elim (after_get id session got) [
            | inl (f, stopped) ↦ inl (f, inr (id, session, same ∙ stopped))
            | inr (resp, answer, fine, free, deletes) ↦ inr (
              id,
              session,
              resp,
              got.1,
              (parsed, made, ap (λ r. (r, got.1)) answer),
              fine,
              free,
              same ∙ deletes,
            )
          ]
    ]
  ]
