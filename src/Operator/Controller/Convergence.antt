-- ===== src/Operator/Controller/Convergence.antt =====
-- What a reconciliation of operator/internal/controller/satellite_controller.go reaches.
use fleetcontrol.Common.{
  ◌≡◌, refl, sym, ◌∙◌, ap, ◌⊎◌, inl, inr, true, false, Option, none, some, Bool-cases, ◌==◌, eq_iff,
  Error, Result, Result-cases, ok, err,
}
use fleetcontrol.Operator.Types.{Satellite, SatelliteStatus}
use fleetcontrol.Operator.Controller.{NamespacedName, Client, ready, mark_ready, updated, reconcile}

abbrev pub HasKey : NamespacedName → Satellite → Type 0
HasKey req sat = (sat.metadata.namespace ≡ req.namespace) × (sat.metadata.name ≡ req.name)

-- The client reads from the cache of the manager. `synced s t` says that t is a state after s in
-- which the cache has caught up with s, and that nobody else has written in between: Get returns
-- objects under the key that it is asked for, and after an accepted Update of the status and the
-- catching up, an object with that status under the key of the updated one.
pub record CatchesUp {S : Type 0} (client : Client S) (synced : S → S → Type 0) : Type 0 where
  pub keyed :
      (req : NamespacedName) (sat : Satellite) (s : S) → client.get req s ≡ ok sat → HasKey req sat
  pub reads_back :
      (req : NamespacedName) (new : Satellite) (s s' t : S)
      → HasKey req new
      → client.update_status new s ≡ (none, s')
      → synced s' t
      → (sat : Satellite) × (client.get req t ≡ ok sat) × (sat.status ≡ new.status)

module _ {S : Type 0} (client : Client S) (req : NamespacedName) where
  -- The custom resource is gone, or it is Ready.
  abbrev pub IsSettled : S → Type 0
  IsSettled s =
      ((e : Error) × (client.get req s ≡ err e) × (client.is_not_found e ≡ true))
      ⊎ ((sat : Satellite) × (client.get req s ≡ ok sat) × (sat.status.phase ≡ ready))

  -- A reconciliation of a settled resource succeeds and writes nothing.
  reconcile_settled : (s : S) → IsSettled s → reconcile client req s ≡ (ok tt, s)
  unfolding reconcile
  reconcile_settled s (inl (e, gone, missing)) = rw (gone, missing)
  reconcile_settled s (inr (sat, there, is_ready)) = rw (there, is_ready)

  -- The object that was found, marked Ready by one accepted Update.
  abbrev pub Marks : S → S → Type 0
  Marks s s' =
      (sat : Satellite) × (client.get req s ≡ ok sat)
      × (client.update_status (mark_ready sat) s ≡ (none, s'))

  -- The error of the Get, or of the Update.
  abbrev pub Fails : S → Error → S → Type 0
  Fails s e s' =
      ((client.get req s ≡ err e) × (client.is_not_found e ≡ false) × (s' ≡ s))
      ⊎ ((sat : Satellite) × (client.get req s ≡ ok sat)
          × (client.update_status (mark_ready sat) s ≡ (some e, s')))

  abbrev pub Verdict : S → Result (Unit {0}) × S → Type 0
  Verdict s result =
      (IsSettled s × (result ≡ (ok tt, s)))
      ⊎ (((s' : S) × Marks s s' × (result ≡ (ok tt, s')))
          ⊎ ((e : Error) × (s' : S) × Fails s e s' × (result ≡ (err e, s'))))

  updated-cases :
      (result : Option Error × S)
      → ((s' : S) × (result ≡ (none, s')) × (updated result ≡ (ok tt, s')))
        ⊎ ((e : Error) × (s' : S) × (result ≡ (some e, s')) × (updated result ≡ (err e, s')))
  updated-cases (none, s) = inl (s, refl, refl)
  updated-cases (some e, s) = inr (e, s, refl, refl)

  -- A reconciliation leaves a settled resource alone, or marks one Ready in one Update, or returns
  -- the error of the Get or of the Update.
  reconcile-Verdict : (s : S) → Verdict s (reconcile client req s)
  unfolding reconcile
  reconcile-Verdict s = elim (Result-cases (client.get req s)) [
    | inr (e, failed) ↦ elim (Bool-cases (client.is_not_found e)) [
      | inl missing ↦ inl (inl (e, failed, missing), rw (failed, missing))
      | inr other ↦ inr (inr (e, s, inl (failed, other, refl), rw (failed, other)))
    ]
    | inl (sat, there) ↦ elim (Bool-cases (sat.status.phase == ready)) [
      | inl is_ready ↦
          inl (inr (sat, there, (eq_iff sat.status.phase ready).0 is_ready), rw (there, is_ready))
      | inr pending ↦ elim (updated-cases (client.update_status (mark_ready sat) s)) [
        | inl (s', accepted, e) ↦ inr (inl (s', (sat, there, accepted), rw (there, pending) e))
        | inr (e, s', refused, eq) ↦
            inr (inr (e, s', inr (sat, there, refused), rw (there, pending) eq))
      ]
    ]
  ]

  -- If the client of the manager returns objects under the key that it is asked for, and an
  -- accepted status under the key of the updated object once its cache has caught up and nobody
  -- else has written, a reconciliation that returns no error has found the resource gone or Ready
  -- and changed nothing, or the resource is Ready once the cache has caught up, and one more
  -- reconciliation then succeeds and writes nothing.
  pub reconcile_converges :
      (synced : S → S → Type 0) (s s' t : S)
      → CatchesUp client synced
      → reconcile client req s ≡ (ok tt, s')
      → synced s' t
      → (IsSettled s × (s' ≡ s)) ⊎ (IsSettled t × (reconcile client req t ≡ (ok tt, t)))
  reconcile_converges synced s s' t law succeeds caught_up = reached (reconcile-Verdict s)
    where
      reached :
          Verdict s (reconcile client req s)
          → (IsSettled s × (s' ≡ s)) ⊎ (IsSettled t × (reconcile client req t ≡ (ok tt, t)))
      reached (inl (settled, r)) = inl (settled, ap (λ x. x.1) (sym succeeds ∙ r))
      reached (inr (inl (u, (sat, there, accepted), r))) =
          let moved : s' ≡ u = ap (λ x. x.1) (sym succeeds ∙ r) in
          let read =
            law.reads_back req (mark_ready sat) s u t (law.keyed req sat s there) accepted
              (rw moved at caught_up) in
          let settled : IsSettled t =
            inr (read.0, read.1, ap (λ (x : SatelliteStatus). x.phase) read.2) in
          inr (settled, reconcile_settled t settled)
      reached (inr (inr (failure, u, _, r))) =
          let clash : ◌≡◌ {A = Result (Unit {0}) × S} (ok tt, s') (err failure, u) =
            sym succeeds ∙ r in
          cc
