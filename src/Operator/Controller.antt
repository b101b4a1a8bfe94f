-- ===== src/Operator/Controller.antt =====
-- operator/internal/controller/satellite_controller.go, over any Kubernetes API.
pub mod Convergence
use fleetcontrol.Common.{
  String, Bool, not, Option, none, some, ◌==◌, if◌then◌else◌, Error, Result, ok, err, Action, pure,
  fail,
}
use fleetcontrol.Operator.Types.{Satellite}

pub record NamespacedName : Type 0 where
  pub namespace : String
  pub name : String

-- controller-runtime's client over the state S of the cluster: Get, which reads only, the Update of
-- the status subresource, where `none` is the nil error, and apierrors.IsNotFound.
pub record Client (S : Type 0) : Type 0 where
  pub get : NamespacedName → S → Result Satellite
  pub update_status : Satellite → S → Option Error × S
  pub is_not_found : Error → Bool

abbrev pub ready : String
ready = "Ready"

-- The two assignments under the condition of Reconcile.
abbrev pub mark_ready : Satellite → Satellite
mark_ready sat = record sat {
  status = record sat.status { phase = ready; managed_by = "operator" };
}

abbrev pub updated : {S : Type 0} → Option Error × S → Result (Unit {0}) × S
updated (none, s) = (ok tt, s)
updated (some e, s) = (err e, s)

module _ {S : Type 0} (client : Client S) where
  abbrev pub reconcile_found : Satellite → Action S (Unit {0})
  reconcile_found sat s =
      if not (sat.status.phase == ready)
      then updated (client.update_status (mark_ready sat) s)
      else (ok tt, s)

  abbrev pub reconcile_got : Result Satellite → Action S (Unit {0})
  reconcile_got (err e) s = if client.is_not_found e then (ok tt, s) else (err e, s)
  reconcile_got (ok sat) s = reconcile_found sat s

  -- Reconcile; every return has the empty ctrl.Result, so only the error is kept.
  unfoldable pub reconcile : NamespacedName → Action S (Unit {0})
  reconcile req s = reconcile_got (client.get req s) s
