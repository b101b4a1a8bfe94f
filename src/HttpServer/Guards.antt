-- ===== src/HttpServer/Guards.antt =====
-- What a handler keeps of the state, it keeps behind the middlewares of its route.
use fleetcontrol.Common.{inl, inr}
use fleetcontrol.Auth.Principal.{Principal}
use fleetcontrol.Auth.Middleware.{with_principal}
use fleetcontrol.Http.{Request, Handler}
use fleetcontrol.HttpServer.Router
use fleetcontrol.HttpServer.Router.{Endpoint, Parts, unguarded, route, with_token, with_admin}
use fleetcontrol.HttpServer.Access.{with_token-verdict, with_admin-verdict}

-- The handler keeps P, for requests with Q.
abbrev pub Keeps : {S : Type 0} → (Request → Type 0) → (S → Type 0) → Handler S → Type 0
Keeps {S} Q P h = (r : Request) (s : S) → Q r → P s → P (h r s).1

module _ {S : Type 0} (parts : Parts S) (Q : Request → Type 0) (P : S → Type 0)
    (stable : (r : Request) (who : Principal) → Q r → Q (with_principal r who)) where
  token-Keeps : (h : Handler S) → Keeps Q P h → Keeps Q P (with_token parts h)
  token-Keeps h keeps r s q kept = elim (with_token-verdict parts h r s) [
    | inl (inl refused) ↦ rw refused kept
    | inl (inr refused) ↦ rw refused kept
    | inr (who, _, runs) ↦ rw runs (keeps (with_principal r who) s (stable r who q) kept)
  ]

  admin-Keeps : (h : Handler S) → Keeps Q P h → Keeps Q P (with_admin parts h)
  admin-Keeps h keeps r s q kept = elim (with_admin-verdict parts h r s) [
    | inl (inl refused) ↦ rw refused kept
    | inl (inr refused) ↦ rw refused kept
    | inr (inl stopped) ↦ rw stopped kept
    | inr (inr (who, _, _, runs)) ↦ rw runs (keeps (with_principal r who) s (stable r who q) kept)
  ]

  pub route-Keeps : (e : Endpoint) → Keeps Q P (unguarded parts e) → Keeps Q P (route parts e)
  unfolding route
  route-Keeps Router.post_auth_login keeps = keeps
  route-Keeps Router.get_health keeps = keeps
  route-Keeps Router.get_version keeps = keeps
  route-Keeps Router.get_openapi keeps = keeps
  route-Keeps Router.get_docs keeps = keeps
  route-Keeps Router.post_satellites keeps =
      token-Keeps (unguarded parts Router.post_satellites) keeps
  route-Keeps Router.get_satellites keeps =
      token-Keeps (unguarded parts Router.get_satellites) keeps
  route-Keeps Router.get_satellites_id keeps =
      token-Keeps (unguarded parts Router.get_satellites_id) keeps
  route-Keeps Router.patch_satellites_id keeps =
      token-Keeps (unguarded parts Router.patch_satellites_id) keeps
  route-Keeps Router.delete_satellites_id keeps =
      token-Keeps (unguarded parts Router.delete_satellites_id) keeps
  route-Keeps Router.post_satellites_id_heartbeat keeps =
      token-Keeps (unguarded parts Router.post_satellites_id_heartbeat) keeps
  route-Keeps Router.post_users keeps = admin-Keeps (unguarded parts Router.post_users) keeps
  route-Keeps Router.get_users keeps = admin-Keeps (unguarded parts Router.get_users) keeps
  route-Keeps Router.delete_users_id keeps =
      admin-Keeps (unguarded parts Router.delete_users_id) keeps
