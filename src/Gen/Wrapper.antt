-- ===== src/Gen/Wrapper.antt =====
-- api/gen/server.gen.go: the methods of ServerInterfaceWrapper.
use fleetcontrol.Http.{Handler, Wire}
use fleetcontrol.Gen.Server.{ServerInterfaceWrapper, wrap_id, wrap_scoped, wrap_public}

module _ {S : Type 0} (wire : Wire) (siw : ServerInterfaceWrapper S) where
  unfoldable pub post_auth_login : Handler S
  post_auth_login = wrap_public siw siw.handler.post_auth_login

  unfoldable pub get_health : Handler S
  get_health = wrap_public siw siw.handler.get_health

  unfoldable pub get_satellites : Handler S
  get_satellites = wrap_scoped siw siw.handler.get_satellites

  unfoldable pub post_satellites : Handler S
  post_satellites = wrap_scoped siw siw.handler.post_satellites

  unfoldable pub delete_satellites_id : Handler S
  delete_satellites_id = wrap_id wire siw siw.handler.delete_satellites_id

  unfoldable pub get_satellites_id : Handler S
  get_satellites_id = wrap_id wire siw siw.handler.get_satellites_id

  unfoldable pub patch_satellites_id : Handler S
  patch_satellites_id = wrap_id wire siw siw.handler.patch_satellites_id

  unfoldable pub post_satellites_id_heartbeat : Handler S
  post_satellites_id_heartbeat = wrap_id wire siw siw.handler.post_satellites_id_heartbeat

  unfoldable pub get_users : Handler S
  get_users = wrap_scoped siw siw.handler.get_users

  unfoldable pub post_users : Handler S
  post_users = wrap_scoped siw siw.handler.post_users

  unfoldable pub delete_users_id : Handler S
  delete_users_id = wrap_id wire siw siw.handler.delete_users_id

  unfoldable pub get_version : Handler S
  get_version = wrap_public siw siw.handler.get_version
