-- ===== src/Satellite/Handler/Replies.antt =====
-- What the Satellite handlers answer while the database answers.
use fleetcontrol.Common.{
  ◌≡◌, sym, String, Bool, false, Option, none, some, List, [], ◌∷◌, ◌++◌, map, Bool-cases, inl, inr,
  Option-cases, if◌then◌else◌, message, sentinel, managed_by_operator,
}
use mathlib.Core.List.{append_assoc, append-nil, Perm}
use fleetcontrol.Auth.Principal.{Uuid}
use fleetcontrol.Auth.Jwt.{Time}
use fleetcontrol.Gen.Models.{
  SatelliteBody, CreateSatelliteRequest, UpdateSatelliteRequest, pending, manual, ready,
}
use fleetcontrol.Http.{Request, Outcome, Wire, Payload, write_json, write_error, no_content}
use fleetcontrol.Database.{Db, Postgres}
use fleetcontrol.Database.Table.{
  taken, order_by_time_desc, order_by_time_desc-perm, order_by_time_desc-NewestFirst, NewestFirst,
}
use fleetcontrol.Satellite.Model.{Satellite}
use fleetcontrol.Satellite.Repository.{postgres_repository, name_of, created_at_of}
use fleetcontrol.Satellite.Repository.Laws.{view, next, Up, create_lem, list_lem}
use fleetcontrol.Satellite.Mapper.{
  to_response, to_response_from, to_response_list, to_domain_create,
}
use fleetcontrol.Satellite.Handler
use fleetcontrol.Satellite.Service.Spec.{
  is_withheld, update-Implements, delete-Implements, heartbeat-Implements,
}
use fleetcontrol.Satellite.Handler.{from_operator, invalid_id, invalid_body, not_found}

-- The loop of ToResponseList is the map of ToResponse, in order.
to_response_from-eq-map :
    (resp : List SatelliteBody) (sats : List Satellite)
    → to_response_from resp sats ≡ resp ++ map (λ s. to_response (some s)) sats
unfolding to_response_from
to_response_from-eq-map resp [] = sym (append-nil resp)
to_response_from-eq-map resp (s ∷ sats) =
    rw (to_response_from-eq-map (resp ++ to_response (some s) ∷ []) sats) (append_assoc resp _ _)

pub to_response_list-eq-map :
    (sats : List Satellite) → to_response_list sats ≡ map (λ s. to_response (some s)) sats
unfolding to_response_list
to_response_list-eq-map sats = to_response_from-eq-map [] sats

-- The body with every field of a Satellite.
abbrev pub body_of : Satellite → SatelliteBody
body_of sat = record {
  created_at = some sat.created_at;
  id = some sat.id;
  last_seen_at = sat.last_seen_at;
  managed_by = some sat.managed_by;
  name = some sat.name;
  region = some sat.region;
  status = some sat.status;
}

-- The answer to GET /satellites/{id}, by what the path and the fleet hold.
abbrev pub found_answer : Option Satellite → Outcome
found_answer none = not_found
found_answer (some sat) = write_json 200 (Payload.satellite (body_of sat))

abbrev pub get_answer : Option Uuid → (Uuid → Option Satellite) → Outcome
get_answer none fleet = invalid_id
get_answer (some id) fleet = found_answer (fleet id)

module _ (wire : Wire) (pg : Postgres) (r : Request) (db : Db) (up : Up pg db) where
  -- While the database answers, POST /satellites with a free name and a fresh id stores and
  -- answers a Pending, manually managed Satellite with the name and region of the body.
  pub create-answer :
      (req : CreateSatelliteRequest)
      → wire.decode_create_satellite r.body ≡ some req
      → view db (pg db.calls).fresh ≡ none
      → taken name_of req.name db.satellites ≡ false
      → let c = pg db.calls in
        let sat : Satellite = record {
          id = c.fresh;
          name = req.name;
          region = req.region;
          status = pending;
          managed_by = manual;
          last_seen_at = none;
          created_at = c.now;
        } in
        Handler.create wire (postgres_repository pg) r db ≡ (
          write_json 201 (Payload.satellite (body_of sat)),
          record (next db) { satellites = sat ∷ db.satellites },
        )
  unfolding Handler.create to_response
  create-answer req body fresh free =
      let sat : Satellite = record (to_domain_create req) {
        status = pending;
        managed_by = manual;
      } in
      rw (body, create_lem pg db up sat fresh free)

  -- While the database answers, GET /satellites answers every Satellite once, with all its fields,
  -- the newest first, and changes no row.
  pub list-answer :
      (rows : List Satellite) × (Handler.list wire (postgres_repository pg) r db
        ≡ (write_json 200 (Payload.satellites (map body_of rows)), next db))
      × Perm rows db.satellites
      × NewestFirst created_at_of rows
  unfolding Handler.list to_response
  list-answer = (
    order_by_time_desc created_at_of db.satellites,
    rw (
      list_lem pg db up,
      to_response_list-eq-map (order_by_time_desc created_at_of db.satellites),
    ),
    order_by_time_desc-perm created_at_of db.satellites,
    order_by_time_desc-NewestFirst created_at_of db.satellites,
  )

-- The answer of a PATCH that reached the service, by the Satellite that is there.
abbrev pub patched_answer : String → Bool → Option Satellite → Outcome
patched_answer region op none = not_found
patched_answer region op (some sat) =
    if is_withheld sat op
    then write_error 403 "SATELLITE_MANAGED_BY_OPERATOR" (message (sentinel managed_by_operator))
    else write_json 200 (Payload.satellite (body_of (record sat { region = region })))

abbrev pub deleted_answer : Bool → Option Satellite → Outcome
deleted_answer op none = no_content
deleted_answer op (some sat) =
    if is_withheld sat op
    then write_error 403 "SATELLITE_MANAGED_BY_OPERATOR" (message (sentinel managed_by_operator))
    else no_content

-- The answer to a heartbeat at an instant.
abbrev pub beaten_answer : Time → Option Satellite → Outcome
beaten_answer now none = not_found
beaten_answer now (some sat) =
    write_json 200
      (Payload.satellite (body_of (record sat { status = ready; last_seen_at = some now })))

module _ (wire : Wire) (pg : Postgres) (r : Request) (db : Db) (up : Up pg db) (id : Uuid)
    (parsed : wire.parse_uuid (r.url_param "id") ≡ some id) where
  -- While the database answers, POST /satellites/{id}/heartbeat with an id that parses answers 404
  -- for a missing id, and else 200 with the Satellite that was there, Ready and last seen at the
  -- time of the call.
  pub heartbeat-answer :
      (Handler.heartbeat wire (postgres_repository pg) r db).0
      ≡ beaten_answer (pg db.calls).now (view db id)
  unfolding Handler.heartbeat to_response
  heartbeat-answer =
      rw (parsed, (heartbeat-Implements pg db up id).0)
        (elim (Option-cases (view db id)) [
          | inl missing ↦ rw missing
          | inr (sat, there) ↦ rw there
        ])

module _ (wire : Wire) (pg : Postgres) (r : Request) (db : Db) (up : Up pg db)
    (up' : Up pg (next db)) (id : Uuid)
    (parsed : wire.parse_uuid (r.url_param "id") ≡ some id) where
  -- While the database answers, PATCH /satellites/{id} with an id and a body that parse answers
  -- 404 for a missing id, 403 for a guarded Satellite, and else 200 with every field of the
  -- Satellite that was there but the region, which is the new one.
  pub update-answer :
      (req : UpdateSatelliteRequest)
      → wire.decode_update_satellite r.body ≡ some req
      → (Handler.update wire (postgres_repository pg) r db).0
        ≡ patched_answer req.region (from_operator r) (view db id)
  unfolding Handler.update to_response
  update-answer req body =
      rw (parsed, body, (update-Implements pg db up id req.region (from_operator r) up').0)
        (elim (Option-cases (view db id)) [
          | inl missing ↦ rw missing
          | inr (sat, there) ↦ rw there (elim (Bool-cases (is_withheld sat (from_operator r))) [
            | inl guarded ↦ rw guarded
            | inr free ↦ rw free
          ])
        ])

  -- While the database answers, DELETE /satellites/{id} with an id that parses answers 403 for a
  -- guarded Satellite, and else 204, also for an id that is not there.
  pub delete-answer :
      (Handler.delete wire (postgres_repository pg) r db).0
      ≡ deleted_answer (from_operator r) (view db id)
  unfolding Handler.delete
  delete-answer =
      rw (parsed, (delete-Implements pg db up id (from_operator r) up').0)
        (elim (Option-cases (view db id)) [
          | inl missing ↦ rw missing
          | inr (sat, there) ↦ rw there (elim (Bool-cases (is_withheld sat (from_operator r))) [
            | inl guarded ↦ rw guarded
            | inr free ↦ rw free
          ])
        ])
