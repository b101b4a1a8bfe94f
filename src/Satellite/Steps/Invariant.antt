-- ===== src/Satellite/Steps/Invariant.antt =====
-- What every statement on the satellites table keeps.
use fleetcontrol.Common.{String, ◌≡◌, refl, ◌⊎◌, inl, inr, none, some, List, All}
use fleetcontrol.Auth.Jwt.{Time}
use fleetcontrol.Gen.Models.{manual, pending, ready}
use fleetcontrol.Database.Table.{
  UniqueKeys, UniqueTexts, UniqueKeys-update, UniqueKeys-delete, UniqueTexts-update,
  UniqueTexts-delete, All-update, All-delete,
}
use fleetcontrol.Satellite.Model.{Satellite}
use fleetcontrol.Satellite.Repository.{id_of, name_of, set_region, set_seen}
use fleetcontrol.Satellite.Steps.{Step, unchanged, created, moved, seen, deleted}

-- A Satellite is Pending until its first heartbeat and Ready from then on, and is owned by `manual`.
abbrev pub IsTracked : Satellite → Type 0
IsTracked s =
    (s.managed_by ≡ manual)
    × (((s.status ≡ pending) × (s.last_seen_at ≡ none))
        ⊎ ((s.status ≡ ready) × ((t : Time) × (s.last_seen_at ≡ some t))))

pub record IsFleet (t : List Satellite) : Type 0 where
  pub ids : UniqueKeys id_of t
  pub names : UniqueTexts name_of t
  pub rows : All IsTracked t

pub set_region-IsTracked :
    (region : String) (s : Satellite) → IsTracked s → IsTracked (set_region region s)
set_region-IsTracked region s h = h

pub set_seen-IsTracked : (now : Time) (s : Satellite) → IsTracked s → IsTracked (set_seen now s)
set_seen-IsTracked now s h = (h.0, inr (refl, (now, refl)))

-- Every step keeps the invariant: ids and names stay unique, and each row is tracked.
pub Step-IsFleet : {t u : List Satellite} → Step t u → IsFleet t → IsFleet u
Step-IsFleet unchanged f = f
Step-IsFleet (created c s fresh free status owner) f = record {
  ids = (fresh, f.ids);
  names = (free, f.names);
  rows = ((owner, inl (status, refl)), f.rows);
}
Step-IsFleet {t} (moved id region) f = record {
  ids = UniqueKeys-update id_of (set_region region) (λ s. refl) id t f.ids;
  names = UniqueTexts-update name_of id_of (set_region region) (λ s. refl) id t f.names;
  rows = All-update id_of IsTracked (set_region region) (set_region-IsTracked region) id t f.rows;
}
Step-IsFleet {t} (seen id now) f = record {
  ids = UniqueKeys-update id_of (set_seen now) (λ s. refl) id t f.ids;
  names = UniqueTexts-update name_of id_of (set_seen now) (λ s. refl) id t f.names;
  rows = All-update id_of IsTracked (set_seen now) (set_seen-IsTracked now) id t f.rows;
}
Step-IsFleet {t} (deleted id) f = record {
  ids = UniqueKeys-delete id_of id t f.ids;
  names = UniqueTexts-delete name_of id_of id t f.names;
  rows = All-delete id_of IsTracked id t f.rows;
}
