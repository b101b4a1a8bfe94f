-- ===== src/Database/Pool.antt =====
-- api/internal/db/postgres.go; pgxpool.New and the ping of a pool of type P are parameters.
use fleetcontrol.Common.{◌≡◌, refl, String, Option, none, some, Error, Result, ok, err, arith}

module _ {P : Type 0} (new_pool : String → Result P) (ping : P → Option Error) where
  abbrev pub pinged : P → Option Error → Result P
  pinged pool (some e) = err e
  pinged pool none = ok pool

  abbrev pub opened : Result P → Result P
  opened (err e) = err e
  opened (ok pool) = pinged pool (ping pool)

  -- Connect
  unfoldable pub connect : String → Result P
  connect dsn = opened (new_pool dsn)

  pinged-eq-ok : (p pool : P) (o : Option Error) → pinged p o ≡ ok pool → (o ≡ none) × (p ≡ pool)
  pinged-eq-ok p pool none h = (refl, ground arith)
  pinged-eq-ok p pool (some e) h = absurd (ground arith)

  opened-eq-ok : (r : Result P) (pool : P) → opened r ≡ ok pool → (r ≡ ok pool) × (ping pool ≡ none)
  opened-eq-ok (err e) pool h = absurd (ground arith)
  opened-eq-ok (ok p) pool h =
      let (answers, same) = pinged-eq-ok p pool (ping p) h in rw (← same) (refl, answers)

  -- A pool that Connect returns is the one of pgxpool.New, and its ping was answered.
  pub connect-eq-ok :
      (dsn : String) (pool : P)
      → connect dsn ≡ ok pool
      → (new_pool dsn ≡ ok pool) × (ping pool ≡ none)
  unfolding connect
  connect-eq-ok dsn pool h = opened-eq-ok (new_pool dsn) pool h
