-- ===== src/Database/Results.antt =====
-- What the statements return: rows that have what every row of the table has.
use fleetcontrol.Common.{
  ℕ, Bool-cases, inl, inr, Option, none, some, Option-cases, List, [], ◌∷◌, All, leb, error_eq,
  no_rows, Result, ok, err,
}
use fleetcontrol.Auth.Principal.{Uuid}
use fleetcontrol.Database.{scan_row, nil_on_no_rows}
use fleetcontrol.Database.Table.{find, insert_by_time, order_by_time_desc, All-find}

module _ {R : Type 0} (P : R → Type 0) where
  abbrev pub Each : Result R → Type 0
  Each (ok r) = P r
  Each (err e) = Unit

  abbrev pub Optional : Option R → Type 0
  Optional (some r) = P r
  Optional none = Unit

abbrev pub EachSome : {R : Type 0} → (R → Type 0) → Result (Option R) → Type 0
EachSome P r = Each (Optional P) r

abbrev pub EachAll : {R : Type 0} → (R → Type 0) → Result (List R) → Type 0
EachAll P r = Each (All P) r

module _ {R : Type 0} (P : R → Type 0) where
  pub nil_on_no_rows-EachSome : (r : Result R) → Each P r → EachSome P (nil_on_no_rows r)
  nil_on_no_rows-EachSome (ok r) p = p
  nil_on_no_rows-EachSome (err e) p = elim (Bool-cases (error_eq e no_rows)) [
    | inl missing ↦ rw missing tt
    | inr other ↦ rw other tt
  ]

  pub scan_row-Each :
      (key : R → Uuid) (k : Uuid) (t : List R) → All P t → Each P (scan_row (find key k t))
  scan_row-Each key k t all = elim (Option-cases (find key k t)) [
    | inl missing ↦ rw missing tt
    | inr (r, found) ↦ rw found (All-find key P k t r all found)
  ]

  module _ (time : R → ℕ) where
    All-insert : (r : R) (t : List R) → P r → All P t → All P (insert_by_time time r t)
    All-insert r [] p h = (p, tt)
    All-insert r (s ∷ t) p h = elim (Bool-cases (leb (time s) (time r))) [
      | inl newer ↦ rw newer (p, h)
      | inr older ↦ rw older (h.0, All-insert r t p h.1)
    ]

    pub All-order_by_time_desc : (t : List R) → All P t → All P (order_by_time_desc time t)
    All-order_by_time_desc [] h = tt
    All-order_by_time_desc (r ∷ t) h =
        All-insert r (order_by_time_desc time t) h.0 (All-order_by_time_desc t h.1)
