-- ===== src/Database/Table.antt =====
-- SQL on one table: rows in no particular order, found, updated and deleted by a UUID key.
use mathlib.Core.Path.{subst}
use fleetcontrol.Common.{
  Bool-cases, inl, inr, ℕ, ◌≡◌, refl, ◌≤◌, String, Bool, false, ◌||◌, Option, none, some, List, [],
  ◌∷◌, eqb, leb, ◌==◌, All, if◌then◌else◌, arith,
}
use mathlib.Core.List.Perm
use mathlib.Core.List.{Perm}
use mathlib.Core.Option
use fleetcontrol.Auth.Principal.{Uuid}

module _ {R : Type 0} where
  module _ (key : R → Uuid) where
    -- … WHERE id = k
    abbrev pub find : Uuid → List R → Option R
    find k [] = none
    find k (r ∷ t) = if eqb (key r) k then some r else find k t

    -- UPDATE … SET … WHERE id = k
    abbrev pub update : Uuid → (R → R) → List R → List R
    update k f [] = []
    update k f (r ∷ t) = (if eqb (key r) k then f r else r) ∷ update k f t

    -- DELETE FROM … WHERE id = k
    abbrev pub delete : Uuid → List R → List R
    delete k [] = []
    delete k (r ∷ t) = let rest = delete k t in if eqb (key r) k then rest else r ∷ rest

  -- A UNIQUE column holds the text already.
  abbrev pub taken : (R → String) → String → List R → Bool
  taken column v [] = false
  taken column v (r ∷ t) = column r == v || taken column v t

  module _ (time : R → ℕ) where
    -- ORDER BY time DESC: rows of one instant keep the order of the table.
    abbrev pub insert_by_time : R → List R → List R
    insert_by_time r [] = r ∷ []
    insert_by_time r (s ∷ t) =
        let rest = insert_by_time r t in if leb (time s) (time r) then r ∷ s ∷ t else s ∷ rest

    abbrev pub order_by_time_desc : List R → List R
    order_by_time_desc [] = []
    order_by_time_desc (r ∷ t) = insert_by_time r (order_by_time_desc t)

module _ {R : Type 0} (key : R → Uuid) where
  pub find-update :
      (f : R → R) (same : (r : R) → key (f r) ≡ key r) (j k : Uuid) (t : List R)
      → find key j (update key k f t)
        ≡ (if eqb k j then Option.map f (find key j t) else find key j t)
  find-update f same j k [] = ground arith
  find-update f same j k (r ∷ t) = ground (arith, same r, find-update f same j k t)

  pub find-delete :
      (j k : Uuid) (t : List R)
      → find key j (delete key k t) ≡ (if eqb k j then none else find key j t)
  find-delete j k [] = ground arith
  find-delete j k (r ∷ t) = ground (arith, find-delete j k t)

  -- The key of a row that was found.
  pub key-find : (k : Uuid) (t : List R) (r : R) → find key k t ≡ some r → key r ≡ k
  key-find k [] r h = absurd (ground arith)
  key-find k (s ∷ t) r h = ground (arith, key-find k t r)

  -- No two rows share a key.
  abbrev pub UniqueKeys : List R → Type 0
  UniqueKeys [] = Unit
  UniqueKeys (r ∷ t) = (find key (key r) t ≡ none) × UniqueKeys t

  pub UniqueKeys-update :
      (f : R → R) (same : (r : R) → key (f r) ≡ key r) (k : Uuid) (t : List R)
      → UniqueKeys t
      → UniqueKeys (update key k f t)
  UniqueKeys-update f same k [] h = tt
  UniqueKeys-update f same k (r ∷ t) h =
      ground (arith, same r, find-update f same (key r) k t, UniqueKeys-update f same k t h.1)

  pub UniqueKeys-delete : (k : Uuid) (t : List R) → UniqueKeys t → UniqueKeys (delete key k t)
  UniqueKeys-delete k [] h = tt
  UniqueKeys-delete k (r ∷ t) h = ground (arith, find-delete (key r) k t, UniqueKeys-delete k t h.1)

  module _ (P : R → Type 0) where
    pub All-update :
        (f : R → R) (keeps : (r : R) → P r → P (f r)) (k : Uuid) (t : List R)
        → All P t
        → All P (update key k f t)
    All-update f keeps k [] h = tt
    All-update f keeps k (r ∷ t) h = elim (Bool-cases (eqb (key r) k)) [
      | inl hit ↦ rw hit (keeps r h.0, All-update f keeps k t h.1)
      | inr miss ↦ rw miss (h.0, All-update f keeps k t h.1)
    ]

    pub All-delete : (k : Uuid) (t : List R) → All P t → All P (delete key k t)
    All-delete k [] h = tt
    All-delete k (r ∷ t) h = elim (Bool-cases (eqb (key r) k)) [
      | inl hit ↦ rw hit (All-delete k t h.1)
      | inr miss ↦ rw miss (h.0, All-delete k t h.1)
    ]

    pub All-find : (k : Uuid) (t : List R) (r : R) → All P t → find key k t ≡ some r → P r
    All-find k [] r h e = absurd (ground arith)
    All-find k (s ∷ t) r h e = elim (Bool-cases (eqb (key s) k)) [
      | inl hit ↦ let same : s ≡ r = ground arith in subst P same h.0
      | inr miss ↦ All-find k t r h.1 (ground arith)
    ]

-- No two rows share a text of the column.
module _ {R : Type 0} (column : R → String) where
  abbrev pub UniqueTexts : List R → Type 0
  UniqueTexts [] = Unit
  UniqueTexts (r ∷ t) = (taken column (column r) t ≡ false) × UniqueTexts t

  module _ (key : R → Uuid) where
    pub taken-update :
        (f : R → R) (same : (r : R) → column (f r) ≡ column r) (k : Uuid) (v : String) (t : List R)
        → taken column v (update key k f t) ≡ taken column v t
    taken-update f same k v [] = refl
    taken-update f same k v (r ∷ t) = ground (arith, same r, taken-update f same k v t)

    pub taken-delete :
        (k : Uuid) (v : String) (t : List R)
        → taken column v t ≡ false
        → taken column v (delete key k t) ≡ false
    taken-delete k v [] h = refl
    taken-delete k v (r ∷ t) h = ground (arith, taken-delete k v t)

    pub UniqueTexts-update :
        (f : R → R) (same : (r : R) → column (f r) ≡ column r) (k : Uuid) (t : List R)
        → UniqueTexts t
        → UniqueTexts (update key k f t)
    UniqueTexts-update f same k [] h = tt
    UniqueTexts-update f same k (r ∷ t) h = elim (Bool-cases (eqb (key r) k)) [
      | inl hit ↦
          rw hit
            (rw (same r, taken-update f same k (column r) t) h.0, UniqueTexts-update f same k t h.1)
      | inr miss ↦
          rw miss (rw (taken-update f same k (column r) t) h.0, UniqueTexts-update f same k t h.1)
    ]

    pub UniqueTexts-delete : (k : Uuid) (t : List R) → UniqueTexts t → UniqueTexts (delete key k t)
    UniqueTexts-delete k [] h = tt
    UniqueTexts-delete k (r ∷ t) h =
        ground (arith, taken-delete k (column r) t h.0, UniqueTexts-delete k t h.1)

-- Ordering the rows by time moves rows about, and puts none before a later one.
module _ {R : Type 0} (time : R → ℕ) where
  abbrev pub NewestFirst : List R → Type 0
  NewestFirst [] = Unit
  NewestFirst (r ∷ t) = All (λ s. time s ≤ time r) t × NewestFirst t

  insert_by_time-perm : (r : R) (t : List R) → Perm (insert_by_time time r t) (r ∷ t)
  insert_by_time-perm r [] = Perm.refl _
  insert_by_time-perm r (s ∷ t) = elim (Bool-cases (leb (time s) (time r))) [
    | inl newer ↦ rw newer (Perm.refl _)
    | inr older ↦ rw older (Perm.trans (Perm.cons s (insert_by_time-perm r t)) (Perm.swap r s t))
  ]

  pub order_by_time_desc-perm : (t : List R) → Perm (order_by_time_desc time t) t
  order_by_time_desc-perm [] = Perm.refl _
  order_by_time_desc-perm (r ∷ t) =
      Perm.trans (insert_by_time-perm r (order_by_time_desc time t))
        (Perm.cons r (order_by_time_desc-perm t))

  All-insert_by_time :
      (n : ℕ) (r : R) (t : List R)
      → time r ≤ n
      → All (λ s. time s ≤ n) t
      → All (λ s. time s ≤ n) (insert_by_time time r t)
  All-insert_by_time n r [] p h = (p, tt)
  All-insert_by_time n r (s ∷ t) p h = elim (Bool-cases (leb (time s) (time r))) [
    | inl newer ↦ rw newer (p, h)
    | inr older ↦ rw older (h.0, All-insert_by_time n r t p h.1)
  ]

  All-le_trans : (m n : ℕ) (t : List R) → m ≤ n → All (λ s. time s ≤ m) t → All (λ s. time s ≤ n) t
  All-le_trans m n [] p h = tt
  All-le_trans m n (s ∷ t) p h = (omega arith, All-le_trans m n t p h.1)

  insert_by_time-NewestFirst :
      (r : R) (t : List R) → NewestFirst t → NewestFirst (insert_by_time time r t)
  insert_by_time-NewestFirst r [] h = (tt, tt)
  insert_by_time-NewestFirst r (s ∷ t) h = elim (Bool-cases (leb (time s) (time r))) [
    | inl newer ↦
        let below : time s ≤ time r = ground arith in
        rw newer ((below, All-le_trans (time s) (time r) t below h.0), h)
    | inr older ↦
        let above : time r ≤ time s = ground arith in
        rw older (All-insert_by_time (time s) r t above h.0, insert_by_time-NewestFirst r t h.1)
  ]

  pub order_by_time_desc-NewestFirst : (t : List R) → NewestFirst (order_by_time_desc time t)
  order_by_time_desc-NewestFirst [] = tt
  order_by_time_desc-NewestFirst (r ∷ t) =
      insert_by_time-NewestFirst r (order_by_time_desc time t) (order_by_time_desc-NewestFirst t)
