-- ===== src/Operator/Memory.antt =====
-- The memory that operator/api/v1alpha1/zz_generated.deepcopy.go works on: cells, of which the n-th
-- allocated has the address n.
use fleetcontrol.Common.{
  ℕ, zero, suc, ◌+◌, ◌≡◌, refl, ap, String, Option, none, some, List, [], ◌∷◌, ◌++◌, arith,
}
use fleetcontrol.Auth.Jwt.{Time}
use fleetcontrol.Operator.Types.{Condition, SatelliteSpec, TypeMeta, MetaField}

-- The structs of satellite_types.go as they lie in memory: a pointer is an address, a map or a slice
-- is the address of its entries, and `none` is nil.
pub record ObjectMetaStruct : Type 0 where
  pub name : String
  pub generate_name : String
  pub namespace : String
  pub self_link : String
  pub uid : String
  pub resource_version : String
  pub generation : ℕ
  pub creation_timestamp : Time
  pub reference : MetaField → Option ℕ

pub record ListMetaStruct : Type 0 where
  pub self_link : String
  pub resource_version : String
  pub continue_token : String
  pub remaining_item_count : Option ℕ

pub record StatusStruct : Type 0 where
  pub phase : String
  pub managed_by : String
  pub last_heartbeat : Option ℕ
  pub conditions : Option ℕ

pub record SatelliteStruct : Type 0 where
  pub type_meta : TypeMeta
  pub metadata : ObjectMetaStruct
  pub spec : SatelliteSpec
  pub status : StatusStruct

pub record ListStruct : Type 0 where
  pub type_meta : TypeMeta
  pub metadata : ListMetaStruct
  pub items : Option ℕ

-- What a field of an object's metadata points to is one cell, with the entries in it.
pub data Cell : Type 0 where
  meta_cell : String → Cell
  count_cell : ℕ → Cell
  time_cell : Time → Cell
  conditions_cell : List Condition → Cell
  spec_cell : SatelliteSpec → Cell
  status_cell : StatusStruct → Cell
  satellite_cell : SatelliteStruct → Cell
  satellites_cell : List SatelliteStruct → Cell
  list_cell : ListStruct → Cell

abbrev pub Memory : Type 0
Memory = List Cell

abbrev pub length {ℓ} : {A : Type ℓ} → List A → ℕ
length [] = 0
length (x ∷ xs) = suc (length xs)

abbrev pub get_elem? {ℓ} : {A : Type ℓ} → List A → ℕ → Option A
get_elem? [] i = none
get_elem? (x ∷ xs) zero = some x
get_elem? (x ∷ xs) (suc i) = get_elem? xs i

abbrev pub set_elem {ℓ} : {A : Type ℓ} → List A → ℕ → A → List A
set_elem [] i y = []
set_elem (x ∷ xs) zero y = y ∷ xs
set_elem (x ∷ xs) (suc i) y = x ∷ set_elem xs i y

abbrev pub drop {ℓ} : {A : Type ℓ} → ℕ → List A → List A
drop zero xs = xs
drop (suc n) [] = []
drop (suc n) (x ∷ xs) = drop n xs

pub length-append {ℓ} : {A : Type ℓ} (xs ys : List A) → length (xs ++ ys) ≡ length xs + length ys
length-append [] ys = omega arith
length-append (x ∷ xs) ys = rw (length-append xs ys) (omega arith)

pub append_assoc {ℓ} : {A : Type ℓ} (xs ys zs : List A) → (xs ++ ys) ++ zs ≡ xs ++ (ys ++ zs)
append_assoc [] ys zs = refl
append_assoc (x ∷ xs) ys zs = ap (λ l. x ∷ l) (append_assoc xs ys zs)

pub append_nil {ℓ} : {A : Type ℓ} (xs : List A) → xs ++ [] ≡ xs
append_nil [] = refl
append_nil (x ∷ xs) = ap (λ l. x ∷ l) (append_nil xs)

pub get_elem?-append {ℓ} :
    {A : Type ℓ} (xs ys : List A) (i : ℕ) (x : A)
    → get_elem? xs i ≡ some x
    → get_elem? (xs ++ ys) i ≡ some x
get_elem?-append [] ys i x h = absurd (ground arith)
get_elem?-append (y ∷ xs) ys zero x h = h
get_elem?-append (y ∷ xs) ys (suc i) x h = get_elem?-append xs ys i x h

-- The first cell after a memory.
pub get_elem?-append_first {ℓ} :
    {A : Type ℓ} (xs ys : List A) (y : A) → get_elem? (xs ++ (y ∷ ys)) (length xs) ≡ some y
get_elem?-append_first [] ys y = refl
get_elem?-append_first (x ∷ xs) ys y = get_elem?-append_first xs ys y

pub set_elem-append {ℓ} :
    {A : Type ℓ} (xs ys : List A) (y z : A)
    → set_elem (xs ++ (y ∷ ys)) (length xs) z ≡ xs ++ (z ∷ ys)
set_elem-append [] ys y z = refl
set_elem-append (x ∷ xs) ys y z = ap (λ l. x ∷ l) (set_elem-append xs ys y z)

pub drop-append {ℓ} : {A : Type ℓ} (xs ys : List A) → drop (length xs) (xs ++ ys) ≡ ys
drop-append [] ys = refl
drop-append (x ∷ xs) ys = drop-append xs ys
