-- ===== src/Tests/Copies.antt =====
-- Copies of the metadata of apimachinery on the memory, for the theorems on
-- operator/api/v1alpha1/zz_generated.deepcopy.go.
use fleetcontrol.Common.{
  ℕ, suc, arith, ◌+◌, ◌≡◌, refl, sym, String, Option, none, some, [], ◌∷◌, ◌++◌,
}
use fleetcontrol.Operator.Types.{
  MetaField, deletion_timestamp, deletion_grace_period_seconds, labels, annotations,
  owner_references, finalizers, managed_fields, ObjectMeta, ListMeta,
}
use fleetcontrol.Operator.Memory.{
  ObjectMetaStruct, ListMetaStruct, Cell, Memory, count_cell, time_cell, length, get_elem?,
  get_elem?-append_first,
}
use fleetcontrol.Operator.DeepCopy.{MetaLibrary}
use fleetcontrol.Operator.DeepCopy.Fresh.{Keeps}
use fleetcontrol.Operator.DeepCopy.Reading.{FieldReads, ObjectMetaReads, CountReads, ListMetaReads}
use fleetcontrol.Operator.DeepCopy.Independence.{CopiesMeta}

abbrev cell_or : Cell → Option Cell → Cell
cell_or c none = c
cell_or c (some d) = d

-- The cell of the copy of what an address holds; nil has one that nothing points to.
abbrev copied_cell : Memory → Option ℕ → Cell
copied_cell m none = time_cell 0
copied_cell m (some a) = cell_or (time_cell 0) (get_elem? m a)

abbrev moved : ℕ → Option ℕ → Option ℕ
moved b none = none
moved b (some a) = some b

abbrev index : MetaField → ℕ
index deletion_timestamp = 0
index deletion_grace_period_seconds = 1
index labels = 2
index annotations = 3
index owner_references = 4
index finalizers = 5
index managed_fields = 6

abbrev copied_fields : Memory → (MetaField → Option ℕ) → Memory
copied_fields m reference =
    copied_cell m (reference deletion_timestamp)
    ∷ copied_cell m (reference deletion_grace_period_seconds)
    ∷ copied_cell m (reference labels)
    ∷ copied_cell m (reference annotations)
    ∷ copied_cell m (reference owner_references)
    ∷ copied_cell m (reference finalizers)
    ∷ copied_cell m (reference managed_fields)
    ∷ []

abbrev copy_object_meta : ObjectMetaStruct → Memory → ObjectMetaStruct × Memory
copy_object_meta o m = (
  record o { reference = λ field. moved (length m + index field) (o.reference field) },
  m ++ copied_fields m o.reference,
)

abbrev copied_count : Memory → Option ℕ → Memory
copied_count m none = []
copied_count m (some a) = copied_cell m (some a) ∷ []

abbrev copy_list_meta : ListMetaStruct → Memory → ListMetaStruct × Memory
copy_list_meta l m = (
  record l { remaining_item_count = moved (length m) l.remaining_item_count },
  m ++ copied_count m l.remaining_item_count,
)

abbrev pub meta : MetaLibrary
meta = record {
  time_deep_copy = λ a m. (length m, m ++ (copied_cell m (some a) ∷ []));
  copy_condition = λ c. c;
  copy_object_meta = copy_object_meta;
  copy_list_meta = copy_list_meta;
}

get_elem?-append_at :
    (xs ys : Memory) (i : ℕ) → get_elem? (xs ++ ys) (length xs + i) ≡ get_elem? ys i
get_elem?-append_at [] ys i = let e : 0 + i ≡ i = omega arith in rw e refl
get_elem?-append_at (x ∷ xs) ys i =
    let e : suc (length xs) + i ≡ suc (length xs + i) = omega arith in
    rw e (get_elem?-append_at xs ys i)

moved-FieldReads :
    (m other rest : Memory) (i : ℕ) (p : Option ℕ) (v : Option String)
    → FieldReads m p v
    → length other ≡ length m
    → get_elem? rest i ≡ some (copied_cell m p)
    → FieldReads (other ++ rest) (moved (length m + i) p) v
moved-FieldReads m other rest i none none h same there = tt
moved-FieldReads m other rest i (some a) (some t) h same there =
    rw (sym same, get_elem?-append_at other rest i, there, h) refl
moved-FieldReads m other rest i none (some t) h same there = absurd h
moved-FieldReads m other rest i (some a) none h same there = absurd h

field_copied :
    (m more : Memory) (reference : MetaField → Option ℕ) (field : MetaField)
    → get_elem? (copied_fields m reference ++ more) (index field)
      ≡ some (copied_cell m (reference field))
field_copied m more reference deletion_timestamp = refl
field_copied m more reference deletion_grace_period_seconds = refl
field_copied m more reference labels = refl
field_copied m more reference annotations = refl
field_copied m more reference owner_references = refl
field_copied m more reference finalizers = refl
field_copied m more reference managed_fields = refl

copy_object_meta-Keeps :
    (m : Memory) (o : ObjectMetaStruct) (v : ObjectMeta)
    → ObjectMetaReads m o v
    → Keeps m (copy_object_meta o m).1 (λ x. ObjectMetaReads x (copy_object_meta o m).0 v)
copy_object_meta-Keeps m o v (labelled, fields) = (
  copied_fields m o.reference,
  refl,
  λ other more same. (
    labelled,
    λ field.
        moved-FieldReads m other (copied_fields m o.reference ++ more) (index field)
          (o.reference field) (v.content field) (fields field) same
          (field_copied m more o.reference field),
  ),
)

moved-CountReads :
    (m other more : Memory) (p n : Option ℕ)
    → CountReads m p n
    → length other ≡ length m
    → CountReads (other ++ (copied_count m p ++ more)) (moved (length m) p) n
moved-CountReads m other more none none h same = tt
moved-CountReads m other more (some a) (some n) h same =
    rw (h, sym same) (get_elem?-append_first other more (count_cell n))
moved-CountReads m other more none (some n) h same = absurd h
moved-CountReads m other more (some a) none h same = absurd h

copy_list_meta-Keeps :
    (m : Memory) (l : ListMetaStruct) (v : ListMeta)
    → ListMetaReads m l v
    → Keeps m (copy_list_meta l m).1 (λ x. ListMetaReads x (copy_list_meta l m).0 v)
copy_list_meta-Keeps m l v (link, version, next, count) = (
  copied_count m l.remaining_item_count,
  refl,
  λ other more same. (
    link,
    version,
    next,
    moved-CountReads m other more l.remaining_item_count v.remaining_item_count count same,
  ),
)

pub meta-CopiesMeta : CopiesMeta meta
meta-CopiesMeta = record {
  times = λ a m t there. rw there refl;
  conditions = λ c. refl;
  object_meta = copy_object_meta-Keeps;
  list_meta = copy_list_meta-Keeps;
}
