-- ===== src/Operator/DeepCopy/Fresh.antt =====
-- Memory that a copy of operator/api/v1alpha1/zz_generated.deepcopy.go adds, and what holds of it
-- later.
use fleetcontrol.Common.{◌+◌, ◌≡◌, refl, ap, sym, ◌∙◌, some, [], ◌∷◌, ◌++◌}
use fleetcontrol.Operator.Memory.{
  Cell, Memory, length, get_elem?, set_elem, drop, length-append, append_assoc, append_nil,
  get_elem?-append_first, set_elem-append, drop-append,
}

-- m' is m with new cells, of which P holds whatever the cells of m come to hold and whatever is
-- allocated later.
abbrev pub Keeps : Memory → Memory → (Memory → Type 0) → Type 0
Keeps m m' P =
    (fresh : Memory) × (m' ≡ m ++ fresh)
    × ((other more : Memory) → length other ≡ length m → P (other ++ (fresh ++ more)))

pub Keeps-same : (m : Memory) (P : Memory → Type 0) → ((x : Memory) → P x) → Keeps m m P
Keeps-same m P all = ([], sym (append_nil m), λ other more same. all (other ++ more))

pub Keeps-map :
    (m m' : Memory) (P Q : Memory → Type 0)
    → ((x : Memory) → P x → Q x)
    → Keeps m m' P
    → Keeps m m' Q
Keeps-map m m' P Q f (fresh, made, keeps) =
    (fresh, made, λ other more same. f (other ++ (fresh ++ more)) (keeps other more same))

-- The same for a copying function's result.
pub Keeps-result :
    {A : Type 0} (m : Memory) (P : A → Memory → Type 0) (r r' : A × Memory)
    → r ≡ r'
    → Keeps m r'.1 (P r'.0)
    → Keeps m r.1 (P r.0)
Keeps-result m P r r' same keeps = rw same keeps

pub Keeps-then :
    (m m' m'' : Memory) (P Q : Memory → Type 0)
    → Keeps m m' P
    → Keeps m' m'' Q
    → Keeps m m'' (λ x. P x × Q x)
Keeps-then m m' m'' P Q (f, made, keeps) (g, made', keeps') = (
  f ++ g,
  made' ∙ (ap (λ l. l ++ g) made ∙ append_assoc m f g),
  λ other more same. (
    rw (append_assoc f g more) (keeps other (g ++ more) same),
    rw (append_assoc f g more, ← append_assoc other f (g ++ more))
        (keeps' (other ++ f) more (
          length-append other f
          ∙ (ap (λ n. n + length f) same ∙ (sym (length-append m f) ∙ ap length (sym made))))),
  ),
)

-- A cell that is allocated first and written last.
pub Keeps-store :
    (m m' : Memory) (z c : Cell) (P : Memory → Type 0)
    → Keeps (m ++ (z ∷ [])) m' P
    → Keeps m (set_elem m' (length m) c) (λ x. (get_elem? x (length m) ≡ some c) × P x)
Keeps-store m m' z c P (f, made, keeps) = (
  c ∷ f,
  ap (λ l. set_elem l (length m) c) (made ∙ append_assoc m (z ∷ []) f) ∙ set_elem-append m f z c,
  λ other more same. (
    rw (sym same) (get_elem?-append_first other (f ++ more) c),
    rw (← append_assoc other (c ∷ []) (f ++ more)) (
        keeps (other ++ (c ∷ [])) more
          (rw (length-append other (c ∷ []), length-append m (z ∷ []), same) refl)),
  ),
)

-- What `Keeps` says of the cells that were added.
abbrev pub Separate : Memory → Memory → Memory → Memory → (Memory → Type 0) → Type 0
Separate m m' other more P =
    (m' ≡ m ++ drop (length m) m') × P (other ++ (drop (length m) m' ++ more))

pub Keeps-Separate :
    (m m' other more : Memory) (P : Memory → Type 0)
    → length other ≡ length m
    → Keeps m m' P
    → Separate m m' other more P
Keeps-Separate m m' other more P same (fresh, made, keeps) =
    rw (made, drop-append m fresh) (refl, keeps other more same)
