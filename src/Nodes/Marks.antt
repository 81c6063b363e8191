-- ===== src/Nodes/Marks.antt =====
-- The fault marks of the node records, and the search for a record by its address.
use cpv_cql_driver.Common.{
  ℕ, zero, suc, ◌+◌, ◌≤◌, ◌<◌, ◌≡◌, inl, inr, List, [], ◌∷◌, Bool, arith, ltb, ◌==◌, if◌then◌else◌,
  Bool-cases, Option-cases, length, get_elem?, set, some, lt→ltb,
}
use cpv_cql_driver.Nodes.Records.{NodeRecord, lower_bound, get_node_record, fault_count, fault_at}

abbrev pub mark : Bool → ℕ
mark b = if b then 1 else 0

pub fault_at-get :
    (nodes : List NodeRecord) (i : ℕ) (r : NodeRecord)
    → get_elem? nodes i ≡ some r
    → fault_at nodes i ≡ mark r.is_fault
unfolding fault_at
fault_at-get [] i r e = cc
fault_at-get (s ∷ rest) zero r e = ground arith
fault_at-get (s ∷ rest) (suc i) r e = fault_at-get rest i r e

pub fault_at-set :
    (nodes : List NodeRecord) (i j : ℕ) (r : NodeRecord)
    → i < length nodes
    → fault_at (set nodes i r) j ≡ (if i == j then mark r.is_fault else fault_at nodes j)
unfolding fault_at
fault_at-set [] i j r h = absurd (omega arith)
fault_at-set (s ∷ rest) zero zero r h = ground arith
fault_at-set (s ∷ rest) zero (suc j) r h = ground arith
fault_at-set (s ∷ rest) (suc i) zero r h = ground arith
fault_at-set (s ∷ rest) (suc i) (suc j) r h = ground (arith, fault_at-set rest i j r (omega arith))

pub fault_count-set :
    (nodes : List NodeRecord) (i : ℕ) (r : NodeRecord)
    → i < length nodes
    → fault_count (set nodes i r) + fault_at nodes i ≡ fault_count nodes + mark r.is_fault
unfolding fault_at fault_count
fault_count-set [] i r h = absurd (omega arith)
fault_count-set (s ∷ rest) zero r h = omega arith
fault_count-set (s ∷ rest) (suc i) r h = omega (arith, fault_count-set rest i r (omega arith))

pub fault_count-le : (nodes : List NodeRecord) → fault_count nodes ≤ length nodes
unfolding fault_count
fault_count-le [] = omega arith
fault_count-le (s ∷ rest) = ground (arith, fault_count-le rest)

-- A record that carries no mark leaves room among the marks.
pub fault_count-lt :
    (nodes : List NodeRecord) (i : ℕ)
    → i < length nodes
    → fault_at nodes i ≡ 0
    → fault_count nodes < length nodes
unfolding fault_at fault_count
fault_count-lt [] i h e = absurd (omega arith)
fault_count-lt (s ∷ rest) zero h e = omega (arith, fault_count-le rest)
fault_count-lt (s ∷ rest) (suc i) h e = ground (arith, fault_count-lt rest i)

lower_bound_sound :
    (nodes : List NodeRecord) (address i : ℕ) (r : NodeRecord)
    → lower_bound nodes address ≡ some (i, r)
    → get_elem? nodes i ≡ some r
unfolding lower_bound
lower_bound_sound [] address i r e = cc
lower_bound_sound (s ∷ rest) address i r e = elim (Bool-cases (ltb s.node address)) [
  | inl lt ↦ elim (Option-cases (lower_bound rest address)) [
    | inl n ↦ cc (rw (lt, n) at e)
    | inr ((j, u), f) ↦ ground (arith, lower_bound_sound rest address j u f)
  ]
  | inr ge ↦ ground arith
]

-- A record that the search returns stands at that index and has the address.
pub get_node_record_sound :
    (nodes : List NodeRecord) (address i : ℕ) (r : NodeRecord)
    → get_node_record nodes address ≡ some (i, r)
    → (get_elem? nodes i ≡ some r) × (r.node ≡ address)
unfolding get_node_record
get_node_record_sound nodes address i r e = elim (Option-cases (lower_bound nodes address)) [
  | inl n ↦ ground arith
  | inr ((j, u), f) ↦ ground (arith, lower_bound_sound nodes address j u f)
]

-- The addresses rise strictly.
abbrev pub IsAbove : ℕ → List NodeRecord → Type 0
IsAbove a [] = Unit
IsAbove a (r ∷ rest) = (a < r.node) × IsAbove a rest

abbrev pub IsSorted : List NodeRecord → Type 0
IsSorted [] = Unit
IsSorted (r ∷ rest) = IsAbove r.node rest × IsSorted rest

IsAbove-get :
    (a i : ℕ) (nodes : List NodeRecord) (r : NodeRecord)
    → IsAbove a nodes
    → get_elem? nodes i ≡ some r
    → a < r.node
IsAbove-get a i [] r h e = cc
IsAbove-get a zero (s ∷ rest) r h e = ground arith
IsAbove-get a (suc i) (s ∷ rest) r h e = IsAbove-get a i rest r h.1 e

lower_bound_complete :
    (nodes : List NodeRecord) (i : ℕ) (r : NodeRecord)
    → IsSorted nodes
    → get_elem? nodes i ≡ some r
    → lower_bound nodes r.node ≡ some (i, r)
unfolding lower_bound
lower_bound_complete [] i r h e = cc
lower_bound_complete (s ∷ rest) zero r h e = ground arith
lower_bound_complete (s ∷ rest) (suc i) r h e =
    rw (
      lt→ltb s.node r.node (IsAbove-get s.node i rest r h.0 e),
      lower_bound_complete rest i r h.1 e,
    )

-- In a sorted vector the search finds every record by its address.
pub get_node_record_complete :
    (nodes : List NodeRecord) (i : ℕ) (r : NodeRecord)
    → IsSorted nodes
    → get_elem? nodes i ≡ some r
    → get_node_record nodes r.node ≡ some (i, r)
unfolding get_node_record
get_node_record_complete nodes i r h e = ground (arith, lower_bound_complete nodes i r h e)
