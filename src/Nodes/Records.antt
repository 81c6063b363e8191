-- ===== src/Nodes/Records.antt =====
-- NodeCollectionImpl::NodeRecord, `getNodeRecord` and the sorted vector that it searches.
use cpv_cql_driver.Common.{
  ℕ, zero, suc, ◌+◌, List, [], ◌∷◌, Bool, false, not, ltb, ◌==◌, if◌then◌else◌, Option, none, some,
}

pub record NodeRecord : Type 0 where
  pub node : ℕ
  pub is_fault : Bool

unfoldable pub make_records : List ℕ → List NodeRecord
make_records [] = []
make_records (a ∷ addresses) = record { node = a; is_fault = false } ∷ make_records addresses

-- `std::sort` by address.
unfoldable pub insert_record : NodeRecord → List NodeRecord → List NodeRecord
insert_record r [] = r ∷ []
insert_record r (s ∷ rest) = if ltb s.node r.node then s ∷ insert_record r rest else r ∷ s ∷ rest

unfoldable pub sort_records : List NodeRecord → List NodeRecord
sort_records [] = []
sort_records (r ∷ rest) = insert_record r (sort_records rest)

-- `std::lower_bound`: the first record whose address is not below `address`, with its index.
unfoldable pub lower_bound : List NodeRecord → ℕ → Option (ℕ × NodeRecord)
lower_bound [] address = none
lower_bound (r ∷ rest) address =
    if ltb r.node address
    then (elim (lower_bound rest address) [ none ↦ none | some (i, s) ↦ some (suc i, s) ])
    else some (0, r)

-- `getNodeRecord`; `none` is `allNodes_.end()`.
unfoldable pub get_node_record : List NodeRecord → ℕ → Option (ℕ × NodeRecord)
get_node_record nodes address = elim (lower_bound nodes address) [
  | none ↦ none
  | some (i, r) ↦ if not (r.node == address) then none else some (i, r)
]

-- How many records are marked as fault, and whether the one at an index is (1) or not (0).
unfoldable pub fault_count : List NodeRecord → ℕ
fault_count [] = 0
fault_count (r ∷ rest) = (if r.is_fault then 1 else 0) + fault_count rest

unfoldable pub fault_at : List NodeRecord → ℕ → ℕ
fault_at [] i = 0
fault_at (r ∷ rest) zero = if r.is_fault then 1 else 0
fault_at (r ∷ rest) (suc i) = fault_at rest i
