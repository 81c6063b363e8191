-- ===== src/Nodes/Init.antt =====
-- The collection that the constructor makes: consistent, and every node is found again.
use cpv_cql_driver.Common.{
  ℕ, zero, suc, ◌≤◌, ◌<◌, ◌≡◌, refl, ap, subst, ◌∙◌, List, [], ◌∷◌, false, arith, ltb, ◌==◌,
  Bool-cases, inl, inr, ltb→lt, length, get_elem?, count, some, ok,
}
use cpv_cql_driver.Seastar.{BoundedQueue}
use cpv_cql_driver.Nodes.{NodeCollection, make_node_collection}
use cpv_cql_driver.Nodes.Records.{
  NodeRecord, make_records, insert_record, sort_records, get_node_record, fault_count, fault_at,
}
use cpv_cql_driver.Nodes.Marks.{IsAbove, IsSorted, get_node_record_complete}
use cpv_cql_driver.Nodes.Invariant.{IsConsistent}

abbrev addresses_of : List NodeRecord → List ℕ
addresses_of [] = []
addresses_of (r ∷ rest) = r.node ∷ addresses_of rest

abbrev AllHealthy : List NodeRecord → Type 0
AllHealthy [] = Unit
AllHealthy (r ∷ rest) = (r.is_fault ≡ false) × AllHealthy rest

make_records-AllHealthy : (xs : List ℕ) → AllHealthy (make_records xs)
unfolding make_records
make_records-AllHealthy [] = tt
make_records-AllHealthy (x ∷ xs) = (refl, make_records-AllHealthy xs)

addresses-make_records : (xs : List ℕ) → addresses_of (make_records xs) ≡ xs
unfolding make_records
addresses-make_records [] = refl
addresses-make_records (x ∷ xs) = ap (◌∷◌ x) (addresses-make_records xs)

insert-AllHealthy :
    (r : NodeRecord) (rs : List NodeRecord)
    → r.is_fault ≡ false
    → AllHealthy rs
    → AllHealthy (insert_record r rs)
unfolding insert_record
insert-AllHealthy r [] h k = (h, tt)
insert-AllHealthy r (s ∷ rs) h k = ground (arith, insert-AllHealthy r rs h k.1)

sort-AllHealthy : (rs : List NodeRecord) → AllHealthy rs → AllHealthy (sort_records rs)
unfolding sort_records
sort-AllHealthy [] h = tt
sort-AllHealthy (r ∷ rs) h = insert-AllHealthy r (sort_records rs) h.0 (sort-AllHealthy rs h.1)

AllHealthy-get :
    (rs : List NodeRecord) (i : ℕ) (r : NodeRecord)
    → AllHealthy rs
    → get_elem? rs i ≡ some r
    → r.is_fault ≡ false
AllHealthy-get [] i r h e = cc
AllHealthy-get (s ∷ rs) zero r h e = ground arith
AllHealthy-get (s ∷ rs) (suc i) r h e = AllHealthy-get rs i r h.1 e

AllHealthy-fault_at : (rs : List NodeRecord) (i : ℕ) → AllHealthy rs → fault_at rs i ≡ 0
unfolding fault_at
AllHealthy-fault_at [] i h = refl
AllHealthy-fault_at (r ∷ rs) zero h = ground arith
AllHealthy-fault_at (r ∷ rs) (suc i) h = AllHealthy-fault_at rs i h.1

AllHealthy-fault_count : (rs : List NodeRecord) → AllHealthy rs → fault_count rs ≡ 0
unfolding fault_count
AllHealthy-fault_count [] h = refl
AllHealthy-fault_count (r ∷ rs) h = ground (arith, AllHealthy-fault_count rs h.1)

length-insert :
    (r : NodeRecord) (rs : List NodeRecord) → length (insert_record r rs) ≡ suc (length rs)
unfolding insert_record
length-insert r [] = refl
length-insert r (s ∷ rs) = ground (arith, length-insert r rs)

length-sort : (rs : List NodeRecord) → length (sort_records rs) ≡ length rs
unfolding sort_records
length-sort [] = refl
length-sort (r ∷ rs) = omega (arith, length-insert r (sort_records rs), length-sort rs)

length-make_records : (xs : List ℕ) → length (make_records xs) ≡ length xs
unfolding make_records
length-make_records [] = refl
length-make_records (x ∷ xs) = omega (arith, length-make_records xs)

count-insert :
    (a : ℕ) (r : NodeRecord) (rs : List NodeRecord)
    → count a (addresses_of (insert_record r rs)) ≡ count a (addresses_of (r ∷ rs))
unfolding insert_record
count-insert a r [] = refl
count-insert a r (s ∷ rs) = ground (arith, count-insert a r rs)

count-sort :
    (a : ℕ) (rs : List NodeRecord)
    → count a (addresses_of (sort_records rs)) ≡ count a (addresses_of rs)
unfolding sort_records
count-sort a [] = refl
count-sort a (r ∷ rs) = omega (arith, count-insert a r (sort_records rs), count-sort a rs)

insert-IsAbove :
    (b : ℕ) (r : NodeRecord) (rs : List NodeRecord)
    → b < r.node
    → IsAbove b rs
    → IsAbove b (insert_record r rs)
unfolding insert_record
insert-IsAbove b r [] h k = (h, tt)
insert-IsAbove b r (s ∷ rs) h k = ground (arith, insert-IsAbove b r rs h k.1)

IsAbove-mono : (a b : ℕ) (rs : List NodeRecord) → a ≤ b → IsAbove b rs → IsAbove a rs
IsAbove-mono a b [] h k = tt
IsAbove-mono a b (r ∷ rs) h k = (omega arith, IsAbove-mono a b rs h k.1)

insert-IsSorted :
    (r : NodeRecord) (rs : List NodeRecord)
    → count r.node (addresses_of rs) ≡ 0
    → IsSorted rs
    → IsSorted (insert_record r rs)
unfolding insert_record
insert-IsSorted r [] h k = (tt, tt)
insert-IsSorted r (s ∷ rs) h k = elim (Bool-cases (ltb s.node r.node)) [
  | inl lt ↦
      rw lt
        (insert-IsAbove s.node r rs (ltb→lt _ _ lt) k.0, insert-IsSorted r rs (ground arith) k.1)
  | inr ge ↦
      let below : r.node < s.node = ground arith in
      rw ge ((below, IsAbove-mono r.node s.node rs (omega arith) k.0), k)
]

sort-IsSorted :
    (rs : List NodeRecord) → ((a : ℕ) → count a (addresses_of rs) ≤ 1) → IsSorted (sort_records rs)
unfolding sort_records
sort-IsSorted [] h = tt
sort-IsSorted (r ∷ rs) h =
    insert-IsSorted r (sort_records rs) (ground (arith, count-sort r.node rs, h r.node))
      (sort-IsSorted rs (λ a. ground (arith, h a)))

at_address :
    (a : ℕ) (rs : List NodeRecord)
    → 0 < count a (addresses_of rs)
    → (i : ℕ) × (r : NodeRecord) × (get_elem? rs i ≡ some r) × (r.node ≡ a)
at_address a [] h = absurd (omega arith)
at_address a (r ∷ rs) h = elim (Bool-cases (r.node == a)) [
  | inl same ↦ (0, r, refl, ground arith)
  | inr other ↦ let (i, s, at, is) = at_address a rs (ground arith) in (suc i, s, at, is)
]

module _ (Q : BoundedQueue ℕ) (a : ℕ) (addresses : List ℕ)
    (distinct : (b : ℕ) → count b (a ∷ addresses) ≤ 1) where
  nodes : List NodeRecord
  nodes = sort_records (make_records (a ∷ addresses))

  collection : NodeCollection Q
  unfolding nodes
  collection = record {
    all_nodes = nodes;
    next_index = 0;
    fault_node_indexes = Q.make (length (a ∷ addresses));
  }

  made : make_node_collection Q (a ∷ addresses) ≡ ok collection
  unfolding make_node_collection collection nodes
  made = refl

  healthy : AllHealthy nodes
  unfolding nodes
  healthy = sort-AllHealthy (make_records (a ∷ addresses)) (make_records-AllHealthy (a ∷ addresses))

  length-nodes : length nodes ≡ length (a ∷ addresses)
  unfolding nodes
  length-nodes = length-sort (make_records (a ∷ addresses)) ∙ length-make_records (a ∷ addresses)

  count-nodes : (b : ℕ) → count b (addresses_of nodes) ≡ count b (a ∷ addresses)
  unfolding nodes
  count-nodes b =
      count-sort b (make_records (a ∷ addresses))
      ∙ ap (count b) (addresses-make_records (a ∷ addresses))

  sorted : IsSorted nodes
  unfolding nodes
  sorted =
      sort-IsSorted (make_records (a ∷ addresses))
        (λ b. omega (arith, ap (count b) (addresses-make_records (a ∷ addresses)), distinct b))

  -- From nodes at distinct addresses, at least one, the constructor makes a consistent collection of
  -- as many records, sorted by address.
  pub make-IsConsistent :
      (c : NodeCollection Q) × (make_node_collection Q (a ∷ addresses) ≡ ok c)
      × IsConsistent Q c
      × IsSorted c.all_nodes
      × (length c.all_nodes ≡ length (a ∷ addresses))
  unfolding collection
  make-IsConsistent = (
    collection,
    made,
    record {
      nonempty = omega (arith, length-nodes);
      queued_once = λ j.
          ap (count j) (Q.contents-make (length (a ∷ addresses)))
          ∙ rw (AllHealthy-fault_at nodes j healthy);
      queued_all =
          ap length (Q.contents-make (length (a ∷ addresses)))
          ∙ rw (AllHealthy-fault_count nodes healthy);
      room = Q.capacity-make (length (a ∷ addresses)) ∙ omega (arith, length-nodes);
    },
    sorted,
    length-nodes,
  )

  -- In that collection the search finds the record of every node that was given, and it is not
  -- marked as fault.
  pub make-finds :
      (b : ℕ)
      → 0 < count b (a ∷ addresses)
      → (c : NodeCollection Q) × (i : ℕ) × (r : NodeRecord) × (make_node_collection Q
            (a ∷ addresses)
          ≡ ok c)
        × (get_node_record c.all_nodes b ≡ some (i, r))
        × (r.is_fault ≡ false)
  unfolding collection
  make-finds b known =
      let (i, r, at, is) = at_address b nodes (omega (arith, count-nodes b, known)) in
      (
        collection,
        i,
        r,
        made,
        subst (λ x. get_node_record nodes x ≡ some (i, r)) is
            (get_node_record_complete nodes i r sorted at),
        AllHealthy-get nodes i r healthy at,
      )
