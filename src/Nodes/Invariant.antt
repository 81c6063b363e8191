-- ===== src/Nodes/Invariant.antt =====
-- The node collection's invariant, and that every operation succeeds on a known node and keeps it.
use cpv_cql_driver.Common.{
  ℕ, ◌≤◌, ◌<◌, ◌≡◌, inl, inr, refl, sym, ap, ◌∙◌, List, [], ◌∷◌, ◌++◌, append-nil, append_assoc,
  true, false, arith, ◌==◌, if◌then◌else◌, Bool-cases, lt→ltb, length, length-append, length-set,
  get_elem?, get_elem?-lt, set, count, without, count-append, count-without, length-without, some,
  ok,
}
use cpv_cql_driver.Seastar.{BoundedQueue}
use cpv_cql_driver.Nodes.{NodeCollection, report_failure, report_success, drop_index}
use cpv_cql_driver.Nodes.Records.{NodeRecord, get_node_record, fault_count, fault_at}
use cpv_cql_driver.Nodes.Marks.{
  fault_at-get, fault_at-set, fault_count-set, fault_count-le, fault_count-lt,
  get_node_record_sound,
}

module _ (Q : BoundedQueue ℕ) where
  -- The queue holds the index of each node that is marked as fault, once, and no other; it has room
  -- for every node.
  pub record IsConsistent (c : NodeCollection Q) : Type 0 where
    pub nonempty : 0 < length c.all_nodes
    pub queued_once : (i : ℕ) → count i (Q.contents c.fault_node_indexes) ≡ fault_at c.all_nodes i
    pub queued_all : length (Q.contents c.fault_node_indexes) ≡ fault_count c.all_nodes
    pub room : Q.capacity c.fault_node_indexes ≡ length c.all_nodes

  pub push_room :
      (q : Q.Carrier) (i : ℕ)
      → length (Q.contents q) < Q.capacity q
      → Q.contents (Q.push q i).1 ≡ Q.contents q ++ i ∷ []
  push_room q i h = Q.contents-push q i ∙ rw (lt→ltb _ _ h)

  -- The loop of `reportSuccess` takes `index` out and keeps the order of the others.
  drop_index_lem :
      (xs ys : List ℕ) (index : ℕ) (q : Q.Carrier)
      → Q.contents q ≡ xs ++ ys
      → length (xs ++ ys) ≤ Q.capacity q
      → (Q.contents (drop_index Q (length xs) index q) ≡ ys ++ without index xs)
        × (Q.capacity (drop_index Q (length xs) index q) ≡ Q.capacity q)
  unfolding drop_index
  drop_index_lem [] ys index q e h = (e ∙ sym (append-nil ys), refl)
  drop_index_lem (x ∷ xs) ys index q e h =
      let (rest, popped, left, cap) = Q.pop_front q x (xs ++ ys) e in
      elim (Bool-cases (x == index)) [
        | inl same ↦
            let (a, b) = drop_index_lem xs ys index rest left (omega arith) in
            rw (popped, same) (a, b ∙ cap)
        | inr other ↦
            let space : length (Q.contents rest) < Q.capacity rest =
              omega (arith, ap length left) in
            let pushed : Q.contents (Q.push rest x).1 ≡ xs ++ (ys ++ x ∷ []) =
              push_room rest x space ∙ rw left (append_assoc xs ys (x ∷ [])) in
            let (a, b) = drop_index_lem xs (ys ++ x ∷ []) index (Q.push rest x).1 pushed (
              omega (
                arith,
                ap length (append_assoc xs ys (x ∷ [])),
                length-append (xs ++ ys) (x ∷ []),
                Q.capacity-push rest x,
              )) in
            rw (popped, other)
              (a ∙ append_assoc ys (x ∷ []) (without index xs), b ∙ Q.capacity-push rest x ∙ cap)
      ]

  module _ (c : NodeCollection Q) (node i : ℕ) (r : NodeRecord) (v : IsConsistent c)
      (e : get_node_record c.all_nodes node ≡ some (i, r)) where
    found : get_elem? c.all_nodes i ≡ some r
    found = (get_node_record_sound c.all_nodes node i r e).0

    in_range : i < length c.all_nodes
    in_range = get_elem?-lt c.all_nodes i r found

    -- A known node is unmarked and leaves the queue; the marks of the others stay.
    pub report_success-IsConsistent :
        (c' : NodeCollection Q) × (report_success Q c node ≡ ok c')
        × IsConsistent c'
        × ((j : ℕ) → fault_at c'.all_nodes j ≡ (if i == j then 0 else fault_at c.all_nodes j))
    unfolding report_success
    report_success-IsConsistent = elim (Bool-cases r.is_fault) [
      | inl bad ↦
          let xs = Q.contents c.fault_node_indexes in
          let good : NodeRecord = record r { is_fault = false } in
          let nodes' = set c.all_nodes i good in
          let (contents', cap) = drop_index_lem xs [] i c.fault_node_indexes (sym (append-nil xs)) (
            omega (
              arith,
              ap length (append-nil xs),
              fault_count-le c.all_nodes,
              v.queued_all,
              v.room,
            )) in
          (
            record c {
              all_nodes = nodes';
              fault_node_indexes = drop_index Q (length xs) i c.fault_node_indexes;
            },
            rw (e, report_success, bad, Q.size_lem c.fault_node_indexes),
            record {
              nonempty = omega (arith, length-set c.all_nodes i good, v.nonempty);
              queued_once = λ j. ground (
                arith,
                ap (count j) contents',
                count-without i j xs,
                v.queued_once j,
                fault_at-set c.all_nodes i j good in_range,
              );
              queued_all = ground (
                arith,
                ap length contents',
                length-without i xs,
                v.queued_once i,
                v.queued_all,
                fault_count-set c.all_nodes i good in_range,
              );
              room = omega (arith, cap, v.room, length-set c.all_nodes i good);
            },
            λ j. fault_at-set c.all_nodes i j good in_range,
          )
      | inr good ↦ (
        c,
        rw (e, report_success, good),
        v,
        λ j. ground (arith, fault_at-get c.all_nodes i r found),
      )
    ]

    -- A known node is marked, and if it was not marked yet its index is put at the end of the queue,
    -- behind the indexes that were there; if it was, the queue is left alone. The collection stays
    -- consistent, and so do the marks of the others.
    pub report_failure-IsConsistent :
        (c' : NodeCollection Q) × (report_failure Q c node ≡ ok c')
        × IsConsistent c'
        × ((j : ℕ) → fault_at c'.all_nodes j ≡ (if i == j then 1 else fault_at c.all_nodes j))
        × (Q.contents c'.fault_node_indexes ≡ (
            if r.is_fault
            then Q.contents c.fault_node_indexes
            else Q.contents c.fault_node_indexes ++ i ∷ []))
    unfolding report_failure
    report_failure-IsConsistent = elim (Bool-cases r.is_fault) [
      | inl bad ↦ (
        c,
        rw (e, report_failure, bad),
        v,
        λ j. ground (arith, fault_at-get c.all_nodes i r found),
        rw bad refl,
      )
      | inr good ↦
          let xs = Q.contents c.fault_node_indexes in
          let bad : NodeRecord = record r { is_fault = true } in
          let none_yet : fault_at c.all_nodes i ≡ 0 =
            ground (arith, fault_at-get c.all_nodes i r found) in
          let pushed =
            push_room c.fault_node_indexes i (
              omega
                (arith, fault_count-lt c.all_nodes i in_range none_yet, v.queued_all, v.room)) in
          (
            record c {
              all_nodes = set c.all_nodes i bad;
              fault_node_indexes = (Q.push c.fault_node_indexes i).1;
            },
            rw (e, report_failure, good),
            record {
              nonempty = omega (arith, length-set c.all_nodes i bad, v.nonempty);
              queued_once = λ j. ground (
                arith,
                ap (count j) pushed,
                count-append j xs (i ∷ []),
                v.queued_once j,
                none_yet,
                fault_at-set c.all_nodes i j bad in_range,
              );
              queued_all = ground (
                arith,
                ap length pushed,
                length-append xs (i ∷ []),
                v.queued_all,
                none_yet,
                fault_count-set c.all_nodes i bad in_range,
              );
              room = omega (
                arith,
                Q.capacity-push c.fault_node_indexes i,
                v.room,
                length-set c.all_nodes i bad,
              );
            },
            λ j. fault_at-set c.all_nodes i j bad in_range,
            rw good pushed,
          )
    ]
