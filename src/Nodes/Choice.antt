-- ===== src/Nodes/Choice.antt =====
-- Which node `chooseOneNode` returns, and that it always returns one.
use cpv_cql_driver.Common.{
  ℕ, zero, suc, ◌+◌, ◌<◌, ◌≡◌, inl, inr, refl, ap, ◌∙◌, List, [], ◌∷◌, ◌++◌, true, false, arith,
  leb, Bool-cases, length, length-append, get_elem?, get_elem?_lt, count, count-append, some,
  Result, ok,
}
use cpv_cql_driver.Seastar.{BoundedQueue}
use cpv_cql_driver.Nodes.{
  NodeCollection, node_at, pick_or, recover_or, choose_round, choose_loop, choose_one_node,
}
use cpv_cql_driver.Nodes.Records.{NodeRecord, fault_at}
use cpv_cql_driver.Nodes.Marks.{fault_at-get, fault_count-le}
use cpv_cql_driver.Nodes.Invariant.{IsConsistent, push_room}

module _ (Q : BoundedQueue ℕ) where
  -- Either a node that is not marked, with the queue left alone, or the node at the front of the
  -- queue, which goes to its back.
  pub data IsChosen (c : NodeCollection Q) (node : ℕ) (c' : NodeCollection Q) : Type 0 where
    healthy :
        (i : ℕ) (r : NodeRecord)
        → get_elem? c.all_nodes i ≡ some r
        → r.is_fault ≡ false
        → r.node ≡ node
        → c'.fault_node_indexes ≡ c.fault_node_indexes
        → IsChosen c node c'
    recovered :
        (i : ℕ) (r : NodeRecord) (rest : List ℕ)
        → get_elem? c.all_nodes i ≡ some r
        → r.node ≡ node
        → Q.contents c.fault_node_indexes ≡ i ∷ rest
        → Q.contents c'.fault_node_indexes ≡ rest ++ i ∷ []
        → IsChosen c node c'

  abbrev Choice : NodeCollection Q → Result (ℕ × NodeCollection Q) → Type 0
  Choice c result =
      (node : ℕ) × (c' : NodeCollection Q) × (result ≡ ok (node, c'))
      × IsConsistent Q c'
      × (c'.all_nodes ≡ c.all_nodes)
      × IsChosen c node c'

  fault_at-lt : (nodes : List NodeRecord) (i : ℕ) → 0 < fault_at nodes i → i < length nodes
  fault_at-lt [] i h = unfold fault_at in absurd (omega arith)
  fault_at-lt (r ∷ rest) zero h = omega arith
  fault_at-lt (r ∷ rest) (suc i) h = omega (arith, fault_at-lt rest i (unfold fault_at in h))

  module _ (c : NodeCollection Q) (v : IsConsistent Q c) where
    recover_lem :
        (continue : NodeCollection Q → Result (ℕ × NodeCollection Q)) (i : ℕ) (rest : List ℕ)
        → Q.contents c.fault_node_indexes ≡ i ∷ rest
        → Choice c (recover_or Q continue c)
    unfolding recover_or node_at
    recover_lem continue i rest e =
        let q = c.fault_node_indexes in
        let (q', popped, left, cap) = Q.pop_front q i rest e in
        let marked : 0 < fault_at c.all_nodes i = ground (arith, ap (count i) e, v.queued_once i) in
        let (r, at) = get_elem?_lt c.all_nodes i (fault_at-lt c.all_nodes i marked) in
        let busy : Q.is_empty q ≡ false = ground (arith, Q.is_empty_lem q, ap length e) in
        let pushed : Q.contents (Q.push q' i).1 ≡ rest ++ i ∷ [] =
          push_room Q q' i (
            omega (
              arith,
              ap length left,
              ap length e,
              cap,
              v.room,
              v.queued_all,
              fault_count-le c.all_nodes,
            ))
          ∙ ap (λ xs. xs ++ i ∷ []) left in
        (
          r.node,
          record c { fault_node_indexes = (Q.push q' i).1 },
          rw (busy, popped, at, node_at),
          record {
            nonempty = v.nonempty;
            queued_once = λ j. ground (
              arith,
              ap (count j) pushed,
              count-append j rest (i ∷ []),
              ap (count j) e,
              v.queued_once j,
            );
            queued_all =
                omega
                  (arith, ap length pushed, length-append rest (i ∷ []), ap length e, v.queued_all);
            room = omega (arith, Q.capacity-push q' i, cap, v.room);
          },
          refl,
          recovered i r rest at refl e pushed,
        )

    -- A record without a mark is returned, and the index moves on.
    pick_healthy :
        (continue : NodeCollection Q → Result (ℕ × NodeCollection Q)) (r : NodeRecord)
        → get_elem? c.all_nodes c.next_index ≡ some r
        → r.is_fault ≡ false
        → Choice c (pick_or Q continue c)
    unfolding pick_or
    pick_healthy continue r e good = (
      r.node,
      record c { next_index = c.next_index + 1 },
      rw (e, pick_or, good),
      record {
        nonempty = v.nonempty;
        queued_once = v.queued_once;
        queued_all = v.queued_all;
        room = v.room;
      },
      refl,
      healthy c.next_index r e good refl refl,
    )

    -- A marked record is passed over.
    pick_fault :
        (continue : NodeCollection Q → Result (ℕ × NodeCollection Q)) (r : NodeRecord)
        → get_elem? c.all_nodes c.next_index ≡ some r
        → r.is_fault ≡ true
        → pick_or Q continue c ≡ continue (record c { next_index = c.next_index + 1 })
    unfolding pick_or
    pick_fault continue r e bad = rw (e, pick_or, bad)

    -- With an empty queue no record is marked, so the one at the index is returned.
    pick_empty :
        (continue : NodeCollection Q → Result (ℕ × NodeCollection Q))
        → c.next_index < length c.all_nodes
        → Q.contents c.fault_node_indexes ≡ []
        → Choice c (pick_or Q continue c)
    pick_empty continue h e =
        let (r, at) = get_elem?_lt c.all_nodes c.next_index h in
        pick_healthy continue r at (
          ground (
            arith,
            fault_at-get c.all_nodes c.next_index r at,
            v.queued_once c.next_index,
            ap (count c.next_index) e,
          ))

  moved :
      (c : NodeCollection Q) (n : ℕ)
      → IsConsistent Q c
      → IsConsistent Q (record c { next_index = n })
  moved c n v = record {
    nonempty = v.nonempty;
    queued_once = v.queued_once;
    queued_all = v.queued_all;
    room = v.room;
  }

  -- What is chosen after the index moved is chosen from the collection as it was.
  unmoved :
      (c : NodeCollection Q) (n : ℕ) (result : Result (ℕ × NodeCollection Q))
      → Choice (record c { next_index = n }) result
      → Choice c result
  unmoved c n result (node, c', e, v, same, healthy i r at good is left) =
      (node, c', e, v, same, healthy i r at good is left)
  unmoved c n result (node, c', e, v, same, recovered i r rest at is was now) =
      (node, c', e, v, same, recovered i r rest at is was now)

  wrap :
      (continue : NodeCollection Q → Result (ℕ × NodeCollection Q)) (c : NodeCollection Q)
      → IsConsistent Q c
      → c.next_index ≡ 0
      → (xs : List ℕ) → Q.contents c.fault_node_indexes ≡ xs
      → Choice c (recover_or Q (pick_or Q continue) c)
  wrap continue c v zeroed [] e =
      let idle : Q.is_empty c.fault_node_indexes ≡ true =
        ground (arith, Q.is_empty_lem c.fault_node_indexes, ap length e) in
      unfold recover_or in rw idle (pick_empty c v continue (omega (arith, v.nonempty)) e)
  wrap continue c v zeroed (i ∷ rest) e = recover_lem c v (pick_or Q continue) i rest e

  choose_loop_lem :
      (rounds : ℕ) (c : NodeCollection Q)
      → IsConsistent Q c
      → 0 < rounds
      → length c.all_nodes < rounds + c.next_index
      → Choice c (choose_loop Q rounds c)
  unfolding choose_loop choose_round
  choose_loop_lem zero c v pos h = absurd (omega arith)
  choose_loop_lem (suc rounds) c v pos h =
      elim (Bool-cases (leb (length c.all_nodes) c.next_index)) [
        | inl end ↦ rw end (
            unmoved c 0 _
              (wrap (choose_loop Q rounds) (record c { next_index = 0 }) (moved c 0 v) refl _ refl))
        | inr more ↦
            let lt : c.next_index < length c.all_nodes = ground arith in
            let (r, at) = get_elem?_lt c.all_nodes c.next_index lt in
            rw more (elim (Bool-cases r.is_fault) [
              | inl bad ↦ rw (pick_fault c v (choose_loop Q rounds) r at bad) (
                  unmoved c (c.next_index + 1) _ (
                    choose_loop_lem rounds (record c { next_index = c.next_index + 1 })
                      (moved c (c.next_index + 1) v) (omega arith) (omega arith)))
              | inr good ↦ pick_healthy c v (choose_loop Q rounds) r at good
            ])
      ]

  -- On a consistent collection `chooseOneNode` never throws: it returns a node that is not marked as
  -- fault and leaves the queue of the marked nodes alone, or it returns the node at the front of
  -- that queue and moves it to the back. The collection stays consistent and its records are left
  -- alone.
  pub choose_one_node-total :
      (c : NodeCollection Q)
      → IsConsistent Q c
      → (node : ℕ) × (c' : NodeCollection Q) × (choose_one_node Q c ≡ ok (node, c'))
        × IsConsistent Q c'
        × (c'.all_nodes ≡ c.all_nodes)
        × IsChosen c node c'
  unfolding choose_one_node
  choose_one_node-total c v =
      choose_loop_lem (length c.all_nodes + 1) c v (omega arith) (omega arith)
