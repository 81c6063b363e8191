-- ===== src/Nodes.antt =====
-- src/Common/NodeCollectionImpl.{hpp,cpp}: which node the next connection goes to. A node is the
-- address of its NodeConfiguration.
pub mod Records
pub mod Marks
pub mod Invariant
pub mod Choice
pub mod Init
use cpv_cql_driver.Common.{
  ℕ, zero, suc, ◌+◌, ◌≡◌, List, [], ◌∷◌, ◌++◌, Bool, true, false, not, ltb, leb, ◌==◌,
  if◌then◌else◌, length, get_elem?, set, Option, none, some, Result, ok, err, ◌>>=◌,
  logic_exception, out_of_range,
}
use cpv_cql_driver.Seastar.{BoundedQueue}
use Records.{NodeRecord, make_records, sort_records, get_node_record}

pub record NodeCollection (Q : BoundedQueue ℕ) : Type 0 where
  pub all_nodes : List NodeRecord
  pub next_index : ℕ
  pub fault_node_indexes : Q.Carrier

module _ (Q : BoundedQueue ℕ) where
  -- `vector::at`, which throws std::out_of_range.
  node_at : List NodeRecord → ℕ → Result ℕ
  node_at nodes i = elim (get_elem? nodes i) [ none ↦ err out_of_range | some r ↦ ok r.node ]

  -- `auto& nodeRecord = allNodes_[nextIndex_++]; if (!nodeRecord.isFault) return`, else go on.
  pick_or :
      (NodeCollection Q → Result (ℕ × NodeCollection Q))
      → NodeCollection Q
      → Result (ℕ × NodeCollection Q)
  pick_or continue c = elim (get_elem? c.all_nodes c.next_index) [
    | none ↦ err out_of_range
    | some r ↦
        let c' = record c { next_index = c.next_index + 1 } in
        if not r.is_fault then ok (r.node, c') else continue c'
  ]

  -- The first fault node goes to the back of the queue and is tried again, if there is one.
  recover_or :
      (NodeCollection Q → Result (ℕ × NodeCollection Q))
      → NodeCollection Q
      → Result (ℕ × NodeCollection Q)
  unfolding node_at
  recover_or continue c =
      if not (Q.is_empty c.fault_node_indexes)
      then (elim (Q.pop c.fault_node_indexes) [
        | none ↦ err out_of_range
        | some (i, rest) ↦ do
          node ← node_at c.all_nodes i
          ok (node, record c { fault_node_indexes = (Q.push rest i).1 })
      ])
      else continue c

  choose_round :
      (NodeCollection Q → Result (ℕ × NodeCollection Q))
      → NodeCollection Q
      → Result (ℕ × NodeCollection Q)
  choose_round continue c =
      if leb (length c.all_nodes) c.next_index
      then recover_or (pick_or continue) (record c { next_index = 0 })
      else pick_or continue c

  choose_loop : ℕ → NodeCollection Q → Result (ℕ × NodeCollection Q)
  choose_loop zero c = err logic_exception
  choose_loop (suc rounds) c = choose_round (choose_loop rounds) c

  -- `NodeCollectionImpl::chooseOneNode`
  pub choose_one_node : NodeCollection Q → Result (ℕ × NodeCollection Q)
  choose_one_node c = choose_loop (length c.all_nodes + 1) c

  pub get_nodes_count : NodeCollection Q → ℕ
  get_nodes_count c = length c.all_nodes

  -- `NodeCollectionImpl::reportFailure`
  pub report_failure : NodeCollection Q → ℕ → Result (NodeCollection Q)
  report_failure c node = elim (get_node_record c.all_nodes node) [
    | none ↦ err logic_exception
    | some (index, r) ↦
        if not r.is_fault
        then ok (record c {
          all_nodes = set c.all_nodes index (record r { is_fault = true });
          fault_node_indexes = (Q.push c.fault_node_indexes index).1;
        })
        else ok c
  ]

  -- The loop of `reportSuccess`: every entry but `index` is popped and pushed again.
  drop_index : ℕ → ℕ → Q.Carrier → Q.Carrier
  drop_index zero index q = q
  drop_index (suc n) index q = elim (Q.pop q) [
    | none ↦ q
    | some (i, rest) ↦ drop_index n index (if not (i == index) then (Q.push rest i).1 else rest)
  ]

  -- `NodeCollectionImpl::reportSuccess`
  pub report_success : NodeCollection Q → ℕ → Result (NodeCollection Q)
  report_success c node = elim (get_node_record c.all_nodes node) [
    | none ↦ err logic_exception
    | some (index, r) ↦
        if r.is_fault
        then ok (record c {
          all_nodes = set c.all_nodes index (record r { is_fault = false });
          fault_node_indexes = drop_index (Q.size c.fault_node_indexes) index c.fault_node_indexes;
        })
        else ok c
  ]

  -- The constructor; `addresses` are the addresses at which the nodes are allocated.
  pub make_node_collection : List ℕ → Result (NodeCollection Q)
  make_node_collection [] = err logic_exception
  make_node_collection (a ∷ addresses) = ok (record {
    all_nodes = sort_records (make_records (a ∷ addresses));
    next_index = 0;
    fault_node_indexes = Q.make (length (a ∷ addresses));
  })
