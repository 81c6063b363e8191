-- ===== src/Tests/NodeRuns.antt =====
-- Runs of the node collection: two nodes, at the addresses 10 and 20, the first marked as fault.
use cpv_cql_driver.Common.{
  ℕ, zero, suc, ◌≤◌, ◌≡◌, refl, [], ◌∷◌, ◌++◌, true, false, arith, ◌==◌, if◌then◌else◌, count, some,
  ok,
}
use cpv_cql_driver.Seastar.{BoundedQueue, list_queue}
use cpv_cql_driver.Nodes.{NodeCollection, choose_one_node, report_success, report_failure}
use cpv_cql_driver.Nodes.Records.{fault_count, fault_at, get_node_record, lower_bound}
use cpv_cql_driver.Nodes.Invariant.{
  IsConsistent, report_success-IsConsistent, report_failure-IsConsistent,
}
use cpv_cql_driver.Nodes.Choice.{IsChosen, choose_one_node-total}

abbrev queue : BoundedQueue ℕ
queue = list_queue ℕ

abbrev two_nodes : NodeCollection queue
two_nodes = record {
  all_nodes = record { node = 10; is_fault = true } ∷ record { node = 20; is_fault = false } ∷ [];
  next_index = 1;
  fault_node_indexes = (0 ∷ [], 2);
}

two_nodes_once : (i : ℕ) → count i (0 ∷ []) ≡ fault_at two_nodes.all_nodes i
unfolding fault_at
two_nodes_once zero = refl
two_nodes_once (suc zero) = refl
two_nodes_once (suc (suc i)) = ground arith

two_nodes-IsConsistent : IsConsistent queue two_nodes
unfolding fault_count
two_nodes-IsConsistent = record {
  nonempty = omega arith;
  queued_once = two_nodes_once;
  queued_all = refl;
  room = refl;
}

first_found :
    get_node_record two_nodes.all_nodes 10 ≡ some (0, record { node = 10; is_fault = true })
unfolding get_node_record lower_bound
first_found = refl

second_found :
    get_node_record two_nodes.all_nodes 20 ≡ some (1, record { node = 20; is_fault = false })
unfolding get_node_record lower_bound
second_found = refl

report_success-IsConsistent_example :
    (c' : NodeCollection queue) × (report_success queue two_nodes 10 ≡ ok c')
    × IsConsistent queue c'
    × ((j : ℕ) → fault_at c'.all_nodes j ≡ (if 0 == j then 0 else fault_at two_nodes.all_nodes j))
report_success-IsConsistent_example =
    report_success-IsConsistent queue two_nodes 10 0 (record { node = 10; is_fault = true })
      two_nodes-IsConsistent first_found

report_failure-IsConsistent_example :
    (c' : NodeCollection queue) × (report_failure queue two_nodes 20 ≡ ok c')
    × IsConsistent queue c'
    × ((j : ℕ) → fault_at c'.all_nodes j ≡ (if 1 == j then 1 else fault_at two_nodes.all_nodes j))
    × (queue.contents c'.fault_node_indexes ≡ queue.contents two_nodes.fault_node_indexes ++ 1 ∷ [])
report_failure-IsConsistent_example =
    report_failure-IsConsistent queue two_nodes 20 1 (record { node = 20; is_fault = false })
      two_nodes-IsConsistent second_found

choose_one_node-total_example :
    (node : ℕ) × (c' : NodeCollection queue) × (choose_one_node queue two_nodes ≡ ok (node, c'))
    × IsConsistent queue c'
    × (c'.all_nodes ≡ two_nodes.all_nodes)
    × IsChosen queue two_nodes node c'
choose_one_node-total_example = choose_one_node-total queue two_nodes two_nodes-IsConsistent

distinct_addresses : (b : ℕ) → count b (20 ∷ 10 ∷ []) ≤ 1
distinct_addresses b = ground arith
