-- ===== src/Session/BatchErrors.antt =====
-- What batchExecute forgets after an error.
use cpv_cql_driver.Common.{
  ℕ, ◌≡◌, List, [], ◌∷◌, Bool, false, ◌&&◌, ◌||◌, arith, ◌==◌, if◌then◌else◌, Bool-cases, inl, inr,
  Bytes,
}
use cpv_cql_driver.Session.Cache.{
  Caches, get_prepared_query_id, set_prepared_query_id, bytes_eq, get-set,
}
use cpv_cql_driver.Session.Retry.{LoopState, is_some_true, is_first_un_prepared}
use cpv_cql_driver.Session.Batch.{BatchQuery, BatchCommand, evict_queries, handle_batch_error}

-- Some query of the list has this text and is to be prepared.
abbrev pub is_prepared_in : List BatchQuery → Bytes → Bool
is_prepared_in [] text = false
is_prepared_in (q ∷ queries) text =
    (is_some_true q.need_prepare && bytes_eq q.query text) || is_prepared_in queries text

evicted :
    (queries : List BatchQuery) (node : ℕ) (caches : Caches) (n : ℕ) (text : Bytes)
    → get_prepared_query_id (evict_queries queries node caches) n text ≡ (
        if n == node && is_prepared_in queries text
        then []
        else get_prepared_query_id caches n text)
unfolding evict_queries
evicted [] node caches n text = ground arith
evicted (q ∷ queries) node caches n text = elim (Bool-cases (is_some_true q.need_prepare)) [
  | inl yes' ↦
      rw (yes', evict_queries)
        (ground (
          arith,
          evicted queries node (set_prepared_query_id caches node q.query []) n text,
          get-set caches node q.query [] n text,
        ))
  | inr no' ↦ rw (no', evict_queries) (evicted queries node caches n text)
]

-- After an ERROR message a batch forgets, on the first unprepared query only, the node's ids of all
-- its queries that are to be prepared, and no other id.
pub handle_batch_error-forgets :
    (command : BatchCommand) (node code : ℕ) (s : LoopState) (n : ℕ) (text : Bytes)
    → get_prepared_query_id (handle_batch_error command node code s).1.caches n text ≡ (
        if is_first_un_prepared code s.flow && n == node && is_prepared_in command.queries text
        then []
        else get_prepared_query_id s.caches n text)
unfolding handle_batch_error
handle_batch_error-forgets command node code s n text =
    ground (arith, evicted command.queries node s.caches n text)
