-- ===== src/Batch/Body.antt =====
-- BatchMessage::encodeBody: the queries, each once for every set of its parameters.
use cpv_cql_driver.Common.{
  ℕ, ◌+◌, ◌%◌, ◌^◌, List, [], ◌∷◌, ◌++◌, not, ◌==◌, if◌then◌else◌, length, get_elem?, none, some,
  Result, ok, err, ◌>>=◌, logic_exception, Bytes,
}
use cpv_cql_driver.Protocol.Integer.{be_bytes}
use cpv_cql_driver.Protocol.Integer
use cpv_cql_driver.Batch.Parameters.{BatchQueryData, BatchParameters, encode_parameters}

-- "<n>, sum(parameter set count for query in queries)".
abbrev pub sets_count : List (ℕ × Bytes) → ℕ
sets_count [] = 1
sets_count (set ∷ sets) = length (set ∷ sets)

unfoldable pub query_count : List BatchQueryData → ℕ
query_count [] = 0
query_count (q ∷ queries) = sets_count q.parameter_sets + query_count queries

-- `getPreparedQueryId(i)`, empty out of range.
unfoldable pub prepared_query_id : List Bytes → ℕ → Bytes
prepared_query_id ids i = elim (get_elem? ids i) [ none ↦ [] | some id ↦ id ]

-- <kind><string_or_id>; the sizes are converted to [int] and [short] without a check.
unfoldable pub encode_head : Bytes → Bytes → Bytes → Bytes
encode_head query [] buffer =
    Integer.encode 4 (length query % 2 ^ 32) (Integer.encode 1 0 buffer) ++ query
encode_head query (b ∷ id) buffer =
    Integer.encode 2 (length (b ∷ id) % 2 ^ 16) (Integer.encode 1 1 buffer) ++ (b ∷ id)

-- The loop over the parameter sets, with `queryCountVerify`.
unfoldable pub encode_sets : Bytes → Bytes → List (ℕ × Bytes) → ℕ → Bytes → Result (ℕ × Bytes)
encode_sets query id [] verify buffer = ok (verify, buffer)
encode_sets query id ((count, parameters) ∷ sets) verify buffer =
    let next = Integer.encode 2 (count % 2 ^ 16) (encode_head query id buffer) ++ parameters in
    let rest = encode_sets query id sets (verify + 1) next in
    if not (count % 2 ^ 16 == count) then err logic_exception else rest

-- One query; without a parameter set it is executed once.
unfoldable pub encode_query : Bytes → BatchQueryData → ℕ → Bytes → Result (ℕ × Bytes)
encode_query id q verify buffer = elim q.parameter_sets [
  | [] ↦ ok (verify + 1, Integer.encode 2 0 (encode_head q.query_str id buffer))
  | set ∷ sets ↦ encode_sets q.query_str id (set ∷ sets) verify buffer
]

unfoldable pub encode_queries :
    List Bytes → ℕ → List BatchQueryData → ℕ → Bytes → Result (ℕ × Bytes)
encode_queries ids i [] verify buffer = ok (verify, buffer)
encode_queries ids i (q ∷ queries) verify buffer =
    encode_query (prepared_query_id ids i) q verify buffer >>= λ r.
    encode_queries ids (i + 1) queries r.0 r.1

-- `BatchMessage::encodeBody`
unfoldable pub encode_body : BatchParameters → List Bytes → Bytes → Result Bytes
encode_body p ids buffer =
    let command = p.command in
    let count = query_count command.queries in
    let start =
      Integer.encode 2 (count % 2 ^ 16) (Integer.encode 1 (command.batch_type % 256) buffer) in
    if not command.is_valid
    then err logic_exception
    else if not (count % 2 ^ 16 == count)
    then err logic_exception
    else (encode_queries ids 0 command.queries 0 start >>= λ r.
        if not (count == r.0) then err logic_exception else encode_parameters p r.1)
