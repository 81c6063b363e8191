-- ===== src/Batch/Statements.antt =====
-- The body of a batch as the list of its statements.
use cpv_cql_driver.Common.{
  ℕ, ◌+◌, ◌%◌, ◌^◌, ◌≡◌, inl, inr, refl, sym, ap, ap₂, ◌∙◌, zero, suc, drop, List, [], ◌∷◌, ◌++◌,
  append-nil, append_assoc, Bool, true, false, arith, ltb, ◌==◌, eq→==, if◌then◌else◌, Bool-cases,
  List-cases, length, length-append, Result, ok, err, ◌>>=◌, logic_exception, Bytes,
}
use cpv_cql_driver.Protocol.Integer.{be_bytes}
use cpv_cql_driver.Protocol.Integer
use cpv_cql_driver.Batch.Parameters.{BatchQueryData, BatchParameters, encode_parameters}
use cpv_cql_driver.Batch.Body.{
  sets_count, query_count, prepared_query_id, encode_head, encode_sets, encode_query,
  encode_queries, encode_body,
}

-- The statements of the batch: a query's text or id with a set of its parameters.
pub record Statement : Type 0 where
  pub query : Bytes
  pub id : Bytes
  pub count : ℕ
  pub parameters : Bytes

abbrev pub with_sets : Bytes → Bytes → List (ℕ × Bytes) → List Statement
with_sets query id [] = []
with_sets query id ((count, parameters) ∷ sets) =
    record { query = query; id = id; count = count; parameters = parameters }
    ∷ with_sets query id sets

abbrev pub executions : BatchQueryData → Bytes → List Statement
executions q id = elim q.parameter_sets [
  | [] ↦ record { query = q.query_str; id = id; count = 0; parameters = [] } ∷ []
  | set ∷ sets ↦ with_sets q.query_str id (set ∷ sets)
]

-- The queries with their ids, in order; a query beyond the ids has none.
abbrev pub statements : List Bytes → List BatchQueryData → List Statement
statements ids [] = []
statements [] (q ∷ queries) = executions q [] ++ statements [] queries
statements (id ∷ ids) (q ∷ queries) = executions q id ++ statements ids queries

-- <kind><string_or_id>: kind 0 and the text as [long string], or kind 1 and the id as [short bytes].
abbrev pub text_or_id : Bytes → Bytes → Bytes
text_or_id query [] = (be_bytes 1 0 ++ be_bytes 4 (length query % 2 ^ 32)) ++ query
text_or_id query (b ∷ id) = (be_bytes 1 1 ++ be_bytes 2 (length (b ∷ id) % 2 ^ 16)) ++ (b ∷ id)

abbrev pub statement_bytes : Statement → Bytes
statement_bytes s = text_or_id s.query s.id ++ be_bytes 2 s.count ++ s.parameters

abbrev pub all_bytes : List Statement → Bytes
all_bytes [] = []
all_bytes (s ∷ rest) = statement_bytes s ++ all_bytes rest

-- A number of parameters that does not fit a [short].
abbrev pub is_any_too_long : List Statement → Bool
is_any_too_long [] = false
is_any_too_long (s ∷ rest) =
    let later = is_any_too_long rest in if ltb s.count (2 ^ 16) then later else true

encode_head_lem :
    (query id buffer : Bytes) → encode_head query id buffer ≡ buffer ++ text_or_id query id
unfolding encode_head Integer.encode
encode_head_lem query [] buffer =
    ap (λ xs. xs ++ query) (append_assoc buffer (be_bytes 1 0) (be_bytes 4 (length query % 2 ^ 32)))
    ∙ append_assoc buffer (be_bytes 1 0 ++ be_bytes 4 (length query % 2 ^ 32)) query
encode_head_lem query (b ∷ id) buffer =
    ap (λ xs. xs ++ (b ∷ id))
      (append_assoc buffer (be_bytes 1 1) (be_bytes 2 (length (b ∷ id) % 2 ^ 16)))
    ∙ append_assoc buffer (be_bytes 1 1 ++ be_bytes 2 (length (b ∷ id) % 2 ^ 16)) (b ∷ id)

-- What a list of statements leaves of a count and a buffer.
written : List Statement → ℕ → Bytes → Result (ℕ × Bytes)
written xs verify buffer =
    if is_any_too_long xs
    then err logic_exception
    else ok (verify + length xs, buffer ++ all_bytes xs)

one_statement :
    (s : Statement) (buffer : Bytes)
    → Integer.encode 2 s.count (encode_head s.query s.id buffer) ++ s.parameters
      ≡ buffer ++ statement_bytes s
unfolding Integer.encode
one_statement s buffer = rw (encode_head_lem s.query s.id buffer) (
    ap (λ xs. xs ++ s.parameters)
      (append_assoc buffer (text_or_id s.query s.id) (be_bytes 2 s.count))
    ∙ append_assoc buffer (text_or_id s.query s.id ++ be_bytes 2 s.count) s.parameters)

written_step :
    (s : Statement) (rest : List Statement) (verify : ℕ) (buffer : Bytes)
    → ltb s.count (2 ^ 16) ≡ true
    → written rest (verify + 1) (buffer ++ statement_bytes s) ≡ written (s ∷ rest) verify buffer
unfolding written
written_step s rest verify buffer h = elim (Bool-cases (is_any_too_long rest)) [
  | inl long ↦ rw (h, long) refl
  | inr short ↦
      rw (h, short)
        (ap₂ (λ n xs. ok (n, xs)) (omega arith)
          (append_assoc buffer (statement_bytes s) (all_bytes rest)))
]

encode_sets_lem :
    (query id : Bytes) (sets : List (ℕ × Bytes)) (verify : ℕ) (buffer : Bytes)
    → encode_sets query id sets verify buffer ≡ written (with_sets query id sets) verify buffer
unfolding encode_sets written
encode_sets_lem query id [] verify buffer =
    ap₂ (λ n xs. ok (n, xs)) (omega arith) (sym (append-nil buffer))
encode_sets_lem query id ((count, parameters) ∷ sets) verify buffer =
    let s : Statement = record { query = query; id = id; count = count; parameters = parameters } in
    elim (Bool-cases (ltb count (2 ^ 16))) [
      | inr long ↦
          let differs : (count % 2 ^ 16 == count) ≡ false = ground (arith, long) in
          rw (differs, long) refl
      | inl fits ↦
          let e : count % 2 ^ 16 ≡ count = ground (arith, fits) in
          rw (e, eq→== count count refl)
            (ap (encode_sets query id sets (verify + 1)) (one_statement s buffer)
              ∙ encode_sets_lem query id sets (verify + 1) (buffer ++ statement_bytes s)
              ∙ written_step s (with_sets query id sets) verify buffer fits)
    ]

encode_query_lem :
    (id : Bytes) (q : BatchQueryData) (verify : ℕ) (buffer : Bytes)
    → encode_query id q verify buffer ≡ written (executions q id) verify buffer
unfolding encode_query written
encode_query_lem id q verify buffer = elim (List-cases q.parameter_sets) [
  | inl none' ↦
      let s : Statement = record { query = q.query_str; id = id; count = 0; parameters = [] } in
      let head : Bytes = Integer.encode 2 0 (encode_head q.query_str id buffer) in
      rw (none', encode_query)
        (ap (λ xs. ok (verify + 1, xs))
          (sym (append-nil head)
            ∙ one_statement s buffer
            ∙ ap (◌++◌ buffer) (sym (append-nil (statement_bytes s)))))
  | inr (set, sets, some') ↦
      rw (some', encode_query) (encode_sets_lem q.query_str id (set ∷ sets) verify buffer)
]

all_bytes-append : (xs ys : List Statement) → all_bytes (xs ++ ys) ≡ all_bytes xs ++ all_bytes ys
all_bytes-append [] ys = refl
all_bytes-append (x ∷ xs) ys =
    ap (◌++◌ (statement_bytes x)) (all_bytes-append xs ys)
    ∙ sym (append_assoc (statement_bytes x) (all_bytes xs) (all_bytes ys))

is_any_too_long-append :
    (xs ys : List Statement)
    → is_any_too_long (xs ++ ys) ≡ (if is_any_too_long xs then true else is_any_too_long ys)
is_any_too_long-append [] ys = refl
is_any_too_long-append (x ∷ xs) ys = ground (arith, is_any_too_long-append xs ys)

written-append :
    (xs ys : List Statement) (verify : ℕ) (buffer : Bytes)
    → (written xs verify buffer >>= λ r. written ys r.0 r.1) ≡ written (xs ++ ys) verify buffer
unfolding written
written-append xs ys verify buffer = elim (Bool-cases (is_any_too_long xs)) [
  | inl long ↦ rw (is_any_too_long-append xs ys, long) refl
  | inr short ↦ elim (Bool-cases (is_any_too_long ys)) [
    | inl long ↦ rw (is_any_too_long-append xs ys, short, long) refl
    | inr short' ↦
        rw (is_any_too_long-append xs ys, short, short')
          (ap₂ (λ n bs. ok (n, bs)) (omega (arith, length-append xs ys))
            (append_assoc buffer (all_bytes xs) (all_bytes ys)
              ∙ ap (◌++◌ buffer) (sym (all_bytes-append xs ys))))
  ]
]

-- The statements from a query on take its id and those behind it.
statements_cons :
    (ids : List Bytes) (i : ℕ) (q : BatchQueryData) (queries : List BatchQueryData)
    → statements (drop i ids) (q ∷ queries)
      ≡ executions q (prepared_query_id ids i) ++ statements (drop (suc i) ids) queries
unfolding prepared_query_id
statements_cons [] zero q queries = refl
statements_cons [] (suc i) q queries = refl
statements_cons (id ∷ ids) zero q queries = refl
statements_cons (id ∷ ids) (suc i) q queries = statements_cons ids i q queries

next_index : (i : ℕ) → i + 1 ≡ suc i
next_index i = omega arith

encode_queries_lem :
    (ids : List Bytes) (i : ℕ) (queries : List BatchQueryData) (verify : ℕ) (buffer : Bytes)
    → encode_queries ids i queries verify buffer
      ≡ written (statements (drop i ids) queries) verify buffer
unfolding encode_queries
encode_queries_lem ids i [] verify buffer =
    unfold written in ap₂ (λ n xs. ok (n, xs)) (omega arith) (sym (append-nil buffer))
encode_queries_lem ids i (q ∷ queries) verify buffer =
    let id = prepared_query_id ids i in
    let later = statements (drop (suc i) ids) queries in
    rw (encode_query_lem id q verify buffer, statements_cons ids i q queries, next_index i)
      (ap (λ f. written (executions q id) verify buffer >>= f)
          (λ j r. encode_queries_lem ids (suc i) queries r.0 r.1 j)
        ∙ written-append (executions q id) later verify buffer)

length-with_sets :
    (query id : Bytes) (sets : List (ℕ × Bytes)) → length (with_sets query id sets) ≡ length sets
length-with_sets query id [] = refl
length-with_sets query id ((c, ps) ∷ sets) = omega (arith, length-with_sets query id sets)

length-executions :
    (q : BatchQueryData) (id : Bytes) → length (executions q id) ≡ sets_count q.parameter_sets
length-executions q id = elim (List-cases q.parameter_sets) [
  | inl e ↦ rw e refl
  | inr (set, sets, e) ↦ rw e (length-with_sets q.query_str id (set ∷ sets))
]

query_count_lem :
    (ids : List Bytes) (queries : List BatchQueryData)
    → query_count queries ≡ length (statements ids queries)
unfolding query_count
query_count_lem ids [] = refl
query_count_lem [] (q ∷ queries) = omega (
  arith,
  query_count_lem [] queries,
  length-executions q [],
  length-append (executions q []) (statements [] queries),
)
query_count_lem (id ∷ ids) (q ∷ queries) = omega (
  arith,
  query_count_lem ids queries,
  length-executions q id,
  length-append (executions q id) (statements ids queries),
)

-- The body of a valid batch is its type, the number of its statements, the statements in order, and
-- the batch's parameters. Each query is a statement for every set of its parameters, and one without
-- parameters if it has no set; it carries the id that stands at the query's place among the prepared
-- ids, or its text if that is empty or missing. The body is refused where there are more than 65535 statements, or where one has more parameters than that;
-- the check of the count at the end never fails.
pub encode_body_lem :
    (p : BatchParameters) (ids : List Bytes) (buffer : Bytes)
    → p.command.is_valid ≡ true
    → let xs = statements ids p.command.queries in
      encode_body p ids buffer ≡ (
        if ltb (length xs) (2 ^ 16)
        then (if is_any_too_long xs
            then err logic_exception
            else encode_parameters p (
                ((buffer ++ be_bytes 1 (p.command.batch_type % 256)) ++ be_bytes 2 (length xs))
                ++ all_bytes xs))
        else err logic_exception)
unfolding encode_body Integer.encode written
encode_body_lem p ids buffer valid =
    let xs = statements ids p.command.queries in
    let n : query_count p.command.queries ≡ length xs = query_count_lem ids p.command.queries in
    elim (Bool-cases (ltb (length xs) (2 ^ 16))) [
      | inr many ↦
          let differs : (length xs % 2 ^ 16 == length xs) ≡ false = ground (arith, many) in
          simp (valid, n, differs, many)
      | inl few ↦
          let same : length xs % 2 ^ 16 ≡ length xs = ground (arith, few) in
          elim (Bool-cases (is_any_too_long xs)) [
            | inl long ↦ simp (
              valid,
              n,
              same,
              eq→== (length xs) (length xs) refl,
              few,
              encode_queries_lem ids 0 p.command.queries,
              long,
            )
            | inr short ↦ simp (
              valid,
              n,
              same,
              eq→== (length xs) (length xs) refl,
              few,
              encode_queries_lem ids 0 p.command.queries,
              short,
              eq→== (length xs) (0 + length xs) (omega arith),
            )
          ]
    ]
