-- ===== src/Session/Cache.antt =====
-- NodeConfiguration::getPreparedQueryId (src/Common/NodeConfiguration.cpp): for each node, the
-- prepared id of each query text. A query that is not there has the empty id.
use cpv_cql_driver.Common.{
  ℕ, ◌≡◌, refl, ap, List, [], ◌∷◌, Bool, true, false, ◌&&◌, arith, ◌==◌, if◌then◌else◌, Bytes,
}

unfoldable pub bytes_eq : Bytes → Bytes → Bool
bytes_eq [] [] = true
bytes_eq [] (y ∷ ys) = false
bytes_eq (x ∷ xs) [] = false
bytes_eq (x ∷ xs) (y ∷ ys) = x == y && bytes_eq xs ys

pub bytes_eq_refl : (xs : Bytes) → bytes_eq xs xs ≡ true
unfolding bytes_eq
bytes_eq_refl [] = refl
bytes_eq_refl (x ∷ xs) = ground (arith, bytes_eq_refl xs)

pub bytes_eq_sound : (xs ys : Bytes) → bytes_eq xs ys ≡ true → xs ≡ ys
unfolding bytes_eq
bytes_eq_sound [] [] h = refl
bytes_eq_sound [] (y ∷ ys) h = cc
bytes_eq_sound (x ∷ xs) [] h = cc
bytes_eq_sound (x ∷ xs) (y ∷ ys) h = ground (arith, bytes_eq_sound xs ys)

-- One node's map from query texts to ids.
abbrev pub PreparedIds : Type 0
PreparedIds = List (Bytes × Bytes)

unfoldable pub find_id : Bytes → PreparedIds → Bytes
find_id query [] = []
find_id query ((q, id) ∷ rest) = if bytes_eq q query then id else find_id query rest

unfoldable pub store_id : Bytes → Bytes → PreparedIds → PreparedIds
store_id query id [] = (query, id) ∷ []
store_id query id ((q, old) ∷ rest) =
    if bytes_eq q query then (q, id) ∷ rest else (q, old) ∷ store_id query id rest

-- All nodes: a node is the address of its configuration.
abbrev pub Caches : Type 0
Caches = ℕ → PreparedIds

unfoldable pub get_prepared_query_id : Caches → ℕ → Bytes → Bytes
get_prepared_query_id caches node query = find_id query (caches node)

unfoldable pub set_prepared_query_id : Caches → ℕ → Bytes → Bytes → Caches
set_prepared_query_id caches node query id n =
    if n == node then store_id query id (caches node) else caches n

find-store :
    (query id other : Bytes) (ids : PreparedIds)
    → find_id other (store_id query id ids)
      ≡ (if bytes_eq query other then id else find_id other ids)
unfolding find_id store_id
find-store query id other [] = refl
find-store query id other ((q, old) ∷ rest) = ground (
  arith,
  find-store query id other rest,
  bytes_eq_sound q query,
  ap (bytes_eq q),
  bytes_eq_sound q other,
  bytes_eq_sound query other,
  bytes_eq_refl q,
  bytes_eq_refl query,
)

-- A stored id is found under its node and query; every other entry stays.
pub get-set :
    (caches : Caches) (node : ℕ) (query id : Bytes) (n : ℕ) (other : Bytes)
    → get_prepared_query_id (set_prepared_query_id caches node query id) n other
      ≡ (if n == node && bytes_eq query other then id else get_prepared_query_id caches n other)
unfolding get_prepared_query_id set_prepared_query_id
get-set caches node query id n other = ground (arith, find-store query id other (caches node))
