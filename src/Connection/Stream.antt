-- ===== src/Connection/Stream.antt =====
-- src/LowLevel/ConnectionStream.cpp. The free ids are a vector that the connection and its streams
-- share; the head of the list is the back of the vector.
use cpv_cql_driver.Common.{
  ℕ, suc, zero, ◌+◌, ◌-◌, ◌<◌, ◌≡◌, refl, ◌∙◌, List, [], ◌∷◌, Bool, true, false, arith, ltb, leb,
  ◌==◌, if◌then◌else◌, length, count, Result, ok, err, logic_exception,
}

pub record ConnectionStream : Type 0 where
  pub is_valid : Bool
  pub stream_id : ℕ

abbrev pub invalid_stream : ConnectionStream
invalid_stream = record { is_valid = false; stream_id = 0 }

-- `getStreamId`
unfoldable pub get_stream_id : ConnectionStream → Result ℕ
get_stream_id s = if s.is_valid then ok s.stream_id else err logic_exception

-- `ConnectionStream::close`: the id goes back once, and the stream is invalid from then on.
unfoldable pub close_stream : ConnectionStream → List ℕ → ConnectionStream × List ℕ
close_stream s free =
    if s.is_valid then (record s { is_valid = false }, s.stream_id ∷ free) else (s, free)

-- The move assignment: the target gives its own id back first, the source is left invalid.
unfoldable pub move_stream :
    ConnectionStream → ConnectionStream → List ℕ → ConnectionStream × ConnectionStream × List ℕ
move_stream target source free =
    let (_, free') = close_stream target free in (source, record source { is_valid = false }, free')

-- `Connection::openStream`
unfoldable pub open_stream : List ℕ → ConnectionStream × List ℕ
open_stream [] = (invalid_stream, [])
open_stream (id ∷ free) = (record { is_valid = true; stream_id = id }, free)

-- The loop of the constructor: ids from `n` down to 1, the back of the vector being 1.
unfoldable pub ids_from : ℕ → ℕ → List ℕ
ids_from zero first = []
ids_from (suc n) first = first ∷ ids_from n (first + 1)

-- `freeStreamIds_->resize(getMaxStreams() - 1)` and the loop; stream zero is kept back.
unfoldable pub initial_free_ids : ℕ → List ℕ
initial_free_ids max_streams = ids_from (max_streams - 1) 1

-- `isAllStreamsFree`
unfoldable pub is_all_streams_free : ℕ → List ℕ → Bool
is_all_streams_free max_streams free = leb max_streams (length free + 1)

-- How many of the streams in use hold an id.
abbrev pub holders : ℕ → List ConnectionStream → ℕ
holders id [] = 0
holders id (s ∷ streams) =
    (if s.is_valid then (if s.stream_id == id then 1 else 0) else 0) + holders id streams

-- Every id from 1 to max_streams - 1 is free or held by one stream, and never both; no other id is
-- either.
abbrev pub IsAccounted : ℕ → List ℕ → List ConnectionStream → Type 0
IsAccounted max_streams free streams =
    (id : ℕ)
    → count id free + holders id streams
      ≡ (if leb 1 id then (if ltb id max_streams then 1 else 0) else 0)

count-ids_from :
    (id n first : ℕ)
    → count id (ids_from n first)
      ≡ (if leb first id then (if ltb id (first + n) then 1 else 0) else 0)
unfolding ids_from
count-ids_from id zero first = ground arith
count-ids_from id (suc n) first = ground (arith, count-ids_from id n (first + 1))

pub initial-IsAccounted :
    (max_streams : ℕ) → 0 < max_streams → IsAccounted max_streams (initial_free_ids max_streams) []
unfolding initial_free_ids
initial-IsAccounted max_streams h id = ground (arith, count-ids_from id (max_streams - 1) 1)

-- What the program does with streams: open one, close the one at a position of the list of streams
-- in use, or move a stream over another.
pub data Use : Type 0 where
  opens : Use
  closes : ℕ → Use

close_at : ℕ → List ConnectionStream → List ℕ → List ConnectionStream × List ℕ
close_at i [] free = ([], free)
close_at zero (s ∷ streams) free = let (s', free') = close_stream s free in (s' ∷ streams, free')
close_at (suc i) (s ∷ streams) free =
    let (streams', free') = close_at i streams free in (s ∷ streams', free')

unfoldable pub use_stream : List ℕ × List ConnectionStream → Use → List ℕ × List ConnectionStream
unfolding close_at
use_stream (free, streams) opens = let (s, free') = open_stream free in (free', s ∷ streams)
use_stream (free, streams) (closes i) =
    let (streams', free') = close_at i streams free in (free', streams')

unfoldable pub use_streams :
    List ℕ × List ConnectionStream → List Use → List ℕ × List ConnectionStream
use_streams p [] = p
use_streams p (u ∷ us) = use_streams (use_stream p u) us

close_at-total :
    (i id : ℕ) (streams : List ConnectionStream) (free : List ℕ)
    → count id (close_at i streams free).1 + holders id (close_at i streams free).0
      ≡ count id free + holders id streams
unfolding close_at close_stream
close_at-total i id [] free = refl
close_at-total zero id (s ∷ streams) free = ground arith
close_at-total (suc i) id (s ∷ streams) free = omega (arith, close_at-total i id streams free)

open_stream-total :
    (id : ℕ) (free : List ℕ) (streams : List ConnectionStream)
    → count id (open_stream free).1 + holders id ((open_stream free).0 ∷ streams)
      ≡ count id free + holders id streams
unfolding open_stream
open_stream-total id [] streams = ground arith
open_stream-total id (x ∷ free) streams = ground arith

use_stream-total :
    (id : ℕ) (p : List ℕ × List ConnectionStream) (u : Use)
    → count id (use_stream p u).0 + holders id (use_stream p u).1 ≡ count id p.0 + holders id p.1
unfolding use_stream
use_stream-total id (free, streams) opens = open_stream-total id free streams
use_stream-total id (free, streams) (closes i) = close_at-total i id streams free

use_streams-total :
    (id : ℕ) (us : List Use) (p : List ℕ × List ConnectionStream)
    → count id (use_streams p us).0 + holders id (use_streams p us).1
      ≡ count id p.0 + holders id p.1
unfolding use_streams
use_streams-total id [] p = refl
use_streams-total id (u ∷ us) p = use_streams-total id us (use_stream p u) ∙ use_stream-total id p u

-- From a new connection on, whatever streams are opened and closed, in any order and also twice,
-- each id from 1 to max_streams - 1 is either free, once, or held by one valid stream, and never
-- both; no other id is free or held.
pub use_streams-IsAccounted :
    (max_streams : ℕ) (us : List Use)
    → 0 < max_streams
    → IsAccounted max_streams
        (use_streams (initial_free_ids max_streams, []) us).0
        (use_streams (initial_free_ids max_streams, []) us).1
use_streams-IsAccounted max_streams us h id =
    use_streams-total id us (initial_free_ids max_streams, [])
    ∙ initial-IsAccounted max_streams h id

-- Moving a stream over another frees the id that the target held, hands the source's id over and
-- leaves the source without one.
pub move_stream-total :
    (id : ℕ) (target source : ConnectionStream) (free : List ℕ)
    → let (target', source', free') = move_stream target source free in
      (count id free' + holders id (target' ∷ source' ∷ [])
        ≡ count id free + holders id (target ∷ source ∷ []))
      × (holders id (target' ∷ []) ≡ holders id (source ∷ []))
      × (source'.is_valid ≡ false)
unfolding move_stream close_stream
move_stream-total id target source free = (ground arith, refl, refl)
