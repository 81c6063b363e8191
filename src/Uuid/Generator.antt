-- ===== src/Uuid/Generator.antt =====
-- `makeTimeUUID()` of src/Common/Utility/UUIDUtils.cpp with the state of its thread, and sequences of
-- calls of it.
pub mod Distinct
use cpv_cql_driver.Common.{
  ℕ, ◌+◌, ◌*◌, ◌/◌, ◌%◌, ◌^◌, ◌≤◌, ◌<◌, ◌≡◌, ◌≢◌, arith, List, [], ◌∷◌, Bool, true, false, ltb, leb,
  not, ◌==◌, if◌then◌else◌, All, Result, ok, err, uuid_conflict_exception,
}
use cpv_cql_driver.Uuid.Text.{Uuid}
use cpv_cql_driver.Uuid.Time.{max_clock_id, to_timestamp, make_time_uuid}

-- `staticNodeId`, `staticLastTimestamp` and `staticClockId`
pub record Generator : Type 0 where
  pub node_id : ℕ
  pub last_timestamp : ℕ
  pub clock_id : ℕ

abbrev pub new_generator : Generator
new_generator = record { node_id = 0; last_timestamp = 0; clock_id = 0 }

-- What a call finds outside: the time, and two words of `URandom`.
pub record Call : Type 0 where
  pub now : ℕ
  pub first_word : ℕ
  pub second_word : ℕ

abbrev pub with_node : Call → Generator → Generator
with_node c g = record {
  node_id = if g.node_id == 0 then c.first_word * 2 ^ 32 + c.second_word else g.node_id;
  last_timestamp = g.last_timestamp;
  clock_id = g.clock_id;
}

-- The UUID with the clock id of the state, which is then counted up.
abbrev pub take_clock_id : ℕ → Generator → Result Uuid × Generator
take_clock_id s g = (
  ok (make_time_uuid s g.clock_id g.node_id),
  record { node_id = g.node_id; last_timestamp = g.last_timestamp; clock_id = g.clock_id + 1 },
)

abbrev pub at_timestamp : ℕ → Generator → Generator
at_timestamp s g = record { node_id = g.node_id; last_timestamp = s; clock_id = 0 }

-- `makeTimeUUID()`
unfoldable pub next_time_uuid : Call → Generator → Result Uuid × Generator
next_time_uuid c state =
    let g = with_node c state in
    let s = to_timestamp c.now in
    if not (s == g.last_timestamp)
    then take_clock_id s (at_timestamp s g)
    else if ltb max_clock_id g.clock_id
    then (err uuid_conflict_exception, g)
    else take_clock_id s g

abbrev pub made : Result Uuid → List Uuid → List Uuid
made (ok u) us = u ∷ us
made (err e) us = us

-- The UUIDs that a sequence of calls on one thread returns.
unfoldable pub make_each : List Call → Generator → List Uuid
make_each [] g = []
make_each (c ∷ cs) g = let (r, g') = next_time_uuid c g in made r (make_each cs g')

-- A clock that does not go back behind the time `t`.
abbrev pub IsForward : ℕ → List Call → Type 0
IsForward t [] = Unit {0}
IsForward t (c ∷ cs) = (t ≤ c.now) × (c.now < 2 ^ 63) × IsForward c.now cs

abbrev pub AllDifferent : List Uuid → Type 0
AllDifferent [] = Unit {0}
AllDifferent (u ∷ us) = All (λ v. u ≢ v) us × AllDifferent us
