-- ===== src/Tests/UuidRuns.antt =====
-- Runs of the UUID functions.
use cpv_cql_driver.Common.{
  ℕ, ◌≡◌, refl, [], ◌∷◌, arith, ok, err, format_exception, uuid_conflict_exception,
}
use cpv_cql_driver.Uuid.Text.{Uuid, str_to_uuid, uuid_to_str}
use cpv_cql_driver.Uuid.RoundTrip.{str_to_uuid-uuid_to_str}
use cpv_cql_driver.Uuid.Time.{make_time_uuid, to_timestamp, get_time, max_clock_id}
use cpv_cql_driver.Uuid.Time
use cpv_cql_driver.Uuid.Laws.{get_time-make_time_uuid}
use cpv_cql_driver.Uuid.Generator.{Call, new_generator, next_time_uuid, make_each, AllDifferent}
use cpv_cql_driver.Uuid.Generator.Distinct.{make_each-AllDifferent}

-- 58E0A7D7-EEBC-11D8-9669-0800200C9A66
abbrev documented : Uuid
documented = record { high = 0x58E0A7D7EEBC11D8; low = 0x96690800200C9A66 }

str_to_uuid-uuid_to_str_example : str_to_uuid (uuid_to_str documented) ≡ ok documented
str_to_uuid-uuid_to_str_example = str_to_uuid-uuid_to_str documented (omega arith) (omega arith)

-- The example in the comment of the source.
make_documented : make_time_uuid 0x1d8eebc58e0a7d7 0x1669 0x0800200c9a66 ≡ documented
unfolding make_time_uuid
make_documented = refl

get_time-make_time_uuid_example :
    get_time (make_time_uuid (to_timestamp 1500000000123456789) 5 7) ≡ ok 1500000000123456700
get_time-make_time_uuid_example = get_time-make_time_uuid 1500000000123456789 5 7 (omega arith)

get_time_random : get_time (record { high = 0x58E0A7D7EEBC41D8; low = 0 }) ≡ err format_exception
unfolding get_time Time.get_version
get_time_random = refl

abbrev call_at : ℕ → Call
call_at t = record { now = t; first_word = 3; second_word = 4 }

make_each-AllDifferent_example :
    AllDifferent (make_each (call_at 1000 ∷ call_at 1050 ∷ call_at 1200 ∷ []) new_generator)
make_each-AllDifferent_example =
    make_each-AllDifferent (call_at 1000 ∷ call_at 1050 ∷ call_at 1200 ∷ [])
      (omega arith, omega arith, (omega arith, omega arith, (omega arith, omega arith, tt)))

exhausted :
    (next_time_uuid
      (call_at 1000)
      (record { node_id = 7; last_timestamp = 122192928000000010; clock_id = 16384 })).0
    ≡ err uuid_conflict_exception
unfolding next_time_uuid to_timestamp
exhausted = refl

-- A clock that goes back and on again makes a UUID a second time.
repeats :
    make_each (call_at 1000 ∷ call_at 900 ∷ call_at 1000 ∷ []) new_generator
    ≡ make_time_uuid 122192928000000010 0 12884901892
      ∷ make_time_uuid 122192928000000009 0 12884901892
      ∷ make_time_uuid 122192928000000010 0 12884901892
      ∷ []
unfolding make_each next_time_uuid to_timestamp
repeats = refl
