-- ===== src/Uuid/Time.antt =====
-- The version 1 UUIDs of src/Common/Utility/UUIDUtils.cpp. A time point is the number of nanoseconds
-- since 1970, in 64 bits; fields that `|` joins share no bit, so that they are added.
use cpv_cql_driver.Common.{
  ℕ, ◌+◌, ◌-◌, ◌*◌, ◌/◌, ◌%◌, ◌^◌, ◌<◌, ◌≡◌, arith, if◌then◌else◌, ◌==◌, Result, ok, err,
  format_exception,
}
use cpv_cql_driver.Uuid.Text.{Uuid}

-- `EpochSinceUUID1TimestampBase`
abbrev pub epoch : ℕ
epoch = 122192928000000000

-- `MaxClockId`
abbrev pub max_clock_id : ℕ
max_clock_id = 16383

-- `toTimeUUIDTimestamp`, of a time point from 1970 on.
unfoldable pub to_timestamp : ℕ → ℕ
to_timestamp t = ((t / 1000000) * 10000 + (t / 100) % 10000 + epoch) % 2 ^ 64

-- `fromTimeUUIDTimestamp`
unfoldable pub from_timestamp : ℕ → ℕ
from_timestamp s =
    ((((s + 2 ^ 64 - epoch) % 2 ^ 64) / 10000) * 1000000 + (s % 10000) * 100) % 2 ^ 64

-- `makeTimeUUID(timeStamp, clockId, nodeId)`
unfoldable pub make_time_uuid : ℕ → ℕ → ℕ → Uuid
make_time_uuid s clock node = record {
  high = (s % 2 ^ 32) * 2 ^ 32 + ((s / 2 ^ 32) % 2 ^ 16) * 2 ^ 16 + 0x1000 + (s / 2 ^ 48) % 2 ^ 12;
  low = 2 ^ 63 + (clock % 2 ^ 14) * 2 ^ 48 + node % 2 ^ 48;
}

-- `makeRandomUUID` on the four words that `URandom` gives.
unfoldable pub make_random_uuid : ℕ → ℕ → ℕ → ℕ → Uuid
make_random_uuid a b c d =
    let high = a * 2 ^ 32 + b in
    let low = c * 2 ^ 32 + d in
    record { high = (high / 2 ^ 16) * 2 ^ 16 + 0x4000 + high % 2 ^ 12; low = 2 ^ 63 + low % 2 ^ 62 }

-- `makeMinTimeUUID` and `makeMaxTimeUUID`
unfoldable pub make_min_time_uuid : ℕ → Uuid
make_min_time_uuid t = make_time_uuid (to_timestamp t) 0 0

unfoldable pub make_max_time_uuid : ℕ → Uuid
make_max_time_uuid t = make_time_uuid (to_timestamp t) max_clock_id (2 ^ 64 - 1)

-- `getVersionFromUUID`
unfoldable pub get_version : Uuid → ℕ
get_version u = (u.high % 2 ^ 16) / 2 ^ 12

-- The time stamp in `getTimeFromUUID`
unfoldable pub timestamp_of : Uuid → ℕ
timestamp_of u =
    u.high / 2 ^ 32 + ((u.high / 2 ^ 16) % 2 ^ 16) * 2 ^ 32 + (u.high % 2 ^ 12) * 2 ^ 48

-- `getTimeFromUUID`
unfoldable pub get_time : Uuid → Result ℕ
get_time u =
    if get_version u == 1 then ok (from_timestamp (timestamp_of u)) else err format_exception

pub to_timestamp_lem : (t : ℕ) → t < 2 ^ 63 → to_timestamp t ≡ t / 100 + epoch
unfolding to_timestamp
to_timestamp_lem t h = omega arith

pub from-to_timestamp : (t : ℕ) → t < 2 ^ 63 → from_timestamp (t / 100 + epoch) ≡ (t / 100) * 100
unfolding from_timestamp
from-to_timestamp t h = omega arith

-- The fields of the high word.
module _ (a b c : ℕ) (ha : a < 2 ^ 32) (hb : b < 2 ^ 16) (hc : c < 2 ^ 12) where
  abbrev word : ℕ
  word = a * 2 ^ 32 + b * 2 ^ 16 + 0x1000 + c

  pub top_field : word / 2 ^ 32 ≡ a
  top_field = omega arith

  pub middle_field : (word / 2 ^ 16) % 2 ^ 16 ≡ b
  middle_field = omega arith

  pub bottom_field : word % 2 ^ 12 ≡ c
  bottom_field = omega arith

  pub version_field : (word % 2 ^ 16) / 2 ^ 12 ≡ 1
  version_field = omega arith
