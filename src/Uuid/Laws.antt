-- ===== src/Uuid/Laws.antt =====
-- What `makeTimeUUID` puts into a UUID is what `getVersionFromUUID` and `getTimeFromUUID` find in it.
use cpv_cql_driver.Common.{ℕ, ◌+◌, ◌*◌, ◌/◌, ◌%◌, ◌^◌, ◌≤◌, ◌<◌, ◌≡◌, refl, arith, ok}
use cpv_cql_driver.Uuid.Time.{
  epoch, to_timestamp, make_time_uuid, make_random_uuid, make_min_time_uuid, make_max_time_uuid,
  get_version, timestamp_of, get_time, to_timestamp_lem, from-to_timestamp, top_field, middle_field,
  bottom_field, version_field,
}

join_timestamp :
    (s : ℕ)
    → s < 2 ^ 60
    → s % 2 ^ 32 + ((s / 2 ^ 32) % 2 ^ 16) * 2 ^ 32 + ((s / 2 ^ 48) % 2 ^ 12) * 2 ^ 48 ≡ s
join_timestamp s h = omega arith

pub timestamp_of-make_time_uuid :
    (s clock node : ℕ) → s < 2 ^ 60 → timestamp_of (make_time_uuid s clock node) ≡ s
unfolding timestamp_of make_time_uuid
timestamp_of-make_time_uuid s clock node h =
    let a = s % 2 ^ 32 in
    let b = (s / 2 ^ 32) % 2 ^ 16 in
    let c = (s / 2 ^ 48) % 2 ^ 12 in
    let ha : a < 2 ^ 32 = omega arith in
    let hb : b < 2 ^ 16 = omega arith in
    let hc : c < 2 ^ 12 = omega arith in
    rw (top_field a b c ha hb hc, middle_field a b c ha hb hc, bottom_field a b c ha hb hc)
      (join_timestamp s h)

version-make_time_uuid : (s clock node : ℕ) → get_version (make_time_uuid s clock node) ≡ 1
unfolding get_version make_time_uuid
version-make_time_uuid s clock node =
    version_field (s % 2 ^ 32) ((s / 2 ^ 32) % 2 ^ 16) ((s / 2 ^ 48) % 2 ^ 12) (omega arith)
      (omega arith) (omega arith)

-- A time point from 1970 on, below 2 ^ 63 nanoseconds, that is put into a UUID comes back cut down to a multiple of 100
-- nanoseconds, whatever the clock id and the node are.
pub get_time-make_time_uuid :
    (t clock node : ℕ)
    → t < 2 ^ 63
    → get_time (make_time_uuid (to_timestamp t) clock node) ≡ ok ((t / 100) * 100)
unfolding get_time
get_time-make_time_uuid t clock node h =
    rw
      (
        version-make_time_uuid (to_timestamp t) clock node,
        to_timestamp_lem t h,
        timestamp_of-make_time_uuid (t / 100 + epoch) clock node (omega arith),
        from-to_timestamp t h,
      )
      refl

-- `makeRandomUUID` on words of 32 bits makes a UUID of version 4 with variant 1, in 128 bits.
make_random_uuid-IsRandom :
    (a b c d : ℕ)
    → a < 2 ^ 32
    → b < 2 ^ 32
    → c < 2 ^ 32
    → d < 2 ^ 32
    → (get_version (make_random_uuid a b c d) ≡ 4)
      × ((make_random_uuid a b c d).low / 2 ^ 62 ≡ 2)
      × ((make_random_uuid a b c d).high < 2 ^ 64)
unfolding get_version make_random_uuid
make_random_uuid-IsRandom a b c d ha hb hc hd = (omega arith, omega arith, omega arith)

-- The UUIDs of a time point with any clock id and node lie between `makeMinTimeUUID` and
-- `makeMaxTimeUUID` of it: they share the high word, and their low words are in between.
between_bounds :
    (t clock node : ℕ)
    → let u = make_time_uuid (to_timestamp t) clock node in
      (u.high ≡ (make_min_time_uuid t).high)
      × (u.high ≡ (make_max_time_uuid t).high)
      × ((make_min_time_uuid t).low ≤ u.low)
      × (u.low ≤ (make_max_time_uuid t).low)
unfolding make_min_time_uuid make_max_time_uuid make_time_uuid
between_bounds t clock node = (refl, refl, omega arith, omega arith)
