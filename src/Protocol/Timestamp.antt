-- ===== src/Protocol/Timestamp.antt =====
-- src/LowLevel/ProtocolTypes/ProtocolTimestamp.cpp: a time point, the nanoseconds since 1970 in 64
-- signed bits, is sent as its microseconds. Both are bit patterns.
use cpv_cql_driver.Common.{
  ℕ, ◌+◌, ◌-◌, ◌*◌, ◌/◌, ◌%◌, ◌^◌, ◌<◌, ◌≡◌, inl, inr, arith, leb, if◌then◌else◌, Bool-cases,
}
use cpv_cql_driver.Protocol.Integer.{is_negative}

-- `ProtocolTimestamp::set`: `duration_cast` to microseconds rounds towards zero.
unfoldable pub microseconds_of : ℕ → ℕ
microseconds_of t = if is_negative 8 t then (2 ^ 64 - (2 ^ 64 - t) / 1000) % 2 ^ 64 else t / 1000

-- `ProtocolTimestamp::get`
unfoldable pub time_point_of : ℕ → ℕ
time_point_of us = (us * 1000) % 2 ^ 64

-- A time point without the nanoseconds that do not make a microsecond; from the half on the pattern
-- is that of a time before 1970, which comes closer to 1970 too.
abbrev pub cut_to_microseconds : ℕ → ℕ
cut_to_microseconds t = if leb (2 ^ 63) t then (t + (2 ^ 64 - t) % 1000) % 2 ^ 64 else t - t % 1000

pub microseconds_of-lt : (t : ℕ) → t < 2 ^ 64 → microseconds_of t < 2 ^ 64
unfolding microseconds_of
microseconds_of-lt t h = elim (Bool-cases (leb (2 ^ 63) t)) [
  | inl e ↦ rw e (omega arith)
  | inr e ↦ rw e (omega arith)
]

pub time_point-microseconds :
    (t : ℕ) → t < 2 ^ 64 → time_point_of (microseconds_of t) ≡ cut_to_microseconds t
unfolding microseconds_of time_point_of
time_point-microseconds t h = elim (Bool-cases (leb (2 ^ 63) t)) [
  | inl e ↦ rw e (omega arith)
  | inr e ↦ rw e (omega arith)
]
