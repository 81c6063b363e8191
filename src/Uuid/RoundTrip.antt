-- ===== src/Uuid/RoundTrip.antt =====
-- `strToUUID` on what `uuidToStr` writes.
use cpv_cql_driver.Common.{
  ℕ, ◌+◌, ◌*◌, ◌/◌, ◌%◌, ◌^◌, ◌<◌, ◌≡◌, refl, ap, ap₂, arith, [], ◌∷◌, ◌++◌, length, drop, ok,
  Bytes,
}
use native.Mathlib.Nat.{mod-eq_of_lt}
use cpv_cql_driver.Uuid.Text.{Uuid, dump_hex, hex_at, str_to_uuid, uuid_to_str, dash, load-dump_hex}

lead : (p m v : ℕ) → m ≡ v → 0 * p + m ≡ v
lead p m v h = omega arith

hex_at-dump_hex :
    (n v i : ℕ) (str rest : Bytes)
    → drop i str ≡ dump_hex n v ++ rest
    → v < 16 ^ n
    → hex_at str i n ≡ ok v
hex_at-dump_hex n v i str rest h k =
    rw (h, load-dump_hex n 0 v rest) (ap ok (lead (16 ^ n) (v % 16 ^ n) v (mod-eq_of_lt k)))

join_high :
    (v : ℕ) → v < 2 ^ 64 → (v / 2 ^ 32) * 2 ^ 32 + ((v / 2 ^ 16) % 2 ^ 16) * 2 ^ 16 + v % 2 ^ 16 ≡ v
join_high v h = omega arith

join_low :
    (v : ℕ)
    → v < 2 ^ 64
    → ((v / 2 ^ 48) % 2 ^ 16) * 2 ^ 48 + ((v / 2 ^ 32) % 2 ^ 16) * 2 ^ 32 + v % 2 ^ 32 ≡ v
join_low v h = omega arith

-- The parts of the text from each block on.
module _ (u : Uuid) where
  abbrev from_low : Bytes
  from_low = dump_hex 4 ((u.low / 2 ^ 32) % 2 ^ 16) ++ dump_hex 8 (u.low % 2 ^ 32)

  abbrev from_clock : Bytes
  from_clock = dump_hex 4 ((u.low / 2 ^ 48) % 2 ^ 16) ++ (dash ∷ from_low)

  abbrev from_version : Bytes
  from_version = dump_hex 4 (u.high % 2 ^ 16) ++ (dash ∷ from_clock)

  abbrev from_middle : Bytes
  from_middle = dump_hex 4 ((u.high / 2 ^ 16) % 2 ^ 16) ++ (dash ∷ from_version)

  length-uuid_to_str : length (uuid_to_str u) ≡ 36
  unfolding uuid_to_str dump_hex
  length-uuid_to_str = refl

  first : drop 0 (uuid_to_str u) ≡ dump_hex 8 (u.high / 2 ^ 32) ++ (dash ∷ from_middle)
  unfolding uuid_to_str
  first = refl

  second : drop 9 (uuid_to_str u) ≡ from_middle
  unfolding uuid_to_str dump_hex
  second = refl

  third : drop 14 (uuid_to_str u) ≡ from_version
  unfolding uuid_to_str dump_hex
  third = refl

  fourth : drop 19 (uuid_to_str u) ≡ from_clock
  unfolding uuid_to_str dump_hex
  fourth = refl

  fifth : drop 24 (uuid_to_str u) ≡ from_low
  unfolding uuid_to_str dump_hex
  fifth = refl

  sixth : drop 28 (uuid_to_str u) ≡ dump_hex 8 (u.low % 2 ^ 32) ++ []
  unfolding uuid_to_str dump_hex
  sixth = refl

  -- A UUID of twice 64 bits is read back from the text that is written for it.
  pub str_to_uuid-uuid_to_str :
      u.high < 2 ^ 64 → u.low < 2 ^ 64 → str_to_uuid (uuid_to_str u) ≡ ok u
  unfolding str_to_uuid
  str_to_uuid-uuid_to_str h k =
      rw
        (
          length-uuid_to_str,
          hex_at-dump_hex 8 (u.high / 2 ^ 32) 0 (uuid_to_str u) (dash ∷ from_middle) (first)
              (omega arith),
          hex_at-dump_hex 4 ((u.high / 2 ^ 16) % 2 ^ 16) 9 (uuid_to_str u) (dash ∷ from_version)
              second (omega arith),
          hex_at-dump_hex 4 (u.high % 2 ^ 16) 14 (uuid_to_str u) (dash ∷ from_clock) third
              (omega arith),
          hex_at-dump_hex 4 ((u.low / 2 ^ 48) % 2 ^ 16) 19 (uuid_to_str u) (dash ∷ from_low) fourth
              (omega arith),
          hex_at-dump_hex 4 ((u.low / 2 ^ 32) % 2 ^ 16) 24 (uuid_to_str u)
              (dump_hex 8 (u.low % 2 ^ 32)) fifth (omega arith),
          hex_at-dump_hex 8 (u.low % 2 ^ 32) 28 (uuid_to_str u) [] sixth (omega arith),
        )
        (ap₂ (λ x y. ok (record { high = x; low = y })) (join_high u.high h) (join_low u.low k))
