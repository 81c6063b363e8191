-- ===== src/Protocol/Integer.antt =====
-- src/LowLevel/ProtocolTypes/ProtocolIntegerBase.hpp and its instances [byte], [short], [int] and
-- [long]. A value is the bit pattern of the C++ integer: a number below 256 ^ width, where the
-- signed types have a negative value from half of that on.
pub mod RoundTrip
use cpv_cql_driver.Common.{
  ℕ, zero, suc, ◌+◌, ◌-◌, ◌*◌, ◌/◌, ◌%◌, ◌^◌, List, [], ◌∷◌, ◌++◌, Bool, ltb, leb, if◌then◌else◌,
  length, take, drop, Result, ok, err, decode_exception, Bytes,
}

-- The bytes of `seastar::cpu_to_be(v)`, most significant first.
unfoldable pub be_bytes : ℕ → ℕ → Bytes
be_bytes zero v = []
be_bytes (suc w) v = be_bytes w (v / 256) ++ (v % 256) ∷ []

-- The integer that `seastar::be_to_cpu` reads from bytes; `acc` stands before them.
unfoldable pub be_value : ℕ → Bytes → ℕ
be_value acc [] = acc
be_value acc (b ∷ bs) = be_value (acc * 256 + b) bs

-- `ProtocolIntegerBase<IntType>::encode` with `sizeof(IntType)` = w.
unfoldable pub encode : ℕ → ℕ → Bytes → Bytes
encode w v buffer = buffer ++ be_bytes w v

-- `ProtocolIntegerBase<IntType>::decode`; the list is what lies between `ptr` and `end`.
unfoldable pub decode : ℕ → Bytes → Result (ℕ × Bytes)
decode w bs =
    if ltb (length bs) w then err decode_exception else ok (be_value 0 (take w bs), drop w bs)

-- `value < 0` for a signed IntType of w bytes.
abbrev pub is_negative : ℕ → ℕ → Bool
is_negative w v = leb (256 ^ w / 2) v

-- `std::numeric_limits<LengthType>::max()` for a length of w bytes, signed or not.
abbrev pub max_length : ℕ → Bool → ℕ
max_length w signed = if signed then 256 ^ w / 2 - 1 else 256 ^ w - 1
