-- ===== src/Protocol/VariableInteger.antt =====
-- src/LowLevel/ProtocolTypes/ProtocolVariableIntegerBase.cpp, and the zig-zag coding of
-- ProtocolVint.hpp. The leading ones of the first byte say how many bytes follow it.
pub mod RoundTrip
use cpv_cql_driver.Common.{
  ℕ, zero, suc, ◌+◌, ◌-◌, ◌*◌, ◌/◌, ◌%◌, ◌^◌, List, [], ◌∷◌, ◌++◌, Bool, true, false, not, ltb, leb,
  ◌==◌, if◌then◌else◌, length, get_elem?, none, some, take, drop, bit_and, bit_or, Result, ok, err,
  ◌>>=◌, decode_exception, Bytes,
}
use cpv_cql_driver.Protocol.Integer.{be_bytes}

-- `ExtraBytesHeaders[n]`; n is at most 8.
abbrev pub extra_bytes_headers : List ℕ
extra_bytes_headers =
    0b00000000 ∷ 0b10000000 ∷ 0b11000000 ∷ 0b11100000 ∷ 0b11110000 ∷ 0b11111000 ∷ 0b11111100
    ∷ 0b11111110 ∷ 0b11111111 ∷ []

unfoldable pub extra_bytes_header : ℕ → ℕ
extra_bytes_header n = elim (get_elem? extra_bytes_headers n) [ none ↦ 0 | some h ↦ h ]

-- "trim empty bytes".
unfoldable pub trim : Bytes → Bytes
trim [] = []
trim (b ∷ bs) = let rest = trim bs in if b == 0 then rest else b ∷ bs

-- The header stands before the bytes, or in the first of them where its bits are free.
unfoldable pub embed : Bytes → Bytes → Bytes
embed [] buffer = buffer ++ 0 ∷ []
embed (b ∷ rest) buffer =
    let total = length (b ∷ rest) in
    let header = extra_bytes_header total in
    if not (bit_and header b == 0)
    then buffer ++ header ∷ (b ∷ rest)
    else buffer ++ bit_or b (extra_bytes_header (total - 1)) ∷ rest

-- `ProtocolVariableIntegerBase::encode`
unfoldable pub encode_variable : ℕ → Bytes → Bytes
encode_variable value buffer = embed (trim (be_bytes 8 value)) buffer

-- `while (header & 0b10000000)`, on a byte; a byte has eight bits, so nine rounds are enough.
unfoldable pub leading_ones : ℕ → ℕ → ℕ
leading_ones zero header = 0
leading_ones (suc rounds) header = elim (bit_and header 0x80 == 0) [
  | true ↦ 0
  | false ↦ leading_ones rounds (header * 2 % 256) + 1
]

abbrev pub extra_bytes : ℕ → ℕ
extra_bytes header = leading_ones 9 header

-- The header shifted to the left and back, as a byte.
abbrev pub payload : ℕ → ℕ
payload header = header * 2 ^ extra_bytes header % 256 / 2 ^ extra_bytes header

-- `value_ = (value_ << 8) | ptr[i]`, on 64 bits.
unfoldable pub append_bytes : ℕ → Bytes → ℕ
append_bytes value [] = value
append_bytes value (b ∷ bs) = append_bytes (value * 256 % 2 ^ 64 + b) bs

-- `ProtocolVariableIntegerBase::decode`
unfoldable pub decode_variable : Bytes → Result (ℕ × Bytes)
decode_variable [] = err decode_exception
decode_variable (header ∷ rest) =
    let n = extra_bytes header in
    if ltb (length rest) n
    then err decode_exception
    else ok (append_bytes (payload header) (take n rest), drop n rest)

-- `ProtocolVint::get` and `set`; the integer is its pattern of 64 bits, and `^` with all bits set
-- gives the complement.
unfoldable pub vint_get : ℕ → ℕ
vint_get value = if value % 2 == 0 then value / 2 else 2 ^ 64 - 1 - value / 2

unfoldable pub vint_set : ℕ → ℕ
vint_set value = if leb (2 ^ 63) value then 2 ^ 64 - 1 - value * 2 % 2 ^ 64 else value * 2 % 2 ^ 64
