-- ===== src/Protocol/SizedString.antt =====
-- src/LowLevel/ProtocolTypes/ProtocolSizedStringBase.hpp and its instances [bytes], [value],
-- [long string], [string] and [short bytes].
pub mod RoundTrip
pub mod States
use cpv_cql_driver.Common.{
  ℕ, ◌+◌, ◌-◌, ◌%◌, ◌^◌, List, [], ◌∷◌, ◌++◌, Bool, true, false, not, ◌&&◌, ◌||◌, ltb, ◌==◌,
  if◌then◌else◌, length, take, drop, Result, ok, err, ◌>>=◌, decode_exception, encode_exception,
  Bytes,
}
use cpv_cql_driver.Protocol.Integer.{is_negative, max_length}
use cpv_cql_driver.Protocol.Integer

-- The template's arguments: `sizeof(LengthType)`, its signedness and the two states. A state is the
-- 32-bit pattern of the `int` under the enum.
pub record Traits : Type 0 where
  pub width : ℕ
  pub is_signed : Bool
  pub default_state : ℕ
  pub normal_state : ℕ

pub record SizedString : Type 0 where
  pub state : ℕ
  pub value : Bytes

-- The enumerators of ProtocolValueState; ProtocolBytesState has the first two.
abbrev pub normal : ℕ
normal = 0

abbrev pub null : ℕ
null = 2 ^ 32 - 1

abbrev pub not_set : ℕ
not_set = 2 ^ 32 - 2

abbrev pub bytes_traits : Traits
bytes_traits = record { width = 4; is_signed = true; default_state = null; normal_state = normal }

abbrev pub value_traits : Traits
value_traits = record {
  width = 4;
  is_signed = true;
  default_state = not_set;
  normal_state = normal;
}

abbrev pub long_string_traits : Traits
long_string_traits = record {
  width = 4;
  is_signed = true;
  default_state = normal;
  normal_state = normal;
}

-- [string] and [short bytes].
abbrev pub string_traits : Traits
string_traits = record {
  width = 2;
  is_signed = false;
  default_state = normal;
  normal_state = normal;
}

module _ (t : Traits) where
  unfoldable pub reset : SizedString
  reset = record { state = t.default_state; value = [] }

  -- `set(StateType)`: clears the value.
  unfoldable pub set_state : ℕ → SizedString
  set_state s = record { state = s; value = [] }

  unfoldable pub set_value : Bytes → SizedString
  set_value str = record { state = t.normal_state; value = str }

  -- A non-normal state is left behind, its value being empty.
  unfoldable pub append : SizedString → Bytes → SizedString
  append s str = record { state = t.normal_state; value = s.value ++ str }

  unfoldable pub encode : SizedString → Bytes → Result Bytes
  encode s buffer =
      if not (s.state == t.normal_state)
      then ok (Integer.encode t.width (s.state % 256 ^ t.width) buffer)
      else if ltb (max_length t.width t.is_signed) (length s.value)
      then err encode_exception
      else ok (Integer.encode t.width (length s.value % 256 ^ t.width) buffer ++ s.value)

  -- `static_cast<StateType>(size)` of a negative length: the sign is extended to 32 bits.
  abbrev sign_extend : ℕ → ℕ
  sign_extend size = size + (2 ^ 32 - 256 ^ t.width)

  unfoldable pub decode_body : ℕ → Bytes → Result (SizedString × Bytes)
  decode_body size rest =
      if not t.is_signed || not (is_negative t.width size)
      then (if ltb (length rest) size
          then err decode_exception
          else ok (record { state = t.normal_state; value = take size rest }, drop size rest))
      else ok (record { state = sign_extend size; value = [] }, rest)

  unfoldable pub decode : Bytes → Result (SizedString × Bytes)
  decode bs = do (size, rest) ← Integer.decode t.width bs; decode_body size rest

-- `ProtocolBytes::decode`: any negative length is null.
unfoldable pub decode_bytes : Bytes → Result (SizedString × Bytes)
decode_bytes bs = do
  (s, rest) ← decode bytes_traits bs
  ok (if not (s.state == normal) then record s { state = null } else s, rest)

-- `ProtocolValue::decode`: a negative length other than -1 and -2 is refused.
unfoldable pub decode_value : Bytes → Result (SizedString × Bytes)
decode_value bs = do
  (s, rest) ← decode value_traits bs
  if not (s.state == normal) && not (s.state == null) && not (s.state == not_set)
      then err decode_exception
      else ok (s, rest)

-- `ProtocolLongString::decode`: a negative length is refused.
unfoldable pub decode_long_string : Bytes → Result (SizedString × Bytes)
decode_long_string bs = do
  (s, rest) ← decode long_string_traits bs
  if not (s.state == normal) then err decode_exception else ok (s, rest)

-- `ProtocolString::decode` and `ProtocolShortBytes::decode`.
unfoldable pub decode_string : Bytes → Result (SizedString × Bytes)
decode_string bs = decode string_traits bs
