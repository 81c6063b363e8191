-- ===== src/Tests/Wire.antt =====
-- Runs of the codecs.
use cpv_cql_driver.Common.{◌≡◌, refl, [], ◌∷◌, ◌++◌, arith, ok, All, Bytes, IsByte}
use cpv_cql_driver.Protocol.Integer.{be_bytes}
use cpv_cql_driver.Protocol.Integer
use cpv_cql_driver.Protocol.SizedString.{
  SizedString, bytes_traits, normal, null, not_set, decode_value, decode_bytes,
}
use cpv_cql_driver.Protocol.SizedString
use cpv_cql_driver.Protocol.VariableInteger.{encode_variable, decode_variable}
use cpv_cql_driver.Protocol.VariableInteger.RoundTrip.{decode-encode_variable}
use cpv_cql_driver.Protocol.SizedString.RoundTrip.{IsSendable, normal_state, decode-encode_sized}

two_bytes_are_bytes : All IsByte (1 ∷ 2 ∷ [])
two_bytes_are_bytes = (omega arith, (omega arith, tt))

two_bytes_decoded : Integer.decode 2 (1 ∷ 2 ∷ []) ≡ ok (258, [])
unfolding Integer.decode Integer.be_value
two_bytes_decoded = refl

abbrev some_bytes : SizedString
some_bytes = record { state = normal; value = 65 ∷ 66 ∷ [] }

some_bytes-IsSendable : IsSendable bytes_traits some_bytes
some_bytes-IsSendable = normal_state refl (omega arith)

decode-encode_sized_example :
    (out : Bytes) × (SizedString.encode bytes_traits some_bytes (9 ∷ []) ≡ ok ((9 ∷ []) ++ out))
    × (SizedString.decode bytes_traits (out ++ 7 ∷ []) ≡ ok (some_bytes, 7 ∷ []))
decode-encode_sized_example =
    decode-encode_sized bytes_traits some_bytes (9 ∷ []) (7 ∷ []) (omega arith)
      some_bytes-IsSendable

decode-encode_variable_example :
    (out : Bytes) × (encode_variable 256000 (9 ∷ []) ≡ (9 ∷ []) ++ out)
    × (decode_variable (out ++ 7 ∷ []) ≡ ok (256000, 7 ∷ []))
decode-encode_variable_example = decode-encode_variable 256000 (9 ∷ []) (7 ∷ []) (omega arith)
