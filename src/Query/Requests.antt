-- ===== src/Query/Requests.antt =====
-- src/LowLevel/RequestMessages: the bodies of the QUERY, EXECUTE, PREPARE, REGISTER, AUTH_RESPONSE and
-- OPTIONS requests.
use cpv_cql_driver.Common.{
  ℕ, ◌%◌, ◌^◌, ◌<◌, ◌≡◌, ◌∙◌, refl, ap, arith, List, [], ◌++◌, append_assoc, length, none, some,
  map_option, Result, ok, ◌>>=◌, ◌>>◌, require, logic_exception, Bytes, if◌then◌else◌, true, false,
}
use cpv_cql_driver.Protocol.Integer.{be_bytes}
use cpv_cql_driver.Protocol.Integer
use cpv_cql_driver.Protocol.SizedString.{
  SizedString, bytes_traits, string_traits, long_string_traits, decode, decode_long_string,
}
use cpv_cql_driver.Protocol.SizedString
use cpv_cql_driver.Protocol.SizedString.RoundTrip.{decode_normal}
use cpv_cql_driver.Protocol.Lists.{string_element, encode_list}
use cpv_cql_driver.Protocol.Timestamp.{cut_to_microseconds}
use cpv_cql_driver.Batch.Parameters.{has_value}
use cpv_cql_driver.Query.Parameters.{
  Command, QueryParameters, set_command_ref, encode_query_parameters, decode_query_parameters,
}
use cpv_cql_driver.Query.Parameters.Parts.{Value, Fits}
use cpv_cql_driver.Query.Parameters.RoundTrip.{decode-encode_query_parameters}

-- `QueryMessage::encodeBody`, which does not check that the size of the query fits an `int`.
unfoldable pub encode_query_body : QueryParameters → Bytes → Result Bytes
encode_query_body p buffer = do
  require p.command.is_valid logic_exception
  let query = p.command.query
  let buffer' = Integer.encode 4 (length query % 2 ^ 32) buffer ++ query
  encode_query_parameters p buffer'

-- `ExecuteMessage::encodeBody`, the id being [short bytes].
unfoldable pub encode_execute_body : SizedString → QueryParameters → Bytes → Result Bytes
encode_execute_body id p buffer = do
  buffer' ← SizedString.encode string_traits id buffer
  encode_query_parameters p buffer'

-- `PrepareMessage::encodeBody`
unfoldable pub encode_prepare_body : SizedString → Bytes → Result Bytes
encode_prepare_body query buffer = SizedString.encode long_string_traits query buffer

-- `RegisterMessage::encodeBody`
unfoldable pub encode_register_body : List SizedString → Bytes → Result Bytes
encode_register_body events buffer = encode_list string_element 2 false events buffer

-- `AuthResponseMessage::encodeBody`
unfoldable pub encode_auth_response_body : SizedString → Bytes → Result Bytes
encode_auth_response_body token buffer = SizedString.encode bytes_traits token buffer

-- `OptionsMessage::encodeBody`
unfoldable pub encode_options_body : Bytes → Result Bytes
encode_options_body buffer = ok buffer

set_command_ref-command :
    (c : Command) (p q : QueryParameters) → set_command_ref c p ≡ ok q → q.command ≡ c
unfolding set_command_ref
set_command_ref-command c p q h = ground arith

-- The body of a QUERY request is read back as the query, a [long string], and then the values of the
-- command, its default timestamp cut to whole microseconds, with nothing left, if the command is
-- valid and has a consistency, the query is shorter than 2 ^ 31 bytes and the values fit. The query,
-- the retries and the wish to prepare are not among the values, nor is the paging state of a command
-- without a page size.
pub query_body-IsRead :
    (p : QueryParameters) (c : Command) (consistency : ℕ) (values : List Value)
    (buffer rest : Bytes)
    → c.is_valid ≡ true
    → c.consistency ≡ some consistency
    → consistency < 2 ^ 16
    → length c.query < 2 ^ 31
    → Fits c values
    → (q : QueryParameters) × (out : Bytes) × (left : Bytes) × (set_command_ref c p ≡ ok q)
      × (encode_query_body q buffer ≡ ok (buffer ++ out))
      × (decode_long_string (out ++ rest) ≡ ok (record { state = 0; value = c.query }, left))
      × (decode_query_parameters left
          ≡ ok (
            record q {
              command = record c {
                query = [];
                need_prepare = none;
                max_retries = 0;
                paging_state = if has_value c.page_size then c.paging_state else [];
                default_timestamp = map_option cut_to_microseconds c.default_timestamp;
              };
            },
            rest,
          ))
unfolding encode_query_body decode_long_string Integer.encode
query_body-IsRead p c consistency values buffer rest valid e small short fits =
    let n = length c.query in
    let head = be_bytes 4 n ++ c.query in
    let (q, out, set, skips, encoded, decoded) =
      decode-encode_query_parameters p c consistency values (buffer ++ head) rest valid e small
        fits in
    let same = set_command_ref-command c p q set in
    let size : n % 2 ^ 32 ≡ n = omega arith in
    (
      q,
      head ++ out,
      out ++ rest,
      set,
      rw
          (
            ap (λ x. x.is_valid) same ∙ valid,
            ap (λ x. x.query) same,
            size,
            append_assoc buffer (be_bytes 4 n) c.query,
          )
          (encoded ∙ ap ok (append_assoc buffer head out)),
      rw
          (
            append_assoc head out rest,
            decode_normal long_string_traits (record { state = 0; value = c.query }) (omega arith)
                refl (omega arith) (out ++ rest),
          )
          refl,
      decoded,
    )
