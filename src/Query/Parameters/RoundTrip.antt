-- ===== src/Query/Parameters/RoundTrip.antt =====
-- Decoding undoes encoding for the values of a command.
use cpv_cql_driver.Common.{
  ℕ, Option, ◌^◌, ◌<◌, ◌≡◌, ◌∙◌, refl, sym, ap, arith, List, [], ◌∷◌, ◌++◌, append_assoc, Bool,
  true, false, not, ◌&&◌, ltb, ◌==◌, ne→==, if◌then◌else◌, length, none, some, map_option, ok,
  Bytes, has_flag,
}
use cpv_cql_driver.Protocol.Integer.{be_bytes, is_negative}
use cpv_cql_driver.Protocol.Integer.RoundTrip.{decode-be_bytes}
use cpv_cql_driver.Protocol.Integer
use cpv_cql_driver.Protocol.Timestamp.{microseconds_of, time_point_of, cut_to_microseconds}
use cpv_cql_driver.Batch.RoundTrip.{has_value-map, Fits-microseconds, time_points-microseconds}
use cpv_cql_driver.Batch.Parameters.{
  has_value, flagged_bytes, encode_flagged_lem, decode_flagged_lem,
}
use cpv_cql_driver.Query.Parameters.{
  Command, QueryParameters, with_values, skip_metadata, with_page_size, with_paging_state,
  with_serial_consistency, with_default_timestamp, with_names_for_value, command_flags,
  set_command_ref, encode_query_parameters, decode_query_parameters,
}
use cpv_cql_driver.Query.Parameters.Parts.{
  Value, Fits, parameter_bytes, page_bytes, state_bytes, values_bytes, flags_of, flags_lem,
  encode_parameters_lem, decode_parameters_lem, encode_page_size_lem, decode_page_size_lem,
  encode_paging_state_lem, decode_paging_state_lem,
}

-- What a set of flags announces of a command.
record Announces (f : ℕ) (c : Command) (values : List Value) : Type 0 where
  byte : f < 256
  with_values_set : has_flag f with_values ≡ ltb 0 (length values)
  page_size_set : has_flag f with_page_size ≡ has_value c.page_size
  state_set :
      has_flag f with_paging_state ≡ (has_value c.page_size && not (length c.paging_state == 0))
  serial_set : has_flag f with_serial_consistency ≡ has_value c.serial_consistency
  timestamp_set : has_flag f with_default_timestamp ≡ has_value c.default_timestamp
  names_not_set : has_flag f with_names_for_value ≡ false

module _ (f consistency : ℕ) (c : Command) (values : List Value) (set : Announces f c values)
    (fits : Fits c values) (valid : c.is_valid ≡ true) (e : c.consistency ≡ some consistency) where
  abbrev sends_state : Bool
  sends_state = has_value c.page_size && not (length c.paging_state == 0)

  abbrev sent_timestamp : Option ℕ
  sent_timestamp = map_option microseconds_of c.default_timestamp

  sent_set : has_flag f with_default_timestamp ≡ has_value sent_timestamp
  sent_set = set.timestamp_set ∙ sym (has_value-map c.default_timestamp)

  abbrev command_bytes : Bytes
  command_bytes =
      be_bytes 2 consistency
      ++ (be_bytes 1 f
          ++ (parameter_bytes values
              ++ (page_bytes c.page_size
                  ++ (state_bytes sends_state c.paging_state
                      ++ (flagged_bytes 2 c.serial_consistency
                          ++ flagged_bytes 8 sent_timestamp)))))

  encode_command :
      (buffer : Bytes)
      → encode_query_parameters (record { flags = f; command = c }) buffer
        ≡ ok (buffer ++ command_bytes)
  unfolding encode_query_parameters Integer.encode
  encode_command buffer =
      let start = (buffer ++ be_bytes 2 consistency) ++ be_bytes 1 f in
      let b₁ = start ++ parameter_bytes values in
      let b₂ = b₁ ++ page_bytes c.page_size in
      let b₃ = b₂ ++ state_bytes sends_state c.paging_state in
      let b₄ = b₃ ++ flagged_bytes 2 c.serial_consistency in
      simp (valid, e)
        (rw
          (
            encode_parameters_lem f c values fits start set.with_values_set,
            encode_page_size_lem f c b₁ set.page_size_set fits.page_size_fits,
            encode_paging_state_lem f sends_state c b₂ set.state_set fits.state_fits,
            encode_flagged_lem f with_serial_consistency 2 c.serial_consistency b₃ set.serial_set,
          )
          (encode_flagged_lem f with_default_timestamp 8 sent_timestamp b₄ sent_set
            ∙ ap ok (simp append_assoc)))

  decode_command :
      (rest : Bytes)
      → consistency < 2 ^ 16
      → decode_query_parameters (command_bytes ++ rest)
        ≡ ok (
          record {
            flags = f;
            command = record c {
              is_valid = true;
              query = [];
              need_prepare = none;
              consistency = some consistency;
              max_retries = 0;
              parameter_count = length values;
              parameters = values_bytes values;
              paging_state = if sends_state then c.paging_state else [];
              default_timestamp = map_option time_point_of sent_timestamp;
            };
          },
          rest,
        )
  unfolding decode_query_parameters
  decode_command rest small =
      let y = flagged_bytes 8 sent_timestamp ++ rest in
      let x = flagged_bytes 2 c.serial_consistency ++ y in
      let t = state_bytes sends_state c.paging_state ++ x in
      let g = page_bytes c.page_size ++ t in
      let v = parameter_bytes values ++ g in
      simp append_assoc (
        rw
          (
            decode-be_bytes 2 consistency (be_bytes 1 f ++ v) small,
            decode-be_bytes 1 f v set.byte,
            decode_parameters_lem f c values fits g set.with_values_set set.names_not_set,
            decode_page_size_lem f c.page_size t set.page_size_set fits.page_size_fits,
            decode_paging_state_lem f sends_state c.paging_state x set.state_set fits.state_fits,
            decode_flagged_lem f with_serial_consistency 2 c.serial_consistency y set.serial_set
                fits.serial_fits,
            decode_flagged_lem f with_default_timestamp 8 sent_timestamp rest sent_set
                (Fits-microseconds c.default_timestamp fits.timestamp_fits),
          )
          refl)

-- An empty paging state is not sent, and is read as empty.
state_kept :
    (page : Bool) (state : Bytes)
    → (if page && not (length state == 0) then state else []) ≡ (if page then state else [])
state_kept false state = refl
state_kept true [] = refl
state_kept true (b ∷ state) = rw (ne→== (length (b ∷ state)) 0 (λ h. absurd (omega (arith, h))))

-- The values of a valid command with a consistency are encoded, under the flags that `setCommandRef`
-- sets, to the end of any buffer, if they fit their widths and the parameters are the encoding of as
-- many values as are counted; from the front of any bytes they are decoded to the same flags and
-- values, but for the default timestamp, whose nanoseconds are cut to whole microseconds. The query, the retries and the wish to prepare are not sent, nor is the paging state of a
-- command without a page size.
pub decode-encode_query_parameters :
    (p : QueryParameters) (c : Command) (consistency : ℕ) (values : List Value)
    (buffer rest : Bytes)
    → c.is_valid ≡ true
    → c.consistency ≡ some consistency
    → consistency < 2 ^ 16
    → Fits c values
    → (q : QueryParameters) × (out : Bytes) × (set_command_ref c p ≡ ok q)
      × (has_flag q.flags skip_metadata ≡ has_flag p.flags skip_metadata)
      × (encode_query_parameters q buffer ≡ ok (buffer ++ out))
      × (decode_query_parameters (out ++ rest)
          ≡ ok (
            record q {
              command = record c {
                query = [];
                need_prepare = none;
                max_retries = 0;
                paging_state = if has_value c.page_size then c.paging_state else [];
                default_timestamp = map_option cut_to_microseconds c.default_timestamp;
              };
            },
            rest,
          ))
unfolding set_command_ref command_flags
decode-encode_query_parameters p c consistency values buffer rest valid e small fits =
    let skip = has_flag p.flags skip_metadata in
    let count = ltb 0 (length values) in
    let page = has_value c.page_size in
    let state = not (length c.paging_state == 0) in
    let serial = has_value c.serial_consistency in
    let timestamp = has_value c.default_timestamp in
    let f = flags_of skip count page state serial timestamp in
    let (byte, h_values, h_skip, h_page, h_state, h_serial, h_timestamp, h_names) =
      flags_lem skip count page state serial timestamp in
    let set : Announces f c values = record {
      byte = byte;
      with_values_set = h_values;
      page_size_set = h_page;
      state_set = h_state;
      serial_set = h_serial;
      timestamp_set = h_timestamp;
      names_not_set = h_names;
    } in
    (
      record { flags = f; command = c },
      command_bytes f consistency c values set fits valid e,
      rw (valid, e, fits.count_given) refl,
      h_skip,
      encode_command f consistency c values set fits valid e buffer,
      decode_command f consistency c values set fits valid e rest small ∙ (λ i. ok (
        record {
          flags = f;
          command = record c {
            is_valid = sym valid i;
            query = [];
            need_prepare = none;
            consistency = sym e i;
            max_retries = 0;
            parameter_count = sym fits.count_given i;
            parameters = sym fits.parameters_given i;
            paging_state = state_kept page c.paging_state i;
            default_timestamp = time_points-microseconds c.default_timestamp fits.timestamp_fits i;
          };
        },
        rest,
      )),
    )
