-- ===== src/Tests/HandshakeRuns.antt =====
-- Runs of the handshake of a connection.
use cpv_cql_driver.Common.{
  ℕ, ◌≡◌, refl, List, [], ◌∷◌, ◌++◌, map, true, false, Option, some, Bytes, ok, err,
  not_implemented_exception, destroyed_object,
}
use cpv_cql_driver.Protocol.Maps.{Entries, Rehash, string_map, lookup, bytes_eq}
use cpv_cql_driver.Protocol.SizedString.{SizedString}
use cpv_cql_driver.Query.Startup.{Options, compression_key}
use cpv_cql_driver.Response.{ResultMessage, new_result, kind_set_key_space, string_multi_map}
use cpv_cql_driver.Response.Frames.{result, ready, supported}
use cpv_cql_driver.Handshake.{
  options, startup, allow_all, password, password_class, Setup, get_authenticator, get_compressor,
  lz4, ready_connection,
}
use cpv_cql_driver.Handshake
use cpv_cql_driver.Handshake.Outcome.{IsEnded, ready_connection-IsEnded}
use cpv_cql_driver.Handshake.Agreement.{
  all_sent, later_requests, agreed_answers, new_handshake, ready_connection-agrees,
}
use cpv_cql_driver.Handshake.Startup.{IsAgreed, IsStartup}

abbrev order : Rehash string_map
order = record { arrange = λ m. m; arrange-IsDistinct = λ m h. h; lookup-arrange = λ m h j. refl }

abbrev text : List ℕ → SizedString
text bs = record { state = 0; value = bs }

abbrev offers : Entries string_multi_map
offers = (compression_key, text (115 ∷ []) ∷ text lz4 ∷ []) ∷ []

abbrev secure : Setup
secure = record {
  authenticator = password;
  authenticator_data = 0 ∷ 117 ∷ 0 ∷ 112 ∷ [];
  use_compression = true;
  default_key_space = 107 ∷ 115 ∷ [];
}

abbrev key_space_set : ResultMessage
key_space_set = record new_result { kind = kind_set_key_space }

ready_connection-agrees_example :
    (compressor : Option Bytes) × (o : Options) × IsAgreed true offers compressor
    × IsStartup compressor o
    × (ready_connection order secure (ok tt) (
          new_handshake
            (all_sent secure)
            (map ok (agreed_answers secure offers (text []) key_space_set) ++ []))
        ≡ (
          ok tt,
          record {
            is_ready = true;
            compressor = compressor;
            initialize_errors = 0;
            sent = options ∷ startup o ∷ later_requests secure;
            sendings = [];
            answers = [];
          },
        ))
ready_connection-agrees_example =
    ready_connection-agrees order secure offers (text []) key_space_set [] refl

-- The server breaks off after SUPPORTED.
ready_connection-IsEnded_example :
    IsEnded (new_handshake (ok tt ∷ ok tt ∷ []) (ok (supported offers) ∷ [])) (
      ready_connection order secure
        (ok tt)
        (new_handshake (ok tt ∷ ok tt ∷ []) (ok (supported offers) ∷ [])))
ready_connection-IsEnded_example =
    ready_connection-IsEnded order secure (ok tt)
      (new_handshake (ok tt ∷ ok tt ∷ []) (ok (supported offers) ∷ [])) refl

compressor_offered : get_compressor offers ≡ some lz4
unfolding get_compressor lookup bytes_eq Handshake.has_lz4
compressor_offered = refl

unknown_authenticator : get_authenticator (120 ∷ []) ≡ err not_implemented_exception
unfolding get_authenticator bytes_eq
unknown_authenticator = refl

-- A server that answers `use` with a result of another kind.
abbrev open_setup : Setup
open_setup = record {
  authenticator = allow_all;
  authenticator_data = [];
  use_compression = false;
  default_key_space = 107 ∷ [];
}

moved_from :
    (ready_connection order open_setup (ok tt) (
      new_handshake
        (ok tt ∷ ok tt ∷ ok tt ∷ [])
        (ok (supported []) ∷ ok ready ∷ ok (result new_result) ∷ []))).0
    ≡ err destroyed_object
unfolding ready_connection Handshake.converse Handshake.handle_supported Handshake.allow
    Handshake.set_key_space Handshake.check_key_space
moved_from = refl
