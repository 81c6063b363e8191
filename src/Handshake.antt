-- ===== src/Handshake.antt =====
-- `Connection::ready` of src/LowLevel/Connection.cpp with src/LowLevel/Authenticators and
-- src/LowLevel/Compressors/CompressorFactory.cpp: what is said on stream zero before a connection is
-- ready. The messages that the server will send, and what becomes of each sending, are lists.
pub mod Outcome
pub mod Startup
pub mod Agreement
use cpv_cql_driver.Common.{
  ℕ, ◌+◌, List, [], ◌∷◌, ◌++◌, Bool, true, false, not, ◌||◌, ◌==◌, if◌then◌else◌, Option, none,
  some, Result, ok, err, logic_exception, network_exception, response_error_exception,
  not_implemented_exception, authenticate_exception, connection_initialize_exception,
  destroyed_object, Error, Bytes,
}
use cpv_cql_driver.Protocol.Maps.{Entries, Rehash, lookup, string_map, bytes_eq}
use cpv_cql_driver.Protocol.SizedString.{SizedString}
use cpv_cql_driver.Query.Startup.{Options, compression_key, reset_options, set_compression}
use cpv_cql_driver.Response.{ResultMessage, kind_set_key_space, string_multi_map}
use cpv_cql_driver.Response.Frames.{
  ResponseMessage, result, ready, supported, authenticate, auth_success,
}

-- "org.apache.cassandra.auth."
abbrev class_prefix : Bytes
class_prefix =
    111 ∷ 114 ∷ 103 ∷ 46 ∷ 97 ∷ 112 ∷ 97 ∷ 99 ∷ 104 ∷ 101 ∷ 46 ∷ 99 ∷ 97 ∷ 115 ∷ 115 ∷ 97 ∷ 110
    ∷ 100 ∷ 114 ∷ 97 ∷ 46 ∷ 97 ∷ 117 ∷ 116 ∷ 104 ∷ 46 ∷ []

-- `AuthenticatorClasses`
abbrev pub allow_all_class : Bytes
allow_all_class =
    class_prefix
    ++ 65 ∷ 108 ∷ 108 ∷ 111 ∷ 119 ∷ 65 ∷ 108 ∷ 108 ∷ 65 ∷ 117 ∷ 116 ∷ 104 ∷ 101 ∷ 110 ∷ 116 ∷ 105
      ∷ 99 ∷ 97 ∷ 116 ∷ 111 ∷ 114 ∷ []

abbrev pub password_class : Bytes
password_class =
    class_prefix
    ++ 80 ∷ 97 ∷ 115 ∷ 115 ∷ 119 ∷ 111 ∷ 114 ∷ 100 ∷ 65 ∷ 117 ∷ 116 ∷ 104 ∷ 101 ∷ 110 ∷ 116 ∷ 105
      ∷ 99 ∷ 97 ∷ 116 ∷ 111 ∷ 114 ∷ []

pub data Authenticator : Type 0 where
  allow_all password : Authenticator

abbrev is_empty : Bytes → Bool
is_empty [] = true
is_empty (b ∷ bs) = false

-- `AuthenticatorFactory::getAuthenticator`
unfoldable pub get_authenticator : Bytes → Result Authenticator
get_authenticator name =
    if is_empty name || bytes_eq name allow_all_class
    then ok allow_all
    else if bytes_eq name password_class
    then ok password
    else err not_implemented_exception

-- "lz4"
abbrev pub lz4 : Bytes
lz4 = 108 ∷ 122 ∷ 52 ∷ []

unfoldable pub has_lz4 : List SizedString → Bool
has_lz4 [] = false
has_lz4 (algorithm ∷ algorithms) =
    let others = has_lz4 algorithms in if bytes_eq algorithm.value lz4 then true else others

-- `CompressorFactory::getCompressor`, by the name of the compressor.
unfoldable pub get_compressor : Entries string_multi_map → Option Bytes
get_compressor options = elim (lookup string_multi_map compression_key options) [
  | none ↦ none
  | some algorithms ↦ if has_lz4 algorithms then some lz4 else none
]

-- What the handshake reads of the configurations.
pub record Setup : Type 0 where
  pub authenticator : Authenticator
  pub authenticator_data : Bytes
  pub use_compression : Bool
  pub default_key_space : Bytes

pub data Request : Type 0 where
  options : Request
  startup : Options → Request
  auth_response : Bytes → Request
  query : Bytes → Request

pub record Handshake : Type 0 where
  pub is_ready : Bool
  pub compressor : Option Bytes
  pub initialize_errors : ℕ
  pub sent : List Request
  -- What the next calls of `sendMessage` and `waitNextMessage` give.
  pub sendings : List (Result (Unit {0}))
  pub answers : List (Result ResponseMessage)

-- A part of the chain of `then`.
abbrev pub Step : Type 0 → Type 0
Step A = Handshake → Result A × Handshake

abbrev pub and_then : {A B : Type 0} → Result A × Handshake → (A → Step B) → Result B × Handshake
and_then (err e, h) next = (err e, h)
and_then (ok a, h) next = next a h

abbrev pub next_sending :
    Request → Handshake → List (Result (Unit {0})) → Result (Unit {0}) × Handshake
next_sending request h [] = (err network_exception, h)
next_sending request h (r ∷ rest) = (r, record h { sent = h.sent ++ request ∷ []; sendings = rest })

-- `sendMessage`; when the lists run out, the connection is broken.
abbrev pub send : Request → Step (Unit {0})
send request h = next_sending request h h.sendings

abbrev pub next_answer :
    Handshake → List (Result ResponseMessage) → Result ResponseMessage × Handshake
next_answer h [] = (err network_exception, h)
next_answer h (r ∷ rest) = (r, record h { answers = rest })

-- `waitNextMessage`
abbrev pub wait : Step ResponseMessage
wait h = next_answer h h.answers

-- The message after OPTIONS.
unfoldable pub handle_supported : Setup → ResponseMessage → Step (Unit {0})
handle_supported c (supported found) h =
    (ok tt, if c.use_compression then record h { compressor = get_compressor found } else h)
handle_supported c _ h = (err logic_exception, h)

-- `AllowAllAuthenticator::authenticate`
unfoldable pub allow : ResponseMessage → Step (Unit {0})
allow ready h = (ok tt, h)
allow _ h = (err authenticate_exception, h)

-- The first part of `PasswordAuthenticator::authenticate`.
unfoldable pub answer_password : Setup → ResponseMessage → Step (Unit {0})
answer_password c (authenticate (some name)) h =
    if bytes_eq name.value password_class
    then send (auth_response c.authenticator_data) h
    else (err authenticate_exception, h)
answer_password c _ h = (err authenticate_exception, h)

unfoldable pub check_success : ResponseMessage → Step (Unit {0})
check_success (auth_success token) h = (ok tt, h)
check_success _ h = (err authenticate_exception, h)

-- `PasswordAuthenticator::authenticate`
unfoldable pub authenticate_with_password : Setup → Step (Unit {0})
authenticate_with_password c h =
    and_then (and_then (wait h) (answer_password c)) (λ done h'. and_then (wait h') check_success)

-- `authenticate` of the authenticator.
abbrev pub authenticate_by : Authenticator → Setup → Step (Unit {0})
authenticate_by allow_all c h = and_then (wait h) allow
authenticate_by password c h = authenticate_with_password c h

abbrev pub perform_authentication : Setup → Step (Unit {0})
perform_authentication c h = authenticate_by c.authenticator c h

-- The message after `use`. With another kind of result the text of the exception is asked of a
-- pointer that was moved from.
unfoldable pub check_key_space : ResponseMessage → Step (Unit {0})
check_key_space (result m) h =
    if m.kind == kind_set_key_space then (ok tt, h) else (err destroyed_object, h)
check_key_space _ h = (err response_error_exception, h)

-- "use " and ";"
abbrev pub use_query : Bytes → Bytes
use_query key_space = (117 ∷ 115 ∷ 101 ∷ 32 ∷ []) ++ (key_space ++ 59 ∷ [])

unfoldable pub set_key_space : Setup → Step (Unit {0})
set_key_space c h =
    if is_empty c.default_key_space
    then (ok tt, h)
    else and_then (send (query (use_query c.default_key_space)) h)
        (λ done h'. and_then (wait h') check_key_space)

-- `close`, as far as the handshake goes.
abbrev pub close : Handshake → Handshake
close h = record h { is_ready = false; compressor = none }

-- The last two parts of the chain. An access through a null pointer leaves nothing to go on with.
abbrev pub finish : Result (Unit {0}) × Handshake → Result (Unit {0}) × Handshake
finish (ok done, h) = (ok tt, record h { is_ready = true })
finish (err destroyed_object, h) = (err destroyed_object, h)
finish (err e, h) = (
  err connection_initialize_exception,
  close (record h { initialize_errors = h.initialize_errors + 1 }),
)

module _ (order : Rehash string_map) where
  -- The STARTUP request.
  abbrev pub startup_of : Option Bytes → Request
  startup_of none = startup (reset_options order [])
  startup_of (some name) = startup (set_compression order (some name) (reset_options order []))

  -- What follows a connected socket.
  unfoldable pub converse : Setup → Step (Unit {0})
  converse c h = and_then (and_then (send options h) (λ done. wait)) (λ m h₁.
      and_then (handle_supported c m h₁) (λ done h₂.
        and_then (send (startup_of h₂.compressor) h₂)
          (λ done' h₃. and_then (perform_authentication c h₃) (λ done''. set_key_space c))))

  -- What the connector gives: a socket, or an exception that becomes a NetworkException.
  abbrev pub after_connect : Result (Unit {0}) → Setup → Step (Unit {0})
  after_connect (err e) c h = (err network_exception, h)
  after_connect (ok done) c h = converse c h

  -- `Connection::ready`, where `connected` is what the connector gives.
  unfoldable pub ready_connection : Setup → Result (Unit {0}) → Step (Unit {0})
  ready_connection c connected h =
      if h.is_ready then (ok tt, h) else finish (after_connect connected c h)
