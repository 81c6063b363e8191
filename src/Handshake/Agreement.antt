-- ===== src/Handshake/Agreement.antt =====
-- A handshake with a server that does as the protocol says.
use cpv_cql_driver.Common.{
  ◌≡◌, refl, inl, subst, List, [], ◌∷◌, ◌++◌, map, Bool, true, false, if◌then◌else◌, Option, none,
  some, Result, ok, Bytes,
}
use cpv_cql_driver.Protocol.Maps.{Entries, Rehash, string_map, bytes_eq}
use cpv_cql_driver.Protocol.SizedString.{SizedString}
use cpv_cql_driver.Handshake.Startup.{
  IsAgreed, IsStartup, get_compressor-IsAgreed, start_options, start_options-IsStartup,
}
use cpv_cql_driver.Query.Startup.{Options}
use cpv_cql_driver.Response.{ResultMessage, kind_set_key_space, string_multi_map}
use cpv_cql_driver.Response.Frames.{
  ResponseMessage, result, ready, supported, authenticate, auth_success,
}
use cpv_cql_driver.Handshake.{
  Authenticator, allow_all, password, password_class, Setup, Request, Handshake, auth_response,
  query, options, startup, get_compressor, startup_of, handle_supported, allow, answer_password,
  check_success, authenticate_with_password, check_key_space, set_key_space, converse,
  ready_connection,
}

abbrev asked : SizedString
asked = record { state = 0; value = password_class }

-- What the server sends for each authenticator, and what the driver sends in between.
abbrev pub login_answers : Authenticator → SizedString → List ResponseMessage
login_answers allow_all token = ready ∷ []
login_answers password token = authenticate (some asked) ∷ auth_success (some token) ∷ []

abbrev pub login_requests : Authenticator → Bytes → List Request
login_requests allow_all secret = []
login_requests password secret = auth_response secret ∷ []

abbrev pub key_space_answers : Bytes → ResultMessage → List ResponseMessage
key_space_answers [] m = []
key_space_answers (b ∷ bs) m = result m ∷ []

-- "use ", the key space and ";".
abbrev pub key_space_requests : Bytes → List Request
key_space_requests [] = []
key_space_requests (b ∷ bs) = query ((117 ∷ 115 ∷ 101 ∷ 32 ∷ []) ++ ((b ∷ bs) ++ 59 ∷ [])) ∷ []

abbrev pub agreed_answers :
    Setup → Entries string_multi_map → SizedString → ResultMessage → List ResponseMessage
agreed_answers c found token m =
    supported found
    ∷ (login_answers c.authenticator token ++ key_space_answers c.default_key_space m)

-- What the driver sends after STARTUP.
abbrev pub later_requests : Setup → List Request
later_requests c =
    login_requests c.authenticator c.authenticator_data ++ key_space_requests c.default_key_space

-- The sendings of OPTIONS, STARTUP and the later requests all succeed.
abbrev pub all_sent : Setup → List (Result (Unit {0}))
all_sent c = ok tt ∷ ok tt ∷ map (λ r. ok tt) (later_requests c)

-- A connection before its handshake, with what its sendings and the server will give.
abbrev pub new_handshake : List (Result (Unit {0})) → List (Result ResponseMessage) → Handshake
new_handshake sendings answers = record {
  is_ready = false;
  compressor = none;
  initialize_errors = 0;
  sent = [];
  sendings = sendings;
  answers = answers;
}

class_found : bytes_eq password_class password_class ≡ true
unfolding bytes_eq
class_found = refl

module _ (order : Rehash string_map) where
  abbrev chosen : Bool → Entries string_multi_map → Option Bytes
  chosen wanted found = if wanted then get_compressor found else none

  chosen-IsAgreed :
      (wanted : Bool) (found : Entries string_multi_map)
      → IsAgreed wanted found (chosen wanted found)
  chosen-IsAgreed true found = get_compressor-IsAgreed found
  chosen-IsAgreed false found = inl refl

  startup_of-start_options :
      (compressor : Option Bytes)
      → startup_of order compressor ≡ startup (start_options order compressor)
  startup_of-start_options none = refl
  startup_of-start_options (some name) = refl

  -- The connection after a handshake with these first two requests.
  abbrev Becomes :
      Setup
      → Entries string_multi_map
      → SizedString
      → ResultMessage
      → List (Result ResponseMessage)
      → Option Bytes
      → Request
      → Type 0
  Becomes c found token m more compressor start =
      ready_connection order c (ok tt)
        (new_handshake (all_sent c) (map ok (agreed_answers c found token m) ++ more))
      ≡ (
        ok tt,
        record {
          is_ready = true;
          compressor = compressor;
          initialize_errors = 0;
          sent = options ∷ start ∷ later_requests c;
          sendings = [];
          answers = more;
        },
      )

  each_case :
      (a : Authenticator) (secret key_space : Bytes) (wanted : Bool)
      (found : Entries string_multi_map) (token : SizedString) (m : ResultMessage)
      (more : List (Result ResponseMessage))
      → m.kind ≡ kind_set_key_space
      → Becomes
          (record {
            authenticator = a;
            authenticator_data = secret;
            use_compression = wanted;
            default_key_space = key_space;
          })
          found
          token
          m
          more
          (chosen wanted found)
          (startup_of order (chosen wanted found))
  unfolding ready_connection converse handle_supported allow answer_password check_success
      authenticate_with_password check_key_space set_key_space
  each_case allow_all secret [] true found token m more h = refl
  each_case allow_all secret [] false found token m more h = refl
  each_case allow_all secret (b ∷ bs) true found token m more h = rw h refl
  each_case allow_all secret (b ∷ bs) false found token m more h = rw h refl
  each_case password secret [] true found token m more h = rw class_found refl
  each_case password secret [] false found token m more h = rw class_found refl
  each_case password secret (b ∷ bs) true found token m more h = rw (class_found, h) refl
  each_case password secret (b ∷ bs) false found token m more h = rw (class_found, h) refl

  -- When the sendings succeed and the server answers as agreed (SUPPORTED; READY, or AUTHENTICATE for
  -- the password authenticator and AUTH_SUCCESS; the result of `use` if there is a default key
  -- space), the connection becomes ready, with lz4 as its compressor if compression is wanted and the
  -- server lists lz4 under COMPRESSION, else with none. It has then sent exactly OPTIONS; STARTUP,
  -- whose options are CQL_VERSION 3.0.0 and, if there is a compressor, COMPRESSION with its name, and
  -- no other; the password if the password authenticator is in use; and `use` if there is a default
  -- key space. It has taken exactly those answers, and no error was counted.
  pub ready_connection-agrees :
      (c : Setup) (found : Entries string_multi_map) (token : SizedString) (m : ResultMessage)
      (more : List (Result ResponseMessage))
      → m.kind ≡ kind_set_key_space
      → (compressor : Option Bytes) × (o : Options) × IsAgreed c.use_compression found compressor
        × IsStartup compressor o
        × (ready_connection order c
              (ok tt)
              (new_handshake (all_sent c) (map ok (agreed_answers c found token m) ++ more))
            ≡ (
              ok tt,
              record {
                is_ready = true;
                compressor = compressor;
                initialize_errors = 0;
                sent = options ∷ startup o ∷ later_requests c;
                sendings = [];
                answers = more;
              },
            ))
  ready_connection-agrees c found token m more h =
      let compressor = chosen c.use_compression found in
      (
        compressor,
        start_options order compressor,
        chosen-IsAgreed c.use_compression found,
        start_options-IsStartup order compressor,
        subst (Becomes c found token m more compressor) (startup_of-start_options compressor) (
            each_case c.authenticator c.authenticator_data c.default_key_space c.use_compression
              found token m more h),
      )
