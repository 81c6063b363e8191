-- ===== src/Handshake/Outcome.antt =====
-- How a handshake ends, whatever the server sends.
use cpv_cql_driver.Common.{
  ◌+◌, ◌≡◌, ◌∙◌, ◌⊎◌, inl, inr, refl, ap, List, [], ◌∷◌, true, false, ◌==◌, Bool-cases, none, some,
  Result, ok, err, connection_initialize_exception, destroyed_object,
}
use cpv_cql_driver.Protocol.Maps.{Rehash, string_map, bytes_eq}
use cpv_cql_driver.Response.{kind_set_key_space}
use cpv_cql_driver.Response.Frames.{
  ResponseMessage, result, ready, supported, authenticate, auth_success,
}
use cpv_cql_driver.Handshake.{
  Authenticator, allow_all, password, password_class, Setup, Request, Handshake, Step, and_then,
  next_sending, next_answer, send, wait, handle_supported, allow, answer_password, auth_response,
  check_success, authenticate_with_password, authenticate_by, check_key_space, set_key_space,
  use_query, is_empty, query, options, finish, startup_of, converse, after_connect,
  ready_connection,
}

-- Neither the state nor the count of errors was touched on the way.
record IsKept (h h' : Handshake) : Type 0 where
  same_errors : h'.initialize_errors ≡ h.initialize_errors
  same_state : h'.is_ready ≡ h.is_ready

kept : (h : Handshake) → IsKept h h
kept h = record { same_errors = refl; same_state = refl }

chain :
    {A B : Type 0} (h : Handshake) (p : Result A × Handshake) (next : A → Step B)
    → IsKept h p.1
    → ((a : A) (h' : Handshake) → IsKept h' (next a h').1)
    → IsKept h (and_then p next).1
chain h (err e, h') next k step = k
chain h (ok a, h') next k step = record {
  same_errors = (step a h').same_errors ∙ k.same_errors;
  same_state = (step a h').same_state ∙ k.same_state;
}

next_sending-IsKept :
    (r : Request) (h : Handshake) (l : List (Result (Unit {0}))) → IsKept h (next_sending r h l).1
next_sending-IsKept r h [] = kept h
next_sending-IsKept r h (x ∷ l) = record { same_errors = refl; same_state = refl }

next_answer-IsKept :
    (h : Handshake) (l : List (Result ResponseMessage)) → IsKept h (next_answer h l).1
next_answer-IsKept h [] = kept h
next_answer-IsKept h (x ∷ l) = record { same_errors = refl; same_state = refl }

wait-IsKept : (h : Handshake) → IsKept h (wait h).1
wait-IsKept h = next_answer-IsKept h h.answers

supported-IsKept :
    (c : Setup) (m : ResponseMessage) (h : Handshake) → IsKept h (handle_supported c m h).1
unfolding handle_supported
supported-IsKept c (supported found) h = elim (Bool-cases c.use_compression) [
  | inl e ↦ rw e (record { same_errors = refl; same_state = refl })
  | inr e ↦ rw e (kept h)
]
supported-IsKept c _ h = kept h

allow-IsKept : (m : ResponseMessage) (h : Handshake) → IsKept h (allow m h).1
unfolding allow
allow-IsKept ready h = kept h
allow-IsKept _ h = kept h

answer-IsKept :
    (c : Setup) (m : ResponseMessage) (h : Handshake) → IsKept h (answer_password c m h).1
unfolding answer_password
answer-IsKept c (authenticate (some name)) h =
    elim (Bool-cases (bytes_eq name.value password_class)) [
      | inl e ↦ rw e (next_sending-IsKept (auth_response c.authenticator_data) h h.sendings)
      | inr e ↦ rw e (kept h)
    ]
answer-IsKept c _ h = kept h

success-IsKept : (m : ResponseMessage) (h : Handshake) → IsKept h (check_success m h).1
unfolding check_success
success-IsKept (auth_success token) h = kept h
success-IsKept _ h = kept h

authenticate-IsKept :
    (a : Authenticator) (c : Setup) (h : Handshake) → IsKept h (authenticate_by a c h).1
unfolding authenticate_with_password
authenticate-IsKept allow_all c h = chain h (wait h) allow (wait-IsKept h) allow-IsKept
authenticate-IsKept password c h =
    chain h (and_then (wait h) (answer_password c)) (λ done h'. and_then (wait h') check_success)
      (chain h (wait h) (answer_password c) (wait-IsKept h) (answer-IsKept c))
      (λ done h'. chain h' (wait h') check_success (wait-IsKept h') success-IsKept)

key_space-IsKept : (m : ResponseMessage) (h : Handshake) → IsKept h (check_key_space m h).1
unfolding check_key_space
key_space-IsKept (result m) h = elim (Bool-cases (m.kind == kind_set_key_space)) [
  | inl e ↦ rw e (kept h)
  | inr e ↦ rw e (kept h)
]
key_space-IsKept _ h = kept h

set_key_space-IsKept : (c : Setup) (h : Handshake) → IsKept h (set_key_space c h).1
unfolding set_key_space
set_key_space-IsKept c h = elim (Bool-cases (is_empty c.default_key_space)) [
  | inl e ↦ rw e (kept h)
  | inr e ↦
      let request = query (use_query c.default_key_space) in
      rw e (
        chain h (send request h) (λ done h'. and_then (wait h') check_key_space)
          (next_sending-IsKept request h h.sendings)
          (λ done h'. chain h' (wait h') check_key_space (wait-IsKept h') key_space-IsKept))
]

module _ (order : Rehash string_map) (c : Setup) where
  converse-IsKept : (h : Handshake) → IsKept h (converse order c h).1
  unfolding converse
  converse-IsKept h =
      chain h (and_then (send options h) (λ done. wait)) _
        (chain h (send options h) (λ done. wait) (next_sending-IsKept options h h.sendings)
          (λ done. wait-IsKept))
        (λ m h₁. chain h₁ (handle_supported c m h₁) _ (supported-IsKept c m h₁) (λ done h₂.
          chain h₂ (send (startup_of order h₂.compressor) h₂) _
            (next_sending-IsKept (startup_of order h₂.compressor) h₂ h₂.sendings)
            (λ done' h₃.
              chain h₃ (authenticate_by c.authenticator c h₃) _
                (authenticate-IsKept c.authenticator c h₃) (λ done''. set_key_space-IsKept c))))

  after_connect-IsKept :
      (connected : Result (Unit {0})) (h : Handshake)
      → IsKept h (after_connect order connected c h).1
  after_connect-IsKept (err e) h = kept h
  after_connect-IsKept (ok done) h = converse-IsKept h

-- Ready, or closed with one more error counted, or lost at the pointer that was moved from.
abbrev pub IsEnded : Handshake → Result (Unit {0}) × Handshake → Type 0
IsEnded h (r, h') =
    ((r ≡ ok tt) × (h'.is_ready ≡ true) × (h'.initialize_errors ≡ h.initialize_errors))
    ⊎ (((r ≡ err connection_initialize_exception)
          × (h'.is_ready ≡ false)
          × (h'.compressor ≡ none)
          × (h'.initialize_errors ≡ h.initialize_errors + 1))
        ⊎ ((r ≡ err destroyed_object) × (h'.is_ready ≡ false)))

finish-IsEnded :
    (h : Handshake) (p : Result (Unit {0}) × Handshake)
    → h.is_ready ≡ false
    → IsKept h p.1
    → IsEnded h (finish p)
finish-IsEnded h (ok done, h') e k = inl (refl, refl, k.same_errors)
finish-IsEnded h (err destroyed_object, h') e k = inr (inr (refl, k.same_state ∙ e))
finish-IsEnded h (err _, h') e k = inr (inl (refl, refl, refl, ap (λ x. x + 1) k.same_errors))

-- Whatever the server sends and whichever sending or connect fails, the initialization of a connection
-- that is not ready ends: the connection is ready and no error was counted, or the caller gets
-- a ConnectionInitializeException, the connection is closed without a compressor, and one error
-- was counted; or, and then the connection is not ready, a pointer was used that was moved from.
pub ready_connection-IsEnded :
    (order : Rehash string_map) (c : Setup) (connected : Result (Unit {0})) (h : Handshake)
    → h.is_ready ≡ false
    → IsEnded h (ready_connection order c connected h)
unfolding ready_connection
ready_connection-IsEnded order c connected h e = simp (e) (
    finish-IsEnded h (after_connect order connected c h) e
      (after_connect-IsKept order c connected h))
