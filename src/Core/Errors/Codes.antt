-- ===== src/Core/Errors/Codes.antt =====
-- include/cppload/error.hpp: numbers and messages name the error they belong to.
use cppload_workflow.Prelude.{
  ℕ, suc, ◌≡◌, refl, sym, ap, ◌∙◌, Option, none, some, List, [], ◌∷◌, if◌then◌else◌, Bytes, bytes,
  eqb,
}
use mathlib.Core.Option
use mathlib.Core.Option.{some-injective}
use cppload_workflow.Core.Errors.{
  Err, code, of_code, error_message, message, success, invalid_method, invalid_target, dns_failure,
  connection_refused, connection_reset, connection_timeout, read_error, write_error,
  tls_handshake_failed, tls_verify_failed, protocol_violation, invalid_response,
  operation_cancelled, timeout, invalid_config, parse_error, auth_failed, not_implemented, unknown,
  vault_not_found, vault_permission_denied, vault_token_invalid, vault_server_error,
  vault_unreachable, auth_token_expired, auth_invalid_grant, auth_invalid_client, auth_server_error,
  auth_parse_error,
}

-- The place of a message in the table.
position : Bytes → List Bytes → Option ℕ
position m [] = none
position m (n ∷ ns) = if eqb n m then some 0 else Option.map (λ i. suc i) (position m ns)

abbrev all_messages : List Bytes
all_messages =
    error_message success
    ∷ error_message invalid_method
    ∷ error_message invalid_target
    ∷ error_message dns_failure
    ∷ error_message connection_refused
    ∷ error_message connection_reset
    ∷ error_message connection_timeout
    ∷ error_message read_error
    ∷ error_message write_error
    ∷ error_message tls_handshake_failed
    ∷ error_message tls_verify_failed
    ∷ error_message protocol_violation
    ∷ error_message invalid_response
    ∷ error_message operation_cancelled
    ∷ error_message timeout
    ∷ error_message invalid_config
    ∷ error_message parse_error
    ∷ error_message auth_failed
    ∷ error_message not_implemented
    ∷ error_message unknown
    ∷ error_message vault_not_found
    ∷ error_message vault_permission_denied
    ∷ error_message vault_token_invalid
    ∷ error_message vault_server_error
    ∷ error_message vault_unreachable
    ∷ error_message auth_token_expired
    ∷ error_message auth_invalid_grant
    ∷ error_message auth_invalid_client
    ∷ error_message auth_server_error
    ∷ error_message auth_parse_error
    ∷ []

place : (e : Err) → position (error_message e) all_messages ≡ some (code e)
unfolding position error_message code eqb bytes
place success = refl
place invalid_method = refl
place invalid_target = refl
place dns_failure = refl
place connection_refused = refl
place connection_reset = refl
place connection_timeout = refl
place read_error = refl
place write_error = refl
place tls_handshake_failed = refl
place tls_verify_failed = refl
place protocol_violation = refl
place invalid_response = refl
place operation_cancelled = refl
place timeout = refl
place invalid_config = refl
place parse_error = refl
place auth_failed = refl
place not_implemented = refl
place unknown = refl
place vault_not_found = refl
place vault_permission_denied = refl
place vault_token_invalid = refl
place vault_server_error = refl
place vault_unreachable = refl
place auth_token_expired = refl
place auth_invalid_grant = refl
place auth_invalid_client = refl
place auth_server_error = refl
place auth_parse_error = refl

pub of_code-code : (e : Err) → of_code (code e) ≡ some e
unfolding of_code code
of_code-code success = refl
of_code-code invalid_method = refl
of_code-code invalid_target = refl
of_code-code dns_failure = refl
of_code-code connection_refused = refl
of_code-code connection_reset = refl
of_code-code connection_timeout = refl
of_code-code read_error = refl
of_code-code write_error = refl
of_code-code tls_handshake_failed = refl
of_code-code tls_verify_failed = refl
of_code-code protocol_violation = refl
of_code-code invalid_response = refl
of_code-code operation_cancelled = refl
of_code-code timeout = refl
of_code-code invalid_config = refl
of_code-code parse_error = refl
of_code-code auth_failed = refl
of_code-code not_implemented = refl
of_code-code unknown = refl
of_code-code vault_not_found = refl
of_code-code vault_permission_denied = refl
of_code-code vault_token_invalid = refl
of_code-code vault_server_error = refl
of_code-code vault_unreachable = refl
of_code-code auth_token_expired = refl
of_code-code auth_invalid_grant = refl
of_code-code auth_invalid_client = refl
of_code-code auth_server_error = refl
of_code-code auth_parse_error = refl

code_injective : (a b : Err) → code a ≡ code b → a ≡ b
code_injective a b e = some-injective _ _ (sym (of_code-code a) ∙ ap of_code e ∙ of_code-code b)

message-code : (e : Err) → message (code e) ≡ error_message e
unfolding message
message-code e = rw (of_code-code e, message) refl

-- Two errors whose numbers have the same message in the category are the same error, so neither the numbers
-- nor the messages of the table repeat.
pub message-code_injective : (a b : Err) → message (code a) ≡ message (code b) → a ≡ b
message-code_injective a b e =
    let m : error_message a ≡ error_message b = sym (message-code a) ∙ e ∙ message-code b in
    code_injective a b
      (some-injective _ _ (sym (place a) ∙ ap (λ t. position t all_messages) m ∙ place b))
