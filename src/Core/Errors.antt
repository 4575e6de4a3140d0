-- ===== src/Core/Errors.antt =====
-- include/cppload/error.hpp and core/error.cpp: the error codes, their numbers and their messages.
pub mod Codes
pub mod Tests
use cppload_workflow.Prelude.{ℕ, Option, none, some, List, [], ◌∷◌, get_elem?, Bytes, bytes}

pub data Err : Type 0 where
  success invalid_method invalid_target dns_failure connection_refused : Err
  connection_reset connection_timeout read_error write_error tls_handshake_failed : Err
  tls_verify_failed protocol_violation invalid_response operation_cancelled timeout : Err
  invalid_config parse_error auth_failed not_implemented unknown : Err
  vault_not_found vault_permission_denied vault_token_invalid vault_server_error vault_unreachable :
      Err
  auth_token_expired auth_invalid_grant auth_invalid_client auth_server_error auth_parse_error : Err

-- `static_cast<int>(e)`
unfoldable pub code : Err → ℕ
code success = 0
code invalid_method = 1
code invalid_target = 2
code dns_failure = 3
code connection_refused = 4
code connection_reset = 5
code connection_timeout = 6
code read_error = 7
code write_error = 8
code tls_handshake_failed = 9
code tls_verify_failed = 10
code protocol_violation = 11
code invalid_response = 12
code operation_cancelled = 13
code timeout = 14
code invalid_config = 15
code parse_error = 16
code auth_failed = 17
code not_implemented = 18
code unknown = 19
code vault_not_found = 20
code vault_permission_denied = 21
code vault_token_invalid = 22
code vault_server_error = 23
code vault_unreachable = 24
code auth_token_expired = 25
code auth_invalid_grant = 26
code auth_invalid_client = 27
code auth_server_error = 28
code auth_parse_error = 29

abbrev pub all_errors : List Err
all_errors =
    success ∷ invalid_method ∷ invalid_target ∷ dns_failure ∷ connection_refused ∷ connection_reset
    ∷ connection_timeout ∷ read_error ∷ write_error ∷ tls_handshake_failed ∷ tls_verify_failed
    ∷ protocol_violation ∷ invalid_response ∷ operation_cancelled ∷ timeout ∷ invalid_config
    ∷ parse_error ∷ auth_failed ∷ not_implemented ∷ unknown ∷ vault_not_found
    ∷ vault_permission_denied ∷ vault_token_invalid ∷ vault_server_error ∷ vault_unreachable
    ∷ auth_token_expired ∷ auth_invalid_grant ∷ auth_invalid_client ∷ auth_server_error
    ∷ auth_parse_error ∷ []

-- `static_cast<Err>(ev)`, `none` where no enumerator has the number.
unfoldable pub of_code : ℕ → Option Err
of_code ev = get_elem? all_errors ev

unfoldable pub error_message : Err → Bytes
error_message success = bytes "success"
error_message invalid_method = bytes "invalid HTTP method"
error_message invalid_target = bytes "invalid request target"
error_message dns_failure = bytes "DNS resolution failed"
error_message connection_refused = bytes "connection refused"
error_message connection_reset = bytes "connection reset"
error_message connection_timeout = bytes "connection timeout"
error_message read_error = bytes "read error"
error_message write_error = bytes "write error"
error_message tls_handshake_failed = bytes "TLS handshake failed"
error_message tls_verify_failed = bytes "TLS certificate verification failed"
error_message protocol_violation = bytes "protocol violation"
error_message invalid_response = bytes "invalid response"
error_message operation_cancelled = bytes "operation cancelled"
error_message timeout = bytes "timeout"
error_message invalid_config = bytes "invalid configuration"
error_message parse_error = bytes "parse error"
error_message auth_failed = bytes "authentication failed"
error_message not_implemented = bytes "not implemented"
error_message unknown = bytes "unknown error"
error_message vault_not_found = bytes "vault: secret not found"
error_message vault_permission_denied = bytes "vault: permission denied"
error_message vault_token_invalid = bytes "vault: invalid token"
error_message vault_server_error = bytes "vault: server error"
error_message vault_unreachable = bytes "vault: server unreachable"
error_message auth_token_expired = bytes "auth: token expired"
error_message auth_invalid_grant = bytes "auth: invalid grant"
error_message auth_invalid_client = bytes "auth: invalid client"
error_message auth_server_error = bytes "auth: server error"
error_message auth_parse_error = bytes "auth: response parse error"

-- `ErrCategory::message`
unfoldable pub message : ℕ → Bytes
message ev = elim (of_code ev) [ none ↦ bytes "unrecognized error" | some e ↦ error_message e ]
