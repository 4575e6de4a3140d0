-- ===== src/Net/Protocol.antt =====
-- include/cppload/net/protocol.hpp and utils.hpp: requests, responses and what every client does with them.
use cppload_workflow.Prelude.{
  ℕ, Bool, true, false, ◌&&◌, ◌||◌, Option, none, some, [], ◌∷◌, ◌==◌, if◌then◌else◌, Bytes, Dict,
  find, is_empty, is_digit,
}
use cppload_workflow.Core.Errors.{Err, dns_failure, connection_refused, connection_timeout}
use cppload_workflow.Net.Network.{
  Io, done, timeout, timed_out, end_of_stream, host_not_found, would_block, try_again, failed,
}

pub record Request : Type 0 where
  pub method : Bytes
  pub path : Bytes
  pub body : Bytes
  pub headers : Dict Bytes
  pub host : Bytes
  pub port : ℕ
  pub use_tls : Bool

-- `ec` is none for success; the latency is in microseconds.
pub record Response : Type 0 where
  pub status_code : ℕ
  pub body : Bytes
  pub headers : Dict Bytes
  pub latency : ℕ
  pub ec : Option Err
  pub body_truncated : Bool

abbrev pub no_response : Response
no_response = record {
  status_code = 0;
  body = [];
  headers = [];
  latency = 0;
  ec = none;
  body_truncated = false;
}

abbrev pub failure : Err → Response
failure e = record no_response { ec = some e }

abbrev pub all_address_bytes : Bytes → Bool
all_address_bytes [] = true
all_address_bytes (c ∷ s) = (c == b'.' || is_digit c) && all_address_bytes s

unfoldable pub host_is_ip_literal : Bytes → Bool
host_is_ip_literal host = elim (find b':' host) [
  | some _ ↦ true
  | none ↦ if is_empty host then false else all_address_bytes host
]

-- The error of a lookup.
abbrev pub lookup_error : Io → Option Err
lookup_error done = none
lookup_error timeout = some connection_refused
lookup_error timed_out = some connection_refused
lookup_error end_of_stream = some connection_refused
lookup_error host_not_found = some dns_failure
lookup_error would_block = some connection_refused
lookup_error try_again = some connection_refused
lookup_error failed = some connection_refused

-- The error of a connect, which tells `asio::error::timed_out` from the others.
abbrev pub connect_error : Io → Option Err
connect_error done = none
connect_error timeout = some connection_refused
connect_error timed_out = some connection_timeout
connect_error end_of_stream = some connection_refused
connect_error host_not_found = some connection_refused
connect_error would_block = some connection_refused
connect_error try_again = some connection_refused
connect_error failed = some connection_refused
