-- ===== src/Net/HttpMessage.antt =====
-- core/net/http_client.cpp: the request that is put together, and the response that is read.
pub mod Targets
pub mod Bodies
use cppload_workflow.Prelude.{
  ℕ, ◌-◌, ◌+◌, ◌*◌, ◌/◌, ◌%◌, Bool, true, false, not, ◌&&◌, ◌||◌, Option, none, some, List, [], ◌∷◌,
  ◌++◌, ltb, ◌==◌, if◌then◌else◌, take, length, Bytes, bytes, eqb, find, is_empty, is_alnum,
  to_string, Dict,
}
use cppload_workflow.Core.Errors.{Err, read_error, invalid_method}
use cppload_workflow.Core.Url.{hex}
use cppload_workflow.Net.Network.{
  Io, done, timeout, timed_out, end_of_stream, host_not_found, would_block, try_again, failed,
  Message, Reply,
}
use cppload_workflow.Net.Protocol.{Request, Response, no_response, failure}

-- `unreserved.find(c) != npos`
abbrev pub is_one_of : ℕ → Bytes → Bool
is_one_of c [] = false
is_one_of c (d ∷ ds) = d == c || is_one_of c ds

unfoldable pub is_target_byte : ℕ → Bool
unfolding bytes
is_target_byte c = is_alnum c || is_one_of c (bytes "/@!$&'()*+,;=:?._-")

unfoldable pub url_encode_path : Bytes → Bytes
url_encode_path [] = []
url_encode_path (c ∷ s) =
    let rest = url_encode_path s in
    if is_target_byte c then c ∷ rest else b'%' ∷ hex (c / 16) ∷ hex (c % 16) ∷ rest

unfoldable pub method_is_idempotent : Bytes → Bool
method_is_idempotent method =
    eqb method (bytes "GET")
    || eqb method (bytes "HEAD")
    || eqb method (bytes "PUT")
    || eqb method (bytes "DELETE")
    || eqb method (bytes "OPTIONS")
    || eqb method (bytes "TRACE")

unfoldable pub format_host_header : Bytes → ℕ → Bool → Bytes
format_host_header host port use_tls =
    let h : Bytes = elim (find b':' host) [
      | some _ ↦ bytes "[" ++ host ++ bytes "]"
      | none ↦ host
    ] in
    if port == (if use_tls then 443 else 80) then h else h ++ (b':' ∷ to_string port)

unfoldable pub strip_line_breaks : Bytes → Bytes
strip_line_breaks [] = []
strip_line_breaks (c ∷ s) =
    let rest = strip_line_breaks s in if c == 13 || c == 10 then rest else c ∷ rest

unfoldable pub target_of : Bytes → Bytes
target_of path = url_encode_path (strip_line_breaks path)

-- `known_verb` is whether `http::string_to_verb` knows the method; `none` is `nullptr`, and the response
-- then holds `invalid_method`.
unfoldable pub build_request : (Bytes → Bool) → Request → Option Message
build_request known_verb req =
    if known_verb req.method
    then some (record {
      method = req.method;
      target = target_of req.path;
      fields =
          (bytes "Host", format_host_header req.host req.port req.use_tls)
          ∷ (bytes "User-Agent", bytes "volley/1.1.0")
          ∷ req.headers;
      body = req.body;
      prepared = not (is_empty req.body);
    })
    else none

abbrev pub default_max_body : ℕ
default_max_body = 104_857_600

unfoldable pub copy_capped : ℕ → Reply → ℕ → Response
copy_capped cap res latency =
    let over = ltb cap (length res.body) in
    record {
      status_code = res.status % 65536;
      body = if over then take cap res.body else res.body;
      headers = res.fields;
      latency = latency;
      ec = none;
      body_truncated = over;
    }

abbrev pub body_cap : ℕ → ℕ
body_cap max_body_bytes = if max_body_bytes == 0 then default_max_body else max_body_bytes

-- The times are nanoseconds.
unfoldable pub populate_response : ℕ → Io → Reply → ℕ → ℕ → Response
populate_response max_body_bytes ec res start_time end_time =
    let latency = (end_time - start_time) / 1000 in
    let copy = copy_capped (body_cap max_body_bytes) res latency in
    let broken = record no_response { latency = latency; ec = some read_error } in
    elim ec [
      | done ↦ copy
      | end_of_stream ↦ copy
      | timeout ↦ broken
      | timed_out ↦ broken
      | host_not_found ↦ broken
      | would_block ↦ broken
      | try_again ↦ broken
      | failed ↦ broken
    ]
