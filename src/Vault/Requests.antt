-- ===== src/Vault/Requests.antt =====
-- core/vault/vault_client.cpp: `do_request_once`, `do_request` and `check_response`. The settings of the
-- static TLS context are OpenSSL's.
pub mod Attempts
use cppload_workflow.Prelude.{
  ℕ, zero, suc, ◌+◌, ◌*◌, ◌^◌, Bool, true, false, not, ◌&&◌, Option, none, some, List, [], ◌∷◌,
  ◌++◌, ltb, leb, ◌==◌, if◌then◌else◌, Bytes, bytes, is_empty, Dict, Result, ok, err,
}
use cppload_workflow.Core.Errors.{
  Err, dns_failure, connection_timeout, connection_refused, write_error, read_error,
  tls_handshake_failed, vault_server_error, vault_not_found, vault_permission_denied,
  vault_token_invalid, unknown,
}
use cppload_workflow.Net.Network.{
  Io, Message, Reply, Network, Exchange, ◌>>=◌, ◌>>◌, pure, check, perform, any_error,
}
use cppload_workflow.Security.Post.{connect_error, receive_error}

unfoldable pub build_request : Bytes → Bytes → Bytes → Bytes → Dict Bytes → Message
build_request method host target body headers = record {
  method = method;
  target = target;
  fields =
      (bytes "Host", host)
      ∷ (bytes "User-Agent", bytes "volley/1.1.0")
      ∷ (bytes "Accept", bytes "application/json")
      ∷ headers;
  body = body;
  prepared = not (is_empty body);
}

module _ {W S : Type 0} (N : Network W S) where
  -- An error path of the TLS branch: the transport is closed before the error is returned.
  unfoldable pub closing : {A : Type 0} → S → Exchange W A → Exchange W A
  closing s m w = let (r, w') = m w in elim r [ ok a ↦ (ok a, w') | err e ↦ (err e, N.close s w') ]

  unfoldable pub receive : S → Exchange W Reply
  receive s w =
      let ((ec, res), w') = N.read s w in
      elim (receive_error ec) [ none ↦ (ok res, w') | some e ↦ (err e, w') ]

  unfoldable pub name_host : S → Bytes → Exchange W (Unit {0})
  name_host s host w =
      let (set, w') = N.set_host_name s host w in
      (if set then ok tt else err tls_handshake_failed, w')

  unfoldable pub request_tls : Bytes → Bytes → Message → S → Exchange W Reply
  request_tls host port req s =
      closing s (
        name_host s host
        >> check connect_error (N.connect s host port)
        >> check (any_error tls_handshake_failed) (N.handshake s)
        >> check (any_error write_error) (N.write s req)
        >> receive s)
      >>= λ res. perform (λ w. N.close s (N.shutdown s w)) >> pure res

  -- The error paths of the plain branch leave the stream to its destructor.
  unfoldable pub request_plain : Bytes → Bytes → Message → S → Exchange W Reply
  request_plain host port req s =
      check connect_error (N.connect s host port)
      >> check (any_error write_error) (N.write s req)
      >> receive s
      >>= λ res. perform (N.close s) >> pure res

  unfoldable pub do_request_once :
      Bytes → Bytes → Bytes → Bytes → Bytes → Dict Bytes → Bool → Exchange W Reply
  do_request_once method host port target body headers use_tls =
      let req = build_request method host target body headers in
      check (any_error dns_failure) (N.resolve host port) >> λ w.
      let (s, w') = N.create_stream use_tls w in
      if use_tls then request_tls host port req s w' else request_plain host port req s w'

  -- The loop with `left` attempts after this one.
  unfoldable pub attempts : ℕ → ℕ → Exchange W Reply → Exchange W Reply
  attempts zero attempt once w = (err vault_server_error, w)
  attempts (suc left) attempt once w =
      let (r, w') = once w in
      elim r [
        | err e ↦ (err e, w')
        | ok res ↦
            let again =
              attempts left (attempt + 1) once
                (if left == 0 then w' else N.sleep (100 * 2 ^ attempt) w') in
            if res.status == 429 then again else (ok res, w')
      ]

  unfoldable pub do_request :
      Bytes → Bytes → Bytes → Bytes → Bytes → Dict Bytes → Bool → Exchange W Reply
  do_request method host port target body headers use_tls =
      attempts 3 0 (do_request_once method host port target body headers use_tls)

unfoldable pub check_response : Reply → Result ℕ Err
check_response res =
    if leb 200 res.status && ltb res.status 300
    then ok res.status
    else if res.status == 429
    then err vault_server_error
    else if res.status == 404
    then err vault_not_found
    else if res.status == 403
    then err vault_permission_denied
    else if res.status == 401
    then err vault_token_invalid
    else if leb 500 res.status
    then err vault_server_error
    else err unknown
