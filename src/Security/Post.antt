-- ===== src/Security/Post.antt =====
-- core/security/auth_provider.cpp: `do_sync_post`, the request for a token, over plain TCP or TLS.
use cppload_workflow.Prelude.{
  Bool, true, Option, none, some, [], ◌∷◌, Bytes, bytes, ok, err, if◌then◌else◌,
}
use cppload_workflow.Core.Errors.{
  Err, dns_failure, connection_timeout, connection_refused, write_error, read_error,
  tls_handshake_failed,
}
use cppload_workflow.Net.Network.{
  Io, done, timeout, timed_out, end_of_stream, host_not_found, would_block, try_again, failed,
  Message, Reply, Network, Exchange, ◌>>=◌, ◌>>◌, pure, check, perform, any_error,
}

-- The error of a connect: only Beast's own timeout is told from the others.
abbrev pub connect_error : Io → Option Err
connect_error done = none
connect_error timeout = some connection_timeout
connect_error timed_out = some connection_refused
connect_error end_of_stream = some connection_refused
connect_error host_not_found = some connection_refused
connect_error would_block = some connection_refused
connect_error try_again = some connection_refused
connect_error failed = some connection_refused

-- The end of the stream is no error of a read.
abbrev pub receive_error : Io → Option Err
receive_error done = none
receive_error timeout = some read_error
receive_error timed_out = some read_error
receive_error end_of_stream = none
receive_error host_not_found = some read_error
receive_error would_block = some read_error
receive_error try_again = some read_error
receive_error failed = some read_error

unfoldable pub post_message : Bytes → Bytes → Bytes → Bytes → Message
post_message host target body content_type = record {
  method = bytes "POST";
  target = target;
  fields =
      (bytes "Host", host)
      ∷ (bytes "User-Agent", bytes "volley/1.1.0")
      ∷ (bytes "Content-Type", content_type)
      ∷ (bytes "Accept", bytes "application/json")
      ∷ [];
  body = body;
  prepared = true;
}

module _ {W S : Type 0} (N : Network W S) where
  -- `async_read` of a response, and what is returned of it.
  unfoldable pub receive : S → Exchange W Reply
  receive s w =
      let ((ec, res), w') = N.read s w in
      elim (receive_error ec) [ none ↦ (ok res, w') | some e ↦ (err e, w') ]

  unfoldable pub name_host : S → Bytes → Exchange W (Unit {0})
  name_host s host w =
      let (set, w') = N.set_host_name s host w in
      (if set then ok tt else err tls_handshake_failed, w')

  unfoldable pub send_receive : Bytes → Bytes → Message → S → Exchange W Reply
  send_receive host port req s =
      check connect_error (N.connect s host port)
      >> check (any_error write_error) (N.write s req)
      >> receive s
      >>= λ res. perform (N.close s) >> pure res

  unfoldable pub send_receive_tls : Bytes → Bytes → Message → S → Exchange W Reply
  send_receive_tls host port req s =
      name_host s host
      >> check connect_error (N.connect s host port)
      >> check (any_error tls_handshake_failed) (N.handshake s)
      >> check (any_error write_error) (N.write s req)
      >> receive s
      >>= λ res. perform (N.shutdown s) >> pure res

  -- A stream of its own for the rest of the exchange.
  unfoldable pub with_stream : {A : Type 0} → Bool → (S → Exchange W A) → Exchange W A
  with_stream tls f w = let (s, w') = N.create_stream tls w in f s w'

  unfoldable pub do_sync_post : Bytes → Bytes → Bytes → Bytes → Bytes → Bool → Exchange W Reply
  do_sync_post host port target body content_type use_tls =
      let req = post_message host target body content_type in
      check (any_error dns_failure) (N.resolve host port)
      >> with_stream use_tls
          (if use_tls then send_receive_tls host port req else send_receive host port req)
