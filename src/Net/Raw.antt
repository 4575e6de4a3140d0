-- ===== src/Net/Raw.antt =====
-- core/net/tcp_raw_client.cpp: `TcpRawClient::Impl`. A callback is the rest of the function that starts it,
-- and what is returned is what the handler gets. The context of TLS is never null.
pub mod Answers
use cppload_workflow.Prelude.{
  ℕ, ◌-◌, ◌/◌, Bool, true, false, Option, none, some, if◌then◌else◌, Bytes, to_string,
}
use cppload_workflow.Core.Errors.{Err, write_error, read_error, timeout, tls_handshake_failed}
use cppload_workflow.Net.Network.{
  Io, done, timed_out, end_of_stream, host_not_found, would_block, try_again, failed, Network,
  any_error,
}
use cppload_workflow.Net.Network
use cppload_workflow.Net.Protocol.{
  Request, Response, no_response, failure, host_is_ip_literal, lookup_error, connect_error,
}

-- The error of a read, which tells Beast's own timeout from the others.
abbrev pub receive_error : Io → Option Err
receive_error done = none
receive_error Network.timeout = some timeout
receive_error timed_out = some read_error
receive_error end_of_stream = some read_error
receive_error host_not_found = some read_error
receive_error would_block = some read_error
receive_error try_again = some read_error
receive_error failed = some read_error

unfoldable pub populate_response : Option Err → Bytes → ℕ → ℕ → Response
populate_response ec data' start_time end_time =
    let latency = (end_time - start_time) / 1000 in
    elim ec [
      | none ↦ record no_response { status_code = 1; body = data'; latency = latency }
      | some e ↦ record no_response { latency = latency; ec = some e }
    ]

module _ {W S : Type 0} (N : Network W S) where
  unfoldable pub on_sent : S → ℕ → Option Err → W → Response × W
  on_sent s start (some e) w = (failure e, w)
  on_sent s start none w =
      let ((ec, recv), w1) = N.receive s w in
      let (end', w2) = N.now w1 in (populate_response (receive_error ec) recv start end', w2)

  unfoldable pub send_raw : S → Bytes → ℕ → W → Response × W
  send_raw s body start w =
      let (ec, w') = N.send s body w in on_sent s start (any_error write_error ec) w'

  -- The same steps over the stream with TLS.
  unfoldable pub send_raw_tls : S → Bytes → ℕ → W → Response × W
  send_raw_tls s body start w =
      let (ec, w') = N.send s body w in on_sent s start (any_error write_error ec) w'

  unfoldable pub on_connected : Request → S → ℕ → Option Err → W → Response × W
  on_connected req s start (some e) w = (failure e, w)
  on_connected req s start none w = send_raw s req.body start w

  unfoldable pub connect_tcp : Request → ℕ → W → Response × W
  connect_tcp req start w =
      let (s, w1) = N.create_stream false w in
      let (ec, w2) = N.connect s req.host (to_string req.port) w1 in
      on_connected req s start (connect_error ec) w2

  unfoldable pub on_handshake : Request → S → ℕ → Option Err → W → Response × W
  on_handshake req s start (some e) w = (failure e, w)
  on_handshake req s start none w = send_raw_tls s req.body start w

  unfoldable pub name_host : S → Bytes → W → Bool × W
  name_host s host w = if host_is_ip_literal host then (true, w) else N.set_host_name s host w

  unfoldable pub on_named : Request → S → ℕ → Bool → W → Response × W
  on_named req s start false w = (failure tls_handshake_failed, w)
  on_named req s start true w =
      let (ec, w') = N.handshake s w in
      on_handshake req s start (any_error tls_handshake_failed ec) w'

  unfoldable pub on_connected_tls : Request → S → ℕ → Option Err → W → Response × W
  on_connected_tls req s start (some e) w = (failure e, w)
  on_connected_tls req s start none w =
      let (named, w') = name_host s req.host w in on_named req s start named w'

  unfoldable pub connect_tls : Request → ℕ → W → Response × W
  connect_tls req start w =
      let (s, w1) = N.create_stream true w in
      let (ec, w2) = N.connect s req.host (to_string req.port) w1 in
      on_connected_tls req s start (connect_error ec) w2

  unfoldable pub on_resolved : Request → ℕ → Option Err → W → Response × W
  on_resolved req start (some e) w = (failure e, w)
  on_resolved req start none w =
      if req.use_tls then connect_tls req start w else connect_tcp req start w

  unfoldable pub async_request : Request → W → Response × W
  async_request req w =
      let (start, w1) = N.now w in
      let (ec, w2) = N.resolve req.host (to_string req.port) w1 in
      on_resolved req start (lookup_error ec) w2
