-- ===== src/Net/WebSocket.antt =====
-- core/net/ws_client.cpp: `WsClient::Impl`. A callback is the rest of the function that starts it,
-- and what is returned is what the handler gets. The context of TLS is never null.
pub mod Answers
use cppload_workflow.Prelude.{
  ℕ, ◌-◌, ◌/◌, Bool, true, false, Option, none, some, [], ◌∷◌, is_empty, if◌then◌else◌, Bytes,
  to_string,
}
use cppload_workflow.Core.Errors.{
  Err, write_error, read_error, protocol_violation, tls_handshake_failed,
}
use cppload_workflow.Net.Network.{Network, any_error}
use cppload_workflow.Net.Protocol.{
  Request, Response, no_response, failure, host_is_ip_literal, lookup_error, connect_error,
}

-- `req.path.empty() ? "/" : req.path`
abbrev pub target : Request → Bytes
target req = if is_empty req.path then b'/' ∷ [] else req.path

unfoldable pub populate_response : Option Err → Bytes → ℕ → ℕ → Response
populate_response ec data' start_time end_time =
    let latency = (end_time - start_time) / 1000 in
    elim ec [
      | none ↦ record no_response { status_code = 1; body = data'; latency = latency }
      | some e ↦ record no_response { latency = latency; ec = some e }
    ]

module _ {W S : Type 0} (N : Network W S) where
  unfoldable pub on_sent : S → ℕ → Option Err → W → Response × W
  on_sent s start (some e) w = (failure e, w)
  on_sent s start none w =
      let ((ec, recv), w1) = N.receive s w in
      let (end', w2) = N.now w1 in (populate_response (any_error read_error ec) recv start end', w2)

  unfoldable pub send_message : S → Bytes → ℕ → W → Response × W
  send_message s body start w =
      let (ec, w') = N.send s body w in on_sent s start (any_error write_error ec) w'

  -- The same steps over the stream with TLS.
  unfoldable pub send_message_tls : S → Bytes → ℕ → W → Response × W
  send_message_tls s body start w =
      let (ec, w') = N.send s body w in on_sent s start (any_error write_error ec) w'

  unfoldable pub on_upgraded : Request → S → ℕ → Option Err → W → Response × W
  on_upgraded req s start (some e) w = (failure e, w)
  on_upgraded req s start none w = send_message s req.body start w

  unfoldable pub on_connected : Request → S → ℕ → Option Err → W → Response × W
  on_connected req s start (some e) w = (failure e, w)
  on_connected req s start none w =
      let (ec, w') = N.upgrade s req.host (target req) w in
      on_upgraded req s start (any_error protocol_violation ec) w'

  unfoldable pub connect_ws : Request → ℕ → W → Response × W
  connect_ws req start w =
      let (s, w1) = N.create_stream false w in
      let (ec, w2) = N.connect s req.host (to_string req.port) w1 in
      on_connected req s start (connect_error ec) w2

  unfoldable pub on_upgraded_tls : Request → S → ℕ → Option Err → W → Response × W
  on_upgraded_tls req s start (some e) w = (failure e, w)
  on_upgraded_tls req s start none w = send_message_tls s req.body start w

  unfoldable pub on_handshake : Request → S → ℕ → Option Err → W → Response × W
  on_handshake req s start (some e) w = (failure e, w)
  on_handshake req s start none w =
      let (ec, w') = N.upgrade s req.host (target req) w in
      on_upgraded_tls req s start (any_error protocol_violation ec) w'

  unfoldable pub name_host : S → Bytes → W → Bool × W
  name_host s host w = if host_is_ip_literal host then (true, w) else N.set_host_name s host w

  unfoldable pub on_named : Request → S → ℕ → Bool → W → Response × W
  on_named req s start false w = (failure tls_handshake_failed, w)
  on_named req s start true w =
      let (ec, w') = N.handshake s w in
      on_handshake req s start (any_error tls_handshake_failed ec) w'

  unfoldable pub on_connected_wss : Request → S → ℕ → Option Err → W → Response × W
  on_connected_wss req s start (some e) w = (failure e, w)
  on_connected_wss req s start none w =
      let (named, w') = name_host s req.host w in on_named req s start named w'

  unfoldable pub connect_wss : Request → ℕ → W → Response × W
  connect_wss req start w =
      let (s, w1) = N.create_stream true w in
      let (ec, w2) = N.connect s req.host (to_string req.port) w1 in
      on_connected_wss req s start (connect_error ec) w2

  unfoldable pub on_resolved : Request → ℕ → Option Err → W → Response × W
  on_resolved req start (some e) w = (failure e, w)
  on_resolved req start none w =
      if req.use_tls then connect_wss req start w else connect_ws req start w

  unfoldable pub async_request : Request → W → Response × W
  async_request req w =
      let (start, w1) = N.now w in
      let (ec, w2) = N.resolve req.host (to_string req.port) w1 in
      on_resolved req start (lookup_error ec) w2
