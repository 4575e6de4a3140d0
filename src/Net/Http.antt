-- ===== src/Net/Http.antt =====
-- core/net/http_client.cpp: `Http11Client::Impl`, one request after another. A callback is the rest of the
-- function that starts it, and what is returned is what the handler gets, so it is called once.
pub mod Retries
use cppload_workflow.Prelude.{
  ℕ, ◌+◌, Bool, true, false, not, ◌&&◌, ◌||◌, Option, none, some, ◌==◌, if◌then◌else◌, Bytes, eqb,
  to_string, ltb,
}
use cppload_workflow.Core.Errors.{Err, invalid_method, write_error, tls_handshake_failed}
use cppload_workflow.Net.Network.{
  Io, done, timeout, timed_out, end_of_stream, host_not_found, would_block, try_again, failed,
  Message, Reply, Network, any_error,
}
use cppload_workflow.Net.Protocol.{
  Request, Response, failure, host_is_ip_literal, lookup_error, connect_error,
}
use cppload_workflow.Net.HttpMessage.{
  build_request, method_is_idempotent, populate_response, default_max_body,
}

-- A connection is named by the number of its object.
pub record ReusableConn (S : Type 0) : Type 0 where
  pub number : ℕ
  pub stream : S
  pub host : Bytes
  pub port : ℕ
  pub tls : Bool

pub record Client (S : Type 0) : Type 0 where
  pub timeout_ms : ℕ
  pub keep_alive : Bool
  pub max_body_bytes : ℕ
  pub cached : Option (ReusableConn S)
  -- The number of the next connection.
  pub next_number : ℕ

abbrev pub equal_flags : Bool → Bool → Bool
equal_flags a b = if a then b else not b

module _ {S : Type 0} where
  unfoldable pub create : Bool → Client S
  create keep_alive = record {
    timeout_ms = 5000;
    keep_alive = keep_alive;
    max_body_bytes = default_max_body;
    cached = none;
    next_number = 0;
  }

  unfoldable pub set_timeout : Client S → ℕ → Client S
  set_timeout c timeout' = record c { timeout_ms = timeout' }

  unfoldable pub set_keep_alive : Client S → Bool → Client S
  set_keep_alive c keep_alive = record c {
    keep_alive = keep_alive;
    cached = if keep_alive then c.cached else none;
  }

  unfoldable pub set_max_body_bytes : Client S → ℕ → Client S
  set_max_body_bytes c size = record c {
    max_body_bytes = if ltb 0 size then size else default_max_body;
  }

  unfoldable pub cache_connection : Client S → S → Bytes → ℕ → Bool → Client S
  cache_connection c stream host port tls = record c {
    cached =
        some
          (record { number = c.next_number; stream = stream; host = host; port = port; tls = tls });
    next_number = c.next_number + 1;
  }

  unfoldable pub drop_cached : Client S → ReusableConn S → Client S
  drop_cached c conn = elim c.cached [
    | none ↦ c
    | some k ↦ if k.number == conn.number then record c { cached = none } else c
  ]

  unfoldable pub targets : ReusableConn S → Request → Bool
  targets conn req =
      eqb conn.host req.host && conn.port == req.port && equal_flags conn.tls req.use_tls

abbrev pub is_done : Io → Bool
is_done done = true
is_done timeout = false
is_done timed_out = false
is_done end_of_stream = false
is_done host_not_found = false
is_done would_block = false
is_done try_again = false
is_done failed = false

-- `ec != asio::error::timed_out`
abbrev pub not_timed_out : Io → Bool
not_timed_out timed_out = false
not_timed_out done = true
not_timed_out timeout = true
not_timed_out end_of_stream = true
not_timed_out host_not_found = true
not_timed_out would_block = true
not_timed_out try_again = true
not_timed_out failed = true

-- Neither data nor an end is pending.
abbrev pub nothing_pending : Io → Bool
nothing_pending would_block = true
nothing_pending try_again = true
nothing_pending done = false
nothing_pending timeout = false
nothing_pending timed_out = false
nothing_pending end_of_stream = false
nothing_pending host_not_found = false
nothing_pending failed = false

module _ {W S : Type 0} (N : Network W S) (known_verb : Bytes → Bool) where
  -- What a request gives: the response for the handler and the client after it.
  abbrev pub Outcome : Type 0
  Outcome = (Response × Client S) × W

  -- The callback of the read.
  unfoldable pub on_received : Client S → Request → S → ℕ → Bool → Io × Reply → W → Outcome
  on_received c req s start tls (ec, res) w =
      let (end', w') = N.now w in
      let response = populate_response c.max_body_bytes ec res start end' in
      let c' =
        if c.keep_alive && is_done ec then cache_connection c s req.host req.port tls else c in
      ((response, c'), w')

  -- The callback of the write.
  unfoldable pub on_written : Client S → Request → S → ℕ → Bool → Option Err → W → Outcome
  on_written c req s start tls (some e) w = ((failure e, c), w)
  on_written c req s start tls none w =
      let (r, w') = N.read s w in on_received c req s start tls r w'

  unfoldable pub send_and_receive : Client S → Request → Message → S → ℕ → W → Outcome
  send_and_receive c req m s start w =
      let (ec, w') = N.write s m w in on_written c req s start false (any_error write_error ec) w'

  -- The same steps over the stream with TLS.
  unfoldable pub send_and_receive_tls : Client S → Request → Message → S → ℕ → W → Outcome
  send_and_receive_tls c req m s start w =
      let (ec, w') = N.write s m w in on_written c req s start true (any_error write_error ec) w'

  unfoldable pub on_connected : Client S → Request → Message → S → ℕ → Option Err → W → Outcome
  on_connected c req m s start (some e) w = ((failure e, c), w)
  on_connected c req m s start none w = send_and_receive c req m s start w

  unfoldable pub connect_tcp : Client S → Request → Message → ℕ → W → Outcome
  connect_tcp c req m start w =
      let (s, w1) = N.create_stream false w in
      let (ec, w2) = N.connect s req.host (to_string req.port) w1 in
      on_connected c req m s start (connect_error ec) w2

  unfoldable pub on_handshake : Client S → Request → Message → S → ℕ → Option Err → W → Outcome
  on_handshake c req m s start (some e) w = ((failure e, c), w)
  on_handshake c req m s start none w = send_and_receive_tls c req m s start w

  -- An address is not sent as a server name.
  unfoldable pub name_host : S → Bytes → W → Bool × W
  name_host s host w = if host_is_ip_literal host then (true, w) else N.set_host_name s host w

  unfoldable pub on_named : Client S → Request → Message → S → ℕ → Bool → W → Outcome
  on_named c req m s start false w = ((failure tls_handshake_failed, c), w)
  on_named c req m s start true w =
      let (ec, w') = N.handshake s w in
      on_handshake c req m s start (any_error tls_handshake_failed ec) w'

  unfoldable pub on_connected_tls : Client S → Request → Message → S → ℕ → Option Err → W → Outcome
  on_connected_tls c req m s start (some e) w = ((failure e, c), w)
  on_connected_tls c req m s start none w =
      let (named, w') = name_host s req.host w in on_named c req m s start named w'

  unfoldable pub connect_tls : Client S → Request → Message → ℕ → W → Outcome
  connect_tls c req m start w =
      let (s, w1) = N.create_stream true w in
      let (ec, w2) = N.connect s req.host (to_string req.port) w1 in
      on_connected_tls c req m s start (connect_error ec) w2

  unfoldable pub on_resolved : Client S → Request → Message → ℕ → Option Err → W → Outcome
  on_resolved c req m start (some e) w = ((failure e, c), w)
  on_resolved c req m start none w =
      if req.use_tls then connect_tls c req m start w else connect_tcp c req m start w

  unfoldable pub request_fresh : Client S → Request → ℕ → W → Outcome
  request_fresh c req start w = elim (build_request known_verb req) [
    | none ↦ ((failure invalid_method, c), w)
    | some m ↦
        let (ec, w') = N.resolve req.host (to_string req.port) w in
        on_resolved c req m start (lookup_error ec) w'
  ]

  unfoldable pub cached_connection_dead : S → W → Bool × W
  cached_connection_dead s w =
      let (ec, w1) = N.set_non_blocking s w in
      if is_done ec
      then (let (peeked, w2) = N.peek s w1 in (not (nothing_pending peeked), w2))
      else (true, w1)

  -- The callback of the read on a connection that is used again.
  unfoldable pub on_cached_received :
      Client S → ReusableConn S → Request → ℕ → Io × Reply → W → Outcome
  on_cached_received c conn req start (ec, res) w =
      let (end', w') = N.now w in
      let response = populate_response c.max_body_bytes ec res start end' in
      if is_done ec
      then ((response, c), w')
      else if not_timed_out ec && response.status_code == 0 && method_is_idempotent req.method
      then request_fresh (drop_cached c conn) req start w'
      else ((response, drop_cached c conn), w')

  unfoldable pub on_cached_written :
      Client S → ReusableConn S → Request → ℕ → Option Err → W → Outcome
  on_cached_written c conn req start (some e) w =
      if method_is_idempotent req.method
      then request_fresh (drop_cached c conn) req start w
      else ((failure e, drop_cached c conn), w)
  on_cached_written c conn req start none w =
      let (r, w') = N.read conn.stream w in on_cached_received c conn req start r w'

  unfoldable pub write_read_cached_tcp :
      Client S → ReusableConn S → Request → Message → ℕ → W → Outcome
  write_read_cached_tcp c conn req m start w =
      let (ec, w') = N.write conn.stream m w in
      on_cached_written c conn req start (any_error write_error ec) w'

  unfoldable pub write_read_cached_tls :
      Client S → ReusableConn S → Request → Message → ℕ → W → Outcome
  write_read_cached_tls c conn req m start w =
      let (ec, w') = N.write conn.stream m w in
      on_cached_written c conn req start (any_error write_error ec) w'

  unfoldable pub on_peeked : Client S → ReusableConn S → Request → Message → ℕ → Bool → W → Outcome
  on_peeked c conn req m start true w = request_fresh (drop_cached c conn) req start w
  on_peeked c conn req m start false w =
      if conn.tls
      then write_read_cached_tls c conn req m start w
      else write_read_cached_tcp c conn req m start w

  unfoldable pub request_on_cached : Client S → ReusableConn S → Request → ℕ → W → Outcome
  request_on_cached c conn req start w = elim (build_request known_verb req) [
    | none ↦ ((failure invalid_method, c), w)
    | some m ↦
        let (dead, w') = cached_connection_dead conn.stream w in
        on_peeked c conn req m start dead w'
  ]

  unfoldable pub with_cached : Client S → Option (ReusableConn S) → Request → ℕ → W → Outcome
  with_cached c none req start w = request_fresh c req start w
  with_cached c (some conn) req start w =
      if c.keep_alive && targets conn req
      then request_on_cached c conn req start w
      else request_fresh c req start w

  -- The context of TLS is never null, as the constructor makes it.
  unfoldable pub async_request : Client S → Request → W → Outcome
  async_request c req w = let (start, w') = N.now w in with_cached c c.cached req start w'
