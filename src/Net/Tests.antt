-- ===== src/Net/Tests.antt =====
-- core/net/http_client.cpp, tcp_raw_client.cpp and ws_client.cpp at concrete inputs.
use cppload_workflow.Prelude.{
  ℕ, ◌+◌, ◌≤◌, ◌≡◌, refl, Bool, true, false, none, some, [], ◌∷◌, Bytes, bytes, All, arith, eqb,
}
use cppload_workflow.Core.Url.Encode.{decode, plain}
use cppload_workflow.Net.Network.{Network, end_of_stream, would_block, timeout, Reply}
use cppload_workflow.Net.Network.Writes.{counted}
use cppload_workflow.Net.Network.Samples.{steady}
use cppload_workflow.Net.Protocol.{Request}
use cppload_workflow.Net.HttpMessage.{
  populate_response, copy_capped, target_of, strip_line_breaks, build_request, method_is_idempotent,
}
use cppload_workflow.Net.HttpMessage.Targets.{IsPrinted, target_of_safe}
use cppload_workflow.Net.Http.{
  Client, async_request, with_cached, targets, request_on_cached, cached_connection_dead, on_peeked,
  write_read_cached_tcp, on_cached_written, on_cached_received, request_fresh, on_resolved,
  connect_tcp, on_connected, send_and_receive, on_written, on_received, drop_cached,
}
use cppload_workflow.Net.Http.Retries.{async_request-resends, resends}
use cppload_workflow.Net.Settled.{Settles}
use cppload_workflow.Net.Raw
use cppload_workflow.Net.WebSocket
use cppload_workflow.Net.Contract.{requests_settle}

abbrev page : Reply
page = record { status = 200; fields = []; body = bytes "hello" }

abbrev host : Bytes
host = bytes "h"

abbrev get : Request
get = record {
  method = bytes "GET";
  path = bytes "/";
  body = [];
  headers = [];
  host = host;
  port = 80;
  use_tls = false;
}

abbrev post : Request
post = record get { method = bytes "POST" }

abbrev any_verb : Bytes → Bool
any_verb method = true

-- Connections that stay open, and answers that never come.
abbrev silent : Network ℕ ℕ
silent = record (steady page) { peek = λ s w. (would_block, w); read = λ s w. ((timeout, page), w) }

abbrev warm : Client ℕ
warm = record {
  timeout_ms = 5000;
  keep_alive = true;
  max_body_bytes = 0;
  cached = some (record { number = 0; stream = 7; host = host; port = 80; tls = false });
  next_number = 1;
}

-- A timeout on a connection that is used again: the request is sent a second time.
timeout_resent : (async_request (counted silent) any_verb warm get (0, 0)).1.1 ≡ 2
unfolding async_request with_cached targets request_on_cached cached_connection_dead on_peeked
    write_read_cached_tcp on_cached_written on_cached_received request_fresh on_resolved connect_tcp
    on_connected send_and_receive on_written on_received drop_cached counted steady build_request
    method_is_idempotent populate_response eqb bytes
timeout_resent = refl

-- A closed connection whose response was never written to: it counts as an answer, and nothing is sent again.
abbrev closing : Network ℕ ℕ
closing = record silent { read = λ s w. ((end_of_stream, record page { body = [] }), w) }

closed_answered :
    let ((r, _), (_, n)) = async_request (counted closing) any_verb warm get (0, 0) in
    (r.status_code ≡ 200) × (r.ec ≡ none) × (n ≡ 1)
unfolding async_request with_cached targets request_on_cached cached_connection_dead on_peeked
    write_read_cached_tcp on_cached_written on_cached_received drop_cached counted steady
    build_request method_is_idempotent populate_response copy_capped eqb bytes
closed_answered = (refl, refl, refl)

async_request-resends_example :
    (async_request (counted silent) any_verb warm post (0, 0)).1.1 ≤ 0 + 1 + resends post
async_request-resends_example = async_request-resends silent any_verb warm post 0 0

abbrev broken_line : Bytes
broken_line = b'/' ∷ 13 ∷ 10 ∷ b'X' ∷ b' ' ∷ []

target_of_safe_example :
    All IsPrinted (target_of broken_line)
    × (decode plain (target_of broken_line) ≡ strip_line_breaks broken_line)
target_of_safe_example =
    target_of_safe broken_line
      (omega arith, (omega arith, (omega arith, (omega arith, (omega arith, tt)))))

requests_settle_example :
    Settles 1 (Raw.async_request (counted silent) get (0, 0))
    × Settles 1 (WebSocket.async_request (counted silent) get (0, 0))
requests_settle_example = requests_settle silent get 0 0
