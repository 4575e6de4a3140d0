-- ===== src/Net/Http/Retries.antt =====
-- core/net/http_client.cpp: how often a request is sent.
use cppload_workflow.Prelude.{
  ℕ, suc, ◌+◌, ◌≤◌, inl, inr, Bool, true, false, ◌&&◌, not, Option, none, some, arith, ◌==◌,
  if◌then◌else◌, Bytes, Bool-cases, Option-cases,
}
use cppload_workflow.Core.Errors.{Err, write_error, tls_handshake_failed}
use cppload_workflow.Net.Network.{Io, Message, Reply, Network, any_error}
use cppload_workflow.Net.Network.Writes.{counted}
use cppload_workflow.Net.Protocol.{Request, host_is_ip_literal}
use cppload_workflow.Net.HttpMessage.{build_request, method_is_idempotent, populate_response}
use cppload_workflow.Net.Http.{
  Client, ReusableConn, targets, drop_cached, is_done, not_timed_out, nothing_pending, on_received,
  on_written, send_and_receive, send_and_receive_tls, on_connected, connect_tcp, on_handshake,
  name_host, on_named, on_connected_tls, connect_tls, on_resolved, request_fresh,
  cached_connection_dead, on_cached_received, on_cached_written, write_read_cached_tcp,
  write_read_cached_tls, on_peeked, request_on_cached, with_cached, async_request,
}

-- How often a request may be sent again: only if that is harmless.
abbrev pub resends : Request → ℕ
resends req = if method_is_idempotent req.method then 1 else 0

-- Both branches of a test keep to a bound.
if_writes :
    {A W : Type 0} (t : Bool) (x y : A × (W × ℕ)) (k : ℕ)
    → x.1.1 ≤ k
    → y.1.1 ≤ k
    → (if t then x else y).1.1 ≤ k
if_writes true x y k h h' = h
if_writes false x y k h h' = h'

module _ {W S : Type 0} (N : Network W S) (known_verb : Bytes → Bool) where
  on_written-writes :
      (c : Client S) (req : Request) (s : S) (start : ℕ) (tls : Bool) (o : Option Err) (w : W)
      (n : ℕ)
      → (on_written (counted N) known_verb c req s start tls o (w, n)).1.1 ≤ n
  unfolding on_written on_received counted
  on_written-writes c req s start tls (some e) w n = omega arith
  on_written-writes c req s start tls none w n = omega arith

  on_connected-writes :
      (c : Client S) (req : Request) (m : Message) (s : S) (start : ℕ) (o : Option Err) (w : W)
      (n : ℕ)
      → (on_connected (counted N) known_verb c req m s start o (w, n)).1.1 ≤ n + 1
  unfolding on_connected send_and_receive counted
  on_connected-writes c req m s start (some e) w n = omega arith
  on_connected-writes c req m s start none w n =
      let (ec, w') = N.write s m w in
      omega (arith, on_written-writes c req s start false (any_error write_error ec) w' (suc n))

  on_handshake-writes :
      (c : Client S) (req : Request) (m : Message) (s : S) (start : ℕ) (o : Option Err) (w : W)
      (n : ℕ)
      → (on_handshake (counted N) known_verb c req m s start o (w, n)).1.1 ≤ n + 1
  unfolding on_handshake send_and_receive_tls counted
  on_handshake-writes c req m s start (some e) w n = omega arith
  on_handshake-writes c req m s start none w n =
      let (ec, w') = N.write s m w in
      omega (arith, on_written-writes c req s start true (any_error write_error ec) w' (suc n))

  on_named-writes :
      (c : Client S) (req : Request) (m : Message) (s : S) (start : ℕ) (named : Bool) (w : W)
      (n : ℕ)
      → (on_named (counted N) known_verb c req m s start named (w, n)).1.1 ≤ n + 1
  unfolding on_named counted
  on_named-writes c req m s start false w n = omega arith
  on_named-writes c req m s start true w n =
      let (ec, w') = N.handshake s w in
      on_handshake-writes c req m s start (any_error tls_handshake_failed ec) w' n

  on_connected_tls-writes :
      (c : Client S) (req : Request) (m : Message) (s : S) (start : ℕ) (o : Option Err) (w : W)
      (n : ℕ)
      → (on_connected_tls (counted N) known_verb c req m s start o (w, n)).1.1 ≤ n + 1
  unfolding on_connected_tls name_host counted
  on_connected_tls-writes c req m s start (some e) w n = omega arith
  on_connected_tls-writes c req m s start none w n =
      elim (Bool-cases (host_is_ip_literal req.host)) [
        | inl e ↦ rw e (on_named-writes c req m s start true w n)
        | inr e ↦
            let (named, w') = N.set_host_name s req.host w in
            rw e (on_named-writes c req m s start named w' n)
      ]

  on_resolved-writes :
      (c : Client S) (req : Request) (m : Message) (start : ℕ) (o : Option Err) (w : W) (n : ℕ)
      → (on_resolved (counted N) known_verb c req m start o (w, n)).1.1 ≤ n + 1
  unfolding on_resolved connect_tcp connect_tls counted
  on_resolved-writes c req m start (some e) w n = omega arith
  on_resolved-writes c req m start none w n =
      if_writes req.use_tls _ _ (n + 1) (on_connected_tls-writes c req m _ start _ _ n)
        (on_connected-writes c req m _ start _ _ n)

  request_fresh-writes :
      (c : Client S) (req : Request) (start : ℕ) (w : W) (n : ℕ)
      → (request_fresh (counted N) known_verb c req start (w, n)).1.1 ≤ n + 1
  unfolding request_fresh counted
  request_fresh-writes c req start w n = elim (Option-cases (build_request known_verb req)) [
    | inl e ↦ rw (e, request_fresh) (omega arith)
    | inr (m, e) ↦ rw (e, request_fresh) (on_resolved-writes c req m start _ _ n)
  ]

  on_cached_received-writes :
      (c : Client S) (conn : ReusableConn S) (req : Request) (start : ℕ) (r : Io × Reply) (w : W)
      (n : ℕ)
      → (on_cached_received (counted N) known_verb c conn req start r (w, n)).1.1 ≤ n + resends req
  unfolding on_cached_received counted
  on_cached_received-writes c conn req start (ec, res) w n =
      let (end', w') = N.now w in
      let answered =
        not_timed_out ec
        && (populate_response c.max_body_bytes ec res start end').status_code == 0 in
      let again = request_fresh-writes (drop_cached c conn) req start w' n in
      if_writes (is_done ec) _ _ (n + resends req) (omega arith)
        (elim (Bool-cases (method_is_idempotent req.method)) [
          | inl e ↦ rw e (if_writes (answered && true) _ _ (n + 1) again (omega arith))
          | inr e ↦ rw e (elim (Bool-cases answered) [
            | inl f ↦ rw f (omega arith)
            | inr f ↦ rw f (omega arith)
          ])
        ])

  on_cached_written-writes :
      (c : Client S) (conn : ReusableConn S) (req : Request) (start : ℕ) (o : Option Err) (w : W)
      (n : ℕ)
      → (on_cached_written (counted N) known_verb c conn req start o (w, n)).1.1 ≤ n + resends req
  unfolding on_cached_written counted
  on_cached_written-writes c conn req start none w n =
      let (r, w') = N.read conn.stream w in on_cached_received-writes c conn req start r w' n
  on_cached_written-writes c conn req start (some x) w n =
      elim (Bool-cases (method_is_idempotent req.method)) [
        | inl e ↦ rw e (request_fresh-writes (drop_cached c conn) req start w n)
        | inr e ↦ rw e (omega arith)
      ]

  on_peeked-writes :
      (c : Client S) (conn : ReusableConn S) (req : Request) (m : Message) (start : ℕ) (dead : Bool)
      (w : W) (n : ℕ)
      → (on_peeked (counted N) known_verb c conn req m start dead (w, n)).1.1 ≤ n + 1 + resends req
  unfolding on_peeked write_read_cached_tcp write_read_cached_tls counted
  on_peeked-writes c conn req m start true w n =
      omega (arith, request_fresh-writes (drop_cached c conn) req start w n)
  on_peeked-writes c conn req m start false w n =
      let (ec, w') = N.write conn.stream m w in
      let sent = on_cached_written-writes c conn req start (any_error write_error ec) w' (suc n) in
      if_writes conn.tls _ _ (n + 1 + resends req) (omega (arith, sent)) (omega (arith, sent))

  request_on_cached-writes :
      (c : Client S) (conn : ReusableConn S) (req : Request) (start : ℕ) (w : W) (n : ℕ)
      → (request_on_cached (counted N) known_verb c conn req start (w, n)).1.1 ≤ n + 1 + resends req
  unfolding request_on_cached cached_connection_dead counted
  request_on_cached-writes c conn req start w n =
      elim (Option-cases (build_request known_verb req)) [
        | inl e ↦ rw (e, request_on_cached) (omega arith)
        | inr (m, e) ↦
            rw (e, request_on_cached)
              (let (ec, w1) = N.set_non_blocking conn.stream w in
                elim (Bool-cases (is_done ec)) [
                  | inl d ↦
                      let (peeked, w2) = N.peek conn.stream w1 in
                      rw d (on_peeked-writes c conn req m start (not (nothing_pending peeked)) w2 n)
                  | inr d ↦ rw d (on_peeked-writes c conn req m start true w1 n)
                ])
      ]

  with_cached-writes :
      (c : Client S) (o : Option (ReusableConn S)) (req : Request) (start : ℕ) (w : W) (n : ℕ)
      → (with_cached (counted N) known_verb c o req start (w, n)).1.1 ≤ n + 1 + resends req
  unfolding with_cached
  with_cached-writes c none req start w n = omega (arith, request_fresh-writes c req start w n)
  with_cached-writes c (some conn) req start w n =
      if_writes (c.keep_alive && targets conn req) _ _ (n + 1 + resends req)
        (request_on_cached-writes c conn req start w n)
        (omega (arith, request_fresh-writes c req start w n))

  -- Over any network and from any state of the client, a request is sent once at most where its method is
  -- not idempotent, and twice at most where it is.
  pub async_request-resends :
      (c : Client S) (req : Request) (w : W) (n : ℕ)
      → (async_request (counted N) known_verb c req (w, n)).1.1 ≤ n + 1 + resends req
  unfolding async_request counted
  async_request-resends c req w n =
      let (start, w') = N.now w in with_cached-writes c c.cached req start w' n
