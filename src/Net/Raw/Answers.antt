-- ===== src/Net/Raw/Answers.antt =====
-- core/net/tcp_raw_client.cpp: every request is settled, and sent once at most.
use cppload_workflow.Prelude.{
  ℕ, suc, ◌+◌, refl, inl, inr, Bool, true, false, Option, none, some, arith, Bytes, Bool-cases,
}
use cppload_workflow.Core.Errors.{Err, write_error, tls_handshake_failed}
use cppload_workflow.Net.Network.{Network, any_error}
use cppload_workflow.Net.Network.Writes.{counted}
use cppload_workflow.Net.Protocol.{Request, host_is_ip_literal}
use cppload_workflow.Net.Settled.{IsSettled, Settles, failure-Settles, if-Settles}
use cppload_workflow.Net.Raw.{
  populate_response, on_sent, send_raw, send_raw_tls, on_connected, connect_tcp, on_handshake,
  name_host, on_named, on_connected_tls, connect_tls, on_resolved, async_request,
}

populate_response-IsSettled :
    (o : Option Err) (data' : Bytes) (start end' : ℕ)
    → IsSettled (populate_response o data' start end')
unfolding populate_response
populate_response-IsSettled none d s e = inl (refl, refl)
populate_response-IsSettled (some x) d s e = inr (x, refl, refl, refl)

module _ {W S : Type 0} (N : Network W S) where
  on_sent-Settles :
      (s : S) (start : ℕ) (o : Option Err) (w : W) (n : ℕ)
      → Settles n (on_sent (counted N) s start o (w, n))
  unfolding on_sent counted
  on_sent-Settles s start (some e) w n = failure-Settles e w n n (omega arith)
  on_sent-Settles s start none w n = (populate_response-IsSettled _ _ start _, omega arith)

  on_connected-Settles :
      (req : Request) (s : S) (start : ℕ) (o : Option Err) (w : W) (n : ℕ)
      → Settles (n + 1) (on_connected (counted N) req s start o (w, n))
  unfolding on_connected send_raw counted
  on_connected-Settles req s start (some e) w n = failure-Settles e w n (n + 1) (omega arith)
  on_connected-Settles req s start none w n =
      let (ec, w') = N.send s req.body w in
      let (settled, h) = on_sent-Settles s start (any_error write_error ec) w' (suc n) in
      (settled, omega (arith, h))

  on_handshake-Settles :
      (req : Request) (s : S) (start : ℕ) (o : Option Err) (w : W) (n : ℕ)
      → Settles (n + 1) (on_handshake (counted N) req s start o (w, n))
  unfolding on_handshake send_raw_tls counted
  on_handshake-Settles req s start (some e) w n = failure-Settles e w n (n + 1) (omega arith)
  on_handshake-Settles req s start none w n =
      let (ec, w') = N.send s req.body w in
      let (settled, h) = on_sent-Settles s start (any_error write_error ec) w' (suc n) in
      (settled, omega (arith, h))

  on_named-Settles :
      (req : Request) (s : S) (start : ℕ) (named : Bool) (w : W) (n : ℕ)
      → Settles (n + 1) (on_named (counted N) req s start named (w, n))
  unfolding on_named counted
  on_named-Settles req s start false w n =
      failure-Settles tls_handshake_failed w n (n + 1) (omega arith)
  on_named-Settles req s start true w n =
      let (ec, w') = N.handshake s w in
      on_handshake-Settles req s start (any_error tls_handshake_failed ec) w' n

  on_connected_tls-Settles :
      (req : Request) (s : S) (start : ℕ) (o : Option Err) (w : W) (n : ℕ)
      → Settles (n + 1) (on_connected_tls (counted N) req s start o (w, n))
  unfolding on_connected_tls name_host counted
  on_connected_tls-Settles req s start (some e) w n = failure-Settles e w n (n + 1) (omega arith)
  on_connected_tls-Settles req s start none w n = elim (Bool-cases (host_is_ip_literal req.host)) [
    | inl e ↦ rw e (on_named-Settles req s start true w n)
    | inr e ↦
        let (named, w') = N.set_host_name s req.host w in
        rw e (on_named-Settles req s start named w' n)
  ]

  on_resolved-Settles :
      (req : Request) (start : ℕ) (o : Option Err) (w : W) (n : ℕ)
      → Settles (n + 1) (on_resolved (counted N) req start o (w, n))
  unfolding on_resolved connect_tcp connect_tls counted
  on_resolved-Settles req start (some e) w n = failure-Settles e w n (n + 1) (omega arith)
  on_resolved-Settles req start none w n =
      if-Settles (n + 1) req.use_tls _ _ (on_connected_tls-Settles req _ start _ _ n)
        (on_connected-Settles req _ start _ _ n)

  pub raw_request-Settles :
      (req : Request) (w : W) (n : ℕ) → Settles (n + 1) (async_request (counted N) req (w, n))
  unfolding async_request counted
  raw_request-Settles req w n = on_resolved-Settles req _ _ _ n
