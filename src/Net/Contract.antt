-- ===== src/Net/Contract.antt =====
-- core/net/tcp_raw_client.cpp and ws_client.cpp: the contract that the two clients share.
use cppload_workflow.Prelude.{ℕ, ◌+◌}
use cppload_workflow.Net.Network.{Network}
use cppload_workflow.Net.Network.Writes.{counted}
use cppload_workflow.Net.Protocol.{Request}
use cppload_workflow.Net.Settled.{Settles}
use cppload_workflow.Net.Raw
use cppload_workflow.Net.Raw.Answers.{raw_request-Settles}
use cppload_workflow.Net.WebSocket
use cppload_workflow.Net.WebSocket.Answers.{ws_request-Settles}

-- Over any network, a request of the raw client and one of the WebSocket client is sent once at most, and
-- its handler gets either no error and the status 1, or an error, the status 0 and an empty body.
pub requests_settle :
    {W S : Type 0} (N : Network W S) (req : Request) (w : W) (n : ℕ)
    → Settles (n + 1) (Raw.async_request (counted N) req (w, n))
      × Settles (n + 1) (WebSocket.async_request (counted N) req (w, n))
requests_settle N req w n = (raw_request-Settles N req w n, ws_request-Settles N req w n)
