-- ===== src/Net/Network/Samples.antt =====
-- A network whose world is a clock, for runs at concrete inputs: every call succeeds, and each response is
-- the one given.
use cppload_workflow.Prelude.{ℕ, ◌+◌, true}
use cppload_workflow.Net.Network.{done, Reply, Network}

unfoldable pub steady : Reply → Network ℕ ℕ
steady reply = record {
  resolve = λ host port w. (done, w);
  create_stream = λ tls w. (w, w + 1);
  connect = λ s host port w. (done, w + 1);
  set_host_name = λ s host w. (true, w);
  handshake = λ s w. (done, w + 1);
  write = λ s m w. (done, w + 1);
  read = λ s w. ((done, reply), w + 1);
  send = λ s body w. (done, w + 1);
  receive = λ s w. ((done, reply.body), w + 1);
  upgrade = λ s host target w. (done, w + 1);
  shutdown = λ s w. w + 1;
  close = λ s w. w + 1;
  set_non_blocking = λ s w. (done, w);
  peek = λ s w. (done, w);
  now = λ w. (w, w);
  sleep = λ t w. w + t;
}
