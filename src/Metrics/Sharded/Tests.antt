-- ===== src/Metrics/Sharded/Tests.antt =====
-- core/metrics/sharded_collector.cpp at concrete inputs.
use cppload_workflow.Prelude.{ℕ, ◌%◌, ◌≡◌, refl, List, [], ◌∷◌, arith, nonneg, whole}
use cppload_workflow.Metrics.Sharded.{
  Sample, Call, records, resets, word, create, num_shards, fresh_shards, step, run, record_request,
  push_sample, update, record_shard, snapshot, window, copy, add_all, reset, clear_shards,
}
use cppload_workflow.Metrics.Sharded.Totals.{tally, success, failure, snapshot-tally}
use cppload_workflow.Metrics.Sharded.Window.{queue_run, window-run}

abbrev sample : ℕ → ℕ → Sample
sample status us = record {
  status_code = status;
  latency = nonneg us;
  bytes_sent = 10;
  bytes_received = 20;
}

abbrev calls : List Call
calls =
    records 0 (sample 200 9)
    ∷ resets 5
    ∷ records 1 (sample 200 30)
    ∷ records 0 (sample 500 20)
    ∷ records 1 (sample 302 10)
    ∷ []

counted : (snapshot whole (run (create 2 0) calls)).successful_requests ≡ 2
unfolding snapshot run create num_shards fresh_shards step record_request push_sample update
    record_shard reset clear_shards add_all
counted = refl

in_order : window (run (create 2 0) calls) ≡ 30 ∷ 20 ∷ 10 ∷ []
unfolding window run create num_shards fresh_shards step record_request push_sample reset copy
in_order = refl

snapshot-tally_example :
    ((snapshot whole (run (create 2 0) calls)).total_requests ≡ tally (λ q. 1) 0 calls % word)
    × ((snapshot whole (run (create 2 0) calls)).successful_requests ≡ tally success 0 calls % word)
    × ((snapshot whole (run (create 2 0) calls)).failed_requests ≡ tally failure 0 calls % word)
    × ((snapshot whole (run (create 2 0) calls)).total_bytes_sent
        ≡ tally (λ q. q.bytes_sent) 0 calls % word)
    × ((snapshot whole (run (create 2 0) calls)).total_bytes_received
        ≡ tally (λ q. q.bytes_received) 0 calls % word)
unfolding num_shards
snapshot-tally_example =
    snapshot-tally whole 2 0 calls (omega arith, (omega arith, (omega arith, (omega arith, tt))))

window-run_example : window (run (create 2 0) calls) ≡ queue_run (window (create 2 0)) calls
unfolding create
window-run_example =
    window-run (create 2 0) calls
      (record { count_le = omega arith; head_lt = omega arith; head_count = λ e. refl })
