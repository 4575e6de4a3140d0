-- ===== src/Metrics/Exporter.antt =====
-- core/metrics/prometheus_exporter.cpp: `PrometheusExporter`. The registry of prometheus-cpp is the values of its
-- counters; `F` is `double`, of which the counters hold whole numbers.
pub mod Following
use cppload_workflow.Prelude.{
  ℕ, ◌+◌, ◌-◌, Bool, true, false, Option, none, some, List, [], ◌∷◌, ◌++◌, leb, if◌then◌else◌,
  Bytes, bytes,
}

-- The counters of a snapshot or of the registry.
pub record Totals : Type 0 where
  pub total : ℕ
  pub successful : ℕ
  pub failed : ℕ
  pub bytes_sent : ℕ
  pub bytes_received : ℕ

abbrev pub zeros : Totals
zeros = record { total = 0; successful = 0; failed = 0; bytes_sent = 0; bytes_received = 0 }

-- What is registered; the histogram is the list of what it has observed, the last first.
pub record Registered (F : Type 0) : Type 0 where
  pub counters : Totals
  pub observed : List F
  pub rps : F
  pub error_rate : F

pub record Exporter (F : Type 0) : Type 0 where
  pub bind_address : Bytes
  pub registered : Option (Registered F)
  pub last : Totals

-- The increment of a counter.
unfoldable pub delta_or_reset : ℕ → ℕ → ℕ
delta_or_reset curr last = if leb last curr then curr - last else curr

unfoldable pub increment : Totals → Totals → Totals → Totals
increment counters curr last = record {
  total = counters.total + delta_or_reset curr.total last.total;
  successful = counters.successful + delta_or_reset curr.successful last.successful;
  failed = counters.failed + delta_or_reset curr.failed last.failed;
  bytes_sent = counters.bytes_sent + delta_or_reset curr.bytes_sent last.bytes_sent;
  bytes_received = counters.bytes_received + delta_or_reset curr.bytes_received last.bytes_received;
}

module _ {F : Type 0} (zero_value : F) where
  unfoldable pub create : Bytes → Exporter F
  create bind_address = record { bind_address = bind_address; registered = none; last = zeros }

  -- With whether the listener of the library could be made.
  unfoldable pub start : Exporter F → Bool → Exporter F × Bool
  start e listens =
      if listens
      then (
        record e {
          registered = some (record {
            counters = zeros;
            observed = [];
            rps = zero_value;
            error_rate = zero_value;
          });
        },
        true,
      )
      else (e, false)

module _ {F : Type 0} where
  unfoldable pub stop : Exporter F → Exporter F
  stop e = record e { registered = none }

  abbrev pub is_there : Option (Registered F) → Bool
  is_there none = false
  is_there (some r) = true

  unfoldable pub is_running : Exporter F → Bool
  is_running e = is_there e.registered

  -- With the snapshot, its mean latency in seconds, and the rates of the collector.
  unfoldable pub update_metrics : Exporter F → Totals → F → F → F → Exporter F
  update_metrics e curr mean rps error_rate = elim e.registered [
    | none ↦ e
    | some r ↦ record e {
      registered = some (record {
        counters = increment r.counters curr e.last;
        observed = mean ∷ r.observed;
        rps = rps;
        error_rate = error_rate;
      });
      last = curr;
    }
  ]

  unfoldable pub endpoint : Exporter F → Bytes
  endpoint e = bytes "http://" ++ e.bind_address ++ bytes "/metrics"
