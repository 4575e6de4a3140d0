-- ===== src/Metrics/Embedded.antt =====
-- core/metrics/prometheus_exporter_embedded.cpp: the exporter that serves its own text. Whether the listener can be
-- opened is an argument; requests come as a method and a target. `F` is `double`, which `show` prints.
pub mod Bounds
use cppload_workflow.Prelude.{
  ℕ, suc, ◌+◌, ◌-◌, ◌^◌, Bool, true, false, not, ◌&&◌, Option, none, some, List, [], ◌∷◌, ◌++◌, ltb,
  leb, ◌==◌, if◌then◌else◌, take, drop, Bytes, bytes, eqb, is_empty, is_digit, read_digits,
  to_string,
}
use cppload_workflow.Metrics.Sharded.{Metrics}

pub record BindAddress : Type 0 where
  pub host : Bytes
  pub port : ℕ

abbrev pub rfind : ℕ → Bytes → Option ℕ
rfind c [] = none
rfind c (x ∷ s) = elim (rfind c s) [
  | some i ↦ some (suc i)
  | none ↦ if x == c then some 0 else none
]

abbrev pub all_digits : Bytes → Bool
all_digits [] = true
all_digits (c ∷ s) = is_digit c && all_digits s

abbrev pub default_port : ℕ
default_port = 9090

-- The port behind the colon; `none` is the exception of `std::stoul`.
unfoldable pub port_of : Bytes → Option ℕ
port_of s =
    if not (is_empty s) && all_digits s
    then (if leb (2 ^ 64) (read_digits 0 s)
        then none
        else if ltb 0 (read_digits 0 s) && leb (read_digits 0 s) 65535
        then some (read_digits 0 s)
        else some default_port)
    else some default_port

abbrev pub host_or_local : Bytes → Bytes
host_or_local host = if is_empty host then bytes "127.0.0.1" else host

abbrev pub bind_of : Bytes → Option ℕ → Option BindAddress
bind_of host none = none
bind_of host (some p) = some (record { host = host_or_local host; port = p })

abbrev pub bind_at : Bytes → Option ℕ → Option BindAddress
bind_at address none = bind_of (bytes "127.0.0.1") (some default_port)
bind_at address (some colon) = bind_of (take colon address) (port_of (drop (suc colon) address))

unfoldable pub parse_bind_address : Bytes → Option BindAddress
parse_bind_address address = bind_at address (rfind b':' address)

pub record Exporter (F : Type 0) : Type 0 where
  pub bind : BindAddress
  pub running : Bool
  pub active_connections : ℕ
  pub metrics : Metrics F
  pub rps : F
  pub err_rate : F

-- A gauge or a counter in the text format.
unfoldable pub metric : Bytes → Bytes → Bytes → Bytes → Bytes
metric name help kind value =
    bytes "# HELP "
    ++ name
    ++ bytes " "
    ++ help
    ++ bytes "\n# TYPE "
    ++ name
    ++ bytes " "
    ++ kind
    ++ bytes "\n"
    ++ name
    ++ bytes " "
    ++ value
    ++ bytes "\n"

abbrev pub counter : Bytes → Bytes → ℕ → Bytes
counter name help n = metric name help (bytes "counter") (to_string n)

abbrev pub gauge : Bytes → Bytes → Bytes → Bytes
gauge name help value = metric name help (bytes "gauge") value

abbrev pub max_connections : ℕ
max_connections = 100

module _ {F : Type 0} where
  unfoldable pub start : Exporter F → Bool → Exporter F × Bool
  start e opens = if e.running then (e, true) else (record e { running = opens }, opens)

  -- The handlers of the requests that are there are joined.
  unfoldable pub stop : Exporter F → Exporter F
  stop e = if e.running then record e { running = false; active_connections = 0 } else e

  unfoldable pub update_metrics : Exporter F → Metrics F → F → F → Exporter F
  update_metrics e m rps err_rate = record e { metrics = m; rps = rps; err_rate = err_rate }

  unfoldable pub endpoint : Exporter F → Bytes
  endpoint e =
      bytes "http://" ++ e.bind.host ++ bytes ":" ++ to_string e.bind.port ++ bytes "/metrics"

  -- A connection that was accepted, with whether it is served.
  unfoldable pub accepted : Exporter F → Exporter F × Bool
  accepted e =
      if leb max_connections e.active_connections
      then (e, false)
      else (record e { active_connections = e.active_connections + 1 }, true)

  unfoldable pub handled : Exporter F → Exporter F
  handled e = record e { active_connections = e.active_connections - 1 }

module _ {F : Type 0} (show : F → Bytes) where
  unfoldable pub metrics_text : Exporter F → Bytes
  metrics_text e =
      let m = e.metrics in
      counter (bytes "volley_requests_total") (bytes "Total number of requests") m.total_requests
      ++ counter (bytes "volley_requests_successful_total") (bytes "Total successful requests")
          m.successful_requests
      ++ counter (bytes "volley_requests_failed_total") (bytes "Total failed requests")
          m.failed_requests
      ++ gauge (bytes "volley_error_rate") (bytes "Current error rate (percent)") (show e.err_rate)
      ++ gauge (bytes "volley_requests_per_second") (bytes "Current requests per second")
          (show e.rps)
      ++ gauge (bytes "volley_mean_latency_us") (bytes "Mean latency in microseconds")
          (show m.mean_latency_us)
      ++ gauge (bytes "volley_p95_latency_us") (bytes "P95 latency in microseconds")
          (to_string m.p95_latency_us)
      ++ gauge (bytes "volley_p99_latency_us") (bytes "P99 latency in microseconds")
          (to_string m.p99_latency_us)

  -- The status and the body of the answer.
  unfoldable pub handle_request : Exporter F → Bytes → Bytes → ℕ × Bytes
  handle_request e method target =
      if eqb method (bytes "GET") && eqb target (bytes "/metrics")
      then (200, metrics_text e)
      else if eqb method (bytes "GET") && eqb target (bytes "/")
      then (200, bytes "volley prometheus exporter\n")
      else (404, bytes "not found\n")
