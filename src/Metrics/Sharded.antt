-- ===== src/Metrics/Sharded.antt =====
-- core/metrics/sharded_collector.cpp: `ShardedMetricsCollector`, one call after another. A counter is
-- modulo 2^64; the index of a thread's shard is an argument; `max_latency_us` is `none` for INT64_MIN.
pub mod Totals
pub mod Window
pub mod Percentile
pub mod Tests
use cppload_workflow.Prelude.{
  ℕ, zero, suc, ◌+◌, ◌-◌, ◌*◌, ◌/◌, ◌%◌, ◌^◌, Bool, true, false, ◌&&◌, Option, none, some, List, [],
  ◌∷◌, ◌++◌, ltb, leb, ◌==◌, if◌then◌else◌, Signed, nonneg, negative, Double, length, get_elem?,
  max, min,
}

abbrev pub word : ℕ
word = 18446744073709551616

abbrev pub int64_max : ℕ
int64_max = 9223372036854775807

abbrev pub max_samples : ℕ
max_samples = 8192

pub record Shard : Type 0 where
  pub requests : ℕ
  pub successful : ℕ
  pub failed : ℕ
  pub bytes_sent : ℕ
  pub bytes_received : ℕ
  pub latency_sum_us : ℕ
  pub min_latency_us : ℕ
  pub max_latency_us : Option ℕ

pub record Collector : Type 0 where
  pub shards : List Shard
  pub latency_samples : ℕ → ℕ
  pub samples_head : ℕ
  pub samples_count : ℕ
  pub rps_count : ℕ
  pub rps_window_start : ℕ

-- One call of `record_request`.
pub record Sample : Type 0 where
  pub status_code : ℕ
  pub latency : Signed
  pub bytes_sent : ℕ
  pub bytes_received : ℕ

abbrev pub fresh : Shard
fresh = record {
  requests = 0;
  successful = 0;
  failed = 0;
  bytes_sent = 0;
  bytes_received = 0;
  latency_sum_us = 0;
  min_latency_us = int64_max;
  max_latency_us = none;
}

unfoldable pub fresh_shards : ℕ → List Shard
fresh_shards zero = []
fresh_shards (suc n) = fresh ∷ fresh_shards n

unfoldable pub num_shards : ℕ → ℕ
num_shards hardware_concurrency = min 128 (max 4 (hardware_concurrency * 2))

unfoldable pub create : ℕ → ℕ → Collector
create hardware_concurrency now = record {
  shards = fresh_shards (num_shards hardware_concurrency);
  latency_samples = λ i. 0;
  samples_head = 0;
  samples_count = 0;
  rps_count = 0;
  rps_window_start = now;
}

abbrev pub clamp : Signed → ℕ
clamp (nonneg n) = n
clamp negative = 0

-- The sum stays at UINT64_MAX where it would pass it; 0 and negative latencies are skipped.
unfoldable pub add_latency : ℕ → Signed → ℕ
add_latency sum negative = sum
add_latency sum (nonneg n) =
    if n == 0 then sum else if ltb (word - 1 - n) sum then word - 1 else sum + n

abbrev pub raise : ℕ → Option ℕ → Option ℕ
raise n none = some n
raise n (some m) = if ltb m n then some n else some m

abbrev pub is_success : ℕ → Bool
is_success status = leb 200 status && ltb status 400

unfoldable pub record_shard : Sample → Shard → Shard
record_shard q s = record {
  requests = (s.requests + 1) % word;
  successful = if is_success q.status_code then (s.successful + 1) % word else s.successful;
  failed = if is_success q.status_code then s.failed else (s.failed + 1) % word;
  bytes_sent = (s.bytes_sent + q.bytes_sent) % word;
  bytes_received = (s.bytes_received + q.bytes_received) % word;
  latency_sum_us = add_latency s.latency_sum_us q.latency;
  min_latency_us =
      if ltb (clamp q.latency) s.min_latency_us then clamp q.latency else s.min_latency_us;
  max_latency_us = raise (clamp q.latency) s.max_latency_us;
}

unfoldable pub update {ℓ} : {A : Type ℓ} → ℕ → (A → A) → List A → List A
update i f [] = []
update zero f (s ∷ ss) = f s ∷ ss
update (suc i) f (s ∷ ss) = s ∷ update i f ss

abbrev pub write : (ℕ → ℕ) → ℕ → ℕ → ℕ → ℕ
write f i v j = if j == i then v else f j

-- The locked part: the sample goes to the head of the ring.
unfoldable pub push_sample : ℕ → Collector → Collector
push_sample v c = record c {
  latency_samples = write c.latency_samples c.samples_head v;
  samples_head = (c.samples_head + 1) % max_samples;
  samples_count = if ltb c.samples_count max_samples then c.samples_count + 1 else c.samples_count;
}

unfoldable pub record_request : ℕ → Sample → Collector → Collector
record_request idx q c =
    let c' =
      push_sample (clamp q.latency) (record c { shards = update idx (record_shard q) c.shards }) in
    record c' { rps_count = (c'.rps_count + 1) % word }

unfoldable pub clear_shards : List Shard → List Shard
clear_shards [] = []
clear_shards (s ∷ ss) = fresh ∷ clear_shards ss

unfoldable pub reset : ℕ → Collector → Collector
reset now c = record c {
  shards = clear_shards c.shards;
  samples_head = 0;
  samples_count = 0;
  rps_count = 0;
  rps_window_start = now;
}

-- The loop of `snapshot` over the shards, for one counter.
unfoldable pub add_all : (Shard → ℕ) → ℕ → List Shard → ℕ
add_all f acc [] = acc
add_all f acc (s ∷ ss) = add_all f ((acc + f s) % word) ss

unfoldable pub copy : (ℕ → ℕ) → ℕ → ℕ → List ℕ
copy f i zero = []
copy f i (suc n) = f i ∷ copy f (suc i) n

-- The samples that `snapshot` copies out of the ring, the oldest first.
unfoldable pub window : Collector → List ℕ
window c =
    if c.samples_count == max_samples
    then copy c.latency_samples c.samples_head (max_samples - c.samples_head)
      ++ copy c.latency_samples 0 c.samples_head
    else copy c.latency_samples 0 c.samples_count

-- `std::sort`
unfoldable pub sort_insert : ℕ → List ℕ → List ℕ
sort_insert a [] = a ∷ []
sort_insert a (b ∷ l) = if leb a b then a ∷ b ∷ l else b ∷ sort_insert a l

unfoldable pub sort : List ℕ → List ℕ
sort [] = []
sort (a ∷ l) = sort_insert a (sort l)

unfoldable pub rank : ℕ → ℕ → ℕ
rank percent n = (n * percent + 99) / 100 - 1

-- A percentile of the samples; without samples it stays at its start, 0.
unfoldable pub percentile : ℕ → List ℕ → ℕ
percentile percent samples = elim (get_elem? (sort samples) (rank percent (length samples))) [
  | none ↦ 0
  | some v ↦ v
]

-- The extremes over the shards; a minimum of INT64_MAX and a maximum of INT64_MIN are reported as 0.
unfoldable pub global_min : ℕ → List Shard → ℕ
global_min m [] = m
global_min m (s ∷ ss) = global_min (if ltb s.min_latency_us m then s.min_latency_us else m) ss

abbrev pub raise_to : Option ℕ → Option ℕ → Option ℕ
raise_to none m = m
raise_to (some n) m = raise n m

unfoldable pub global_max : Option ℕ → List Shard → Option ℕ
global_max m [] = m
global_max m (s ∷ ss) = global_max (raise_to s.max_latency_us m) ss

abbrev pub or_zero : Option ℕ → ℕ
or_zero none = 0
or_zero (some n) = n

pub record Metrics (F : Type 0) : Type 0 where
  pub total_requests : ℕ
  pub successful_requests : ℕ
  pub failed_requests : ℕ
  pub total_bytes_sent : ℕ
  pub total_bytes_received : ℕ
  pub mean_latency_us : F
  pub min_latency_us : ℕ
  pub max_latency_us : ℕ
  pub p95_latency_us : ℕ
  pub p99_latency_us : ℕ

-- What `requests_per_second` does to the window: after a second it starts anew.
unfoldable pub roll_window : ℕ → Collector → Collector
roll_window now c =
    if leb (c.rps_window_start + 1_000_000_000) now
    then record c { rps_count = 0; rps_window_start = now }
    else c

module _ {F : Type 0} (D : Double F) where
  unfoldable pub snapshot : Collector → Metrics F
  snapshot c =
      let total = add_all (λ s. s.requests) 0 c.shards in
      let least = global_min int64_max c.shards in
      record {
        total_requests = total;
        successful_requests = add_all (λ s. s.successful) 0 c.shards;
        failed_requests = add_all (λ s. s.failed) 0 c.shards;
        total_bytes_sent = add_all (λ s. s.bytes_sent) 0 c.shards;
        total_bytes_received = add_all (λ s. s.bytes_received) 0 c.shards;
        mean_latency_us =
            if ltb 0 total
            then D.div (D.of_nat (add_all (λ s. s.latency_sum_us) 0 c.shards)) (D.of_nat total)
            else D.ratio 0 1;
        min_latency_us = if least == int64_max then 0 else least;
        max_latency_us = or_zero (global_max none c.shards);
        p95_latency_us = if ltb 0 total then percentile 95 (window c) else 0;
        p99_latency_us = if ltb 0 total then percentile 99 (window c) else 0;
      }

  unfoldable pub error_rate : Collector → F
  error_rate c =
      let total = add_all (λ s. s.requests) 0 c.shards in
      if total == 0
      then D.ratio 0 1
      else D.mul (D.div (D.of_nat (add_all (λ s. s.failed) 0 c.shards)) (D.of_nat total))
          (D.ratio 100 1)

  -- The seconds of `elapsed` nanoseconds, as a `double`.
  abbrev pub seconds : ℕ → F
  seconds elapsed = D.div (D.of_nat elapsed) (D.of_nat 1_000_000_000)

  unfoldable pub requests_per_second : ℕ → Collector → F × Collector
  requests_per_second now c =
      if leb now c.rps_window_start
      then (D.ratio 0 1, c)
      else (D.div (D.of_nat c.rps_count) (seconds (now - c.rps_window_start)), roll_window now c)

-- The calls that change the collector.
pub data Call : Type 0 where
  records : ℕ → Sample → Call
  resets : ℕ → Call
  reads_rate : ℕ → Call

unfoldable pub step : Collector → Call → Collector
step c (records idx q) = record_request idx q c
step c (resets now) = reset now c
step c (reads_rate now) = roll_window now c

unfoldable pub run : Collector → List Call → Collector
run c [] = c
run c (e ∷ es) = run (step c e) es
