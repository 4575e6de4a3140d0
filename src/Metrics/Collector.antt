-- ===== src/Metrics/Collector.antt =====
-- core/metrics/collector.cpp: the ring of `MetricsCollector`, one call after another. Positions are below
-- 2^64, so they do not wrap; `none` means that the rounds given to the loop did not suffice.
pub mod Samples
pub mod Tests
use cppload_workflow.Prelude.{
  ℕ, zero, suc, ◌+◌, ◌-◌, ◌%◌, Bool, true, false, not, Option, none, some, List, [], ◌∷◌, ltb, leb,
  ◌==◌, if◌then◌else◌,
}

abbrev pub capacity : ℕ
capacity = 1_048_576

abbrev pub max_snapshot_samples : ℕ
max_snapshot_samples = 100_000

pub record Cell : Type 0 where
  pub seq : ℕ
  pub value : ℕ

pub record Ring : Type 0 where
  pub cells : ℕ → Cell
  pub head : ℕ
  pub tail : ℕ

unfoldable pub create : Ring
create = record { cells = λ i. record { seq = i; value = 0 }; head = 0; tail = 0 }

abbrev pub write : (ℕ → Cell) → ℕ → Cell → ℕ → Cell
write f i v j = if j == i then v else f j

-- The loop of `record_request` behind the counters, with `t` as the tail that was read last.
unfoldable pub push_loop : ℕ → ℕ → ℕ → Ring → Option Ring
push_loop zero lat_val t r = none
push_loop (suc rounds) lat_val t r =
    let retry = push_loop rounds lat_val r.tail r in
    let evict = push_loop rounds lat_val r.tail (record r { head = r.head + 1 }) in
    let take_slot = some (record r {
      tail = t + 1;
      cells = write r.cells (t % capacity) (record { seq = t + 1; value = lat_val });
    }) in
    if leb capacity (t - r.head)
    then if (r.cells (r.head % capacity)).seq == r.head + 1 then evict else retry
    else if r.tail == t
    then take_slot
    else retry

unfoldable pub push : ℕ → ℕ → Ring → Option Ring
push rounds lat_val r = push_loop rounds lat_val r.tail r

-- The scan from position `i`, for `n` positions at most; it stops at a cell that is not published.
unfoldable pub scan : (ℕ → Cell) → ℕ → ℕ → List ℕ
scan f i zero = []
scan f i (suc n) =
    let rest = scan f (suc i) n in
    if (f (i % capacity)).seq == i + 1 then (f (i % capacity)).value ∷ rest else []

unfoldable pub collect_ring_samples : Ring → List ℕ
collect_ring_samples r =
    let start =
      if ltb max_snapshot_samples (r.tail - r.head)
      then r.tail - max_snapshot_samples
      else r.head in
    if ltb r.head r.tail then scan r.cells start (r.tail - start) else []

-- The loop of `reset` over the positions from `i` on.
unfoldable pub unpublish : (ℕ → Cell) → ℕ → ℕ → ℕ → Cell
unpublish f i zero = f
unpublish f i (suc n) =
    unpublish (write f (i % capacity) (record (f (i % capacity)) { seq = i + capacity })) (suc i) n

unfoldable pub reset : Ring → Ring
reset r = record r { cells = unpublish r.cells r.head (r.tail - r.head); head = r.tail }

pub data Call : Type 0 where
  pushes : ℕ → Call
  resets : Call

abbrev pub bind : Option Ring → (Ring → Option Ring) → Option Ring
bind none k = none
bind (some r) k = k r

-- Each push is given two rounds.
unfoldable pub step : Call → Ring → Option Ring
step (pushes v) r = push 2 v r
step resets r = some (reset r)

unfoldable pub run : List Call → Ring → Option Ring
run [] r = some r
run (c ∷ cs) r = bind (step c r) (run cs)
