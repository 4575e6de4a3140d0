-- ===== src/Core/TokenBucket.antt =====
-- include/cppload/core/token_bucket.hpp and core/token_bucket.cpp: the rate limiter.
-- Times are nanoseconds, rates are billionths of a token a second and tokens are counted in 10^-18, so that the
-- exact product `elapsed * rate` stands for the rounded `double`. A call takes the clock's reading as an
-- argument. The mutex is held in each part of a call between two waits, so a history is a list of such parts.
pub mod Tests
pub mod Admission
pub mod Waiting
use cppload_workflow.Prelude.{
  ℕ, zero, suc, ◌+◌, ◌-◌, ◌*◌, ◌/◌, min, Bool, true, false, Option, none, some, List, [], ◌∷◌, ltb,
  if◌then◌else◌, Signed, nonneg, negative,
}

-- One token.
abbrev pub one : ℕ
one = 1_000_000_000_000_000_000

abbrev pub second_ns : ℕ
second_ns = 1_000_000_000

pub record TokenBucket : Type 0 where
  pub rate : ℕ
  pub burst : ℕ
  pub tokens : ℕ
  pub last_refill : ℕ

-- The constructor; `none` is the exception for a rate that is not positive.
pub create : Signed → Signed → ℕ → Option TokenBucket
create (nonneg (suc r)) (nonneg (suc b)) now =
    some (record { rate = suc r; burst = suc b; tokens = suc b; last_refill = now })
create (nonneg (suc r)) _ now = some (record {
  rate = suc r;
  burst = suc r * second_ns;
  tokens = suc r * second_ns;
  last_refill = now;
})
create _ _ now = none

unfoldable pub refill : TokenBucket → ℕ → TokenBucket
refill b now =
    if ltb b.last_refill now
    then record b {
      tokens = min b.burst (b.tokens + (now - b.last_refill) * b.rate);
      last_refill = now;
    }
    else b

-- `none` is the exception, with the bucket unchanged.
unfoldable pub set_rate : TokenBucket → Signed → ℕ → Option TokenBucket
unfolding refill
set_rate b (nonneg (suc r)) now = some (record (refill b now) { rate = suc r })
set_rate b _ now = none

unfoldable pub set_burst : TokenBucket → Signed → ℕ → Option TokenBucket
unfolding refill
set_burst b (nonneg (suc n)) now =
    some (record (refill b now) { burst = suc n; tokens = min (suc n) (refill b now).tokens })
set_burst b _ now = none

unfoldable pub try_consume : TokenBucket → ℕ → TokenBucket × Bool
unfolding refill
try_consume b now =
    let b' = refill b now in
    if ltb b'.tokens one then (b', false) else (record b' { tokens = b'.tokens - one }, true)

-- The nanoseconds that `consume` waits in one round: the deficit over the rate, a second at most.
unfoldable pub wait_ns : TokenBucket → ℕ
wait_ns b = min second_ns ((one - b.tokens) / b.rate)

-- `consume` from one wait to the next: whether it takes a token and returns.
unfoldable pub consume_turn : TokenBucket → ℕ → TokenBucket × Bool
unfolding refill
consume_turn b now =
    let b' = refill b now in
    if ltb b'.tokens one then (b', false) else (record b' { tokens = b'.tokens - one }, true)

-- `consume` while no other thread uses the bucket. The wait of round `k` ends `late k` nanoseconds after the
-- time asked for; `none` means that the rounds given did not suffice.
unfoldable pub consume : ℕ → (ℕ → ℕ) → TokenBucket → ℕ → Option TokenBucket
unfolding wait_ns consume_turn
consume zero late b now = none
consume (suc rounds) late b now =
    let (b', done) = consume_turn b now in
    let rest = consume rounds late b' (now + wait_ns b' + late rounds) in
    if done then some b' else rest

-- What `try_consume_for` does before it waits.
pub data Attempt : Type 0 where
  granted refused : Attempt
  waits : ℕ → Attempt

unfoldable pub try_consume_for_start : TokenBucket → ℕ → ℕ → TokenBucket × Attempt
unfolding refill
try_consume_for_start b now timeout =
    let b' = refill b now in
    if ltb b'.tokens one
    then (if ltb (timeout * b'.rate) (one - b'.tokens)
        then (b', refused)
        else (b', waits ((one - b'.tokens) / b'.rate)))
    else (record b' { tokens = b'.tokens - one }, granted)

-- What it does after the wait.
unfoldable pub try_consume_for_end : TokenBucket → ℕ → TokenBucket × Bool
unfolding refill
try_consume_for_end b now =
    let b' = refill b now in
    if ltb b'.tokens one then (b', false) else (record b' { tokens = b'.tokens - one }, true)

abbrev pub attempted : ℕ → ℕ → TokenBucket × Attempt → TokenBucket × Bool
attempted now late (b, granted) = (b, true)
attempted now late (b, refused) = (b, false)
attempted now late (b, waits ns) = try_consume_for_end b (now + ns + late)

-- A wait of `timeout` nanoseconds at most, while no other thread uses the bucket; it ends `late` nanoseconds
-- after the time asked for.
unfoldable pub try_consume_for : TokenBucket → ℕ → ℕ → ℕ → TokenBucket × Bool
unfolding try_consume_for_start
try_consume_for b now timeout late = attempted now late (try_consume_for_start b now timeout)

-- A clock that stands before the last refill makes the elapsed time negative, and the result 0 at least.
pub tokens_available : TokenBucket → ℕ → ℕ
tokens_available b now = min b.burst (
    if ltb now b.last_refill
    then b.tokens - (b.last_refill - now) * b.rate
    else b.tokens + (now - b.last_refill) * b.rate)

-- The parts of the calls that use the bucket: `turns` is one of `consume`, and a `try_consume_for` is a `starts`
-- with its timeout and, if it waits, an `ends`.
pub data Call : Type 0 where
  try_consumes turns ends : Call
  starts : ℕ → Call
  sets_rate sets_burst : Signed → Call

abbrev pub keep : TokenBucket → Option TokenBucket → TokenBucket
keep b none = b
keep b (some b') = b'

abbrev pub outcome : Bool → ℕ
outcome true = 1
outcome false = 0

abbrev pub grants : Attempt → ℕ
grants granted = 1
grants refused = 0
grants (waits ns) = 0

-- A part at a time, with the number of tokens that it grants.
unfoldable pub step : TokenBucket → ℕ × Call → TokenBucket × ℕ
step b (now, try_consumes) = let (b', done) = try_consume b now in (b', outcome done)
step b (now, turns) = let (b', done) = consume_turn b now in (b', outcome done)
step b (now, starts timeout) = let (b', a) = try_consume_for_start b now timeout in (b', grants a)
step b (now, ends) = let (b', done) = try_consume_for_end b now in (b', outcome done)
step b (now, sets_rate r) = (keep b (set_rate b r now), 0)
step b (now, sets_burst n) = (keep b (set_burst b n now), 0)

-- A history of calls, with the number of tokens granted in all.
pub run : TokenBucket → List (ℕ × Call) → TokenBucket × ℕ
run b [] = (b, 0)
run b (c ∷ cs) = let (b', n) = step b c in let (b'', m) = run b' cs in (b'', n + m)
