-- ===== src/Core/TokenBucket/Tests.antt =====
-- core/token_bucket.cpp at concrete inputs.
use cppload_workflow.Prelude.{
  ℕ, ◌+◌, ◌*◌, ◌≤◌, ◌≡◌, refl, some, none, List, [], ◌∷◌, arith, nonneg, negative,
}
use cppload_workflow.Core.TokenBucket.{
  TokenBucket, one, second_ns, create, refill, wait_ns, try_consume, consume, consume_turn,
  try_consume_for_start, try_consume_for_end, Call, try_consumes, turns, starts, ends, sets_rate,
  sets_burst, run, step, set_rate, set_burst,
}
use cppload_workflow.Core.TokenBucket.Admission.{IsValid, run_admits}
use cppload_workflow.Core.TokenBucket.Waiting.{consume_returns, consume_stuck}

-- Ten tokens a second, two at most, one at hand.
abbrev ten : TokenBucket
ten = record { rate = 10 * second_ns; burst = 2 * one; tokens = one; last_refill = 5 }

-- A token in two seconds.
abbrev half : TokenBucket
half = record { rate = 500_000_000; burst = one; tokens = 0; last_refill = 0 }

abbrev history : List (ℕ × Call)
history =
    (5, try_consumes)
    ∷ (6, starts 3_000_000_000)
    ∷ (10, sets_rate (nonneg 20_000_000_000))
    ∷ (100_000_010, turns)
    ∷ (100_000_011, ends)
    ∷ (100_000_020, sets_burst negative)
    ∷ []

ten-IsValid : IsValid ten
ten-IsValid = omega arith

half-IsValid : IsValid half
half-IsValid = omega arith

creates :
    (create (nonneg 0) (nonneg 1) 0 ≡ none)
    × (create negative (nonneg 1) 0 ≡ none)
    × (create (nonneg 3) negative 7
        ≡ some
            (record { rate = 3; burst = 3 * second_ns; tokens = 3 * second_ns; last_refill = 7 }))
unfolding create
creates = (refl, refl, refl)

three_granted : (run ten history).1 ≡ 3
unfolding run step try_consume consume_turn try_consume_for_start try_consume_for_end set_rate
    refill
three_granted = refl

run_admits_example :
    one * 3 + (run ten history).0.tokens + 20_000_000_000 * 5
    ≤ one + 20_000_000_000 * (run ten history).0.last_refill
unfolding run step try_consume consume_turn try_consume_for_start try_consume_for_end set_rate
    refill
run_admits_example = run_admits ten history 20_000_000_000 (omega arith) (omega arith)

-- One wait of a second does not suffice at half a token a second, two do.
two_waits :
    (consume 2 (λ _. 1) half 0 ≡ none)
    × (consume 3 (λ _. 1) half 0 ≡ some (record half { tokens = 0; last_refill = 2_000_000_001 }))
unfolding consume consume_turn refill wait_ns
two_waits = (refl, refl)

consume_returns_example :
    (b' : TokenBucket) × (consume 3 (λ _. 1) half 8 ≡ some b')
    × IsValid b'
    × (b'.rate ≡ 500_000_000)
    × (b'.burst ≡ one)
consume_returns_example =
    consume_returns 2 (λ _. 1) half 8 (λ _. omega arith) (omega arith) half-IsValid (omega arith)
      (omega arith)

consume_stuck_example :
    ((c : TokenBucket) × (create (nonneg 7) (nonneg 5) 1 ≡ some c)
      × (consume 50 (λ k. k) c 2 ≡ none))
    × ((c : TokenBucket) × (set_burst ten (nonneg 5) 1 ≡ some c) × (consume 50 (λ k. k) c 2 ≡ none))
consume_stuck_example = consume_stuck 6 4 50 (λ k. k) ten 1 2 ten-IsValid (omega arith)
