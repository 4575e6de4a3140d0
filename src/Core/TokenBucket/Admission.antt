-- ===== src/Core/TokenBucket/Admission.antt =====
-- core/token_bucket.cpp: how many tokens a history of calls can grant.
use cppload_workflow.Prelude.{
  ℕ, suc, ◌+◌, ◌-◌, ◌*◌, ◌≤◌, ◌<◌, ◌≡◌, ◌↔◌, true, some, List, [], ◌∷◌, arith, Signed, nonneg,
  negative, All, Bool-cases, ltb, ltb→lt, inl, inr, refl, ap,
}
use native.Mathlib.Nat.{mul-le-mul, le_refl}
use cppload_workflow.Core.TokenBucket.{
  TokenBucket, one, create, refill, set_rate, set_burst, try_consume, consume_turn,
  try_consume_for_start, try_consume_for_end, Call, try_consumes, turns, starts, ends, sets_rate,
  sets_burst, step, run, tokens_available, outcome,
}

-- What every constructed bucket keeps: a positive rate, and no more tokens than the burst.
pub record IsValid (b : TokenBucket) : Type 0 where
  pub rate_pos : 0 < b.rate
  pub burst_pos : 0 < b.burst
  pub tokens_le : b.tokens ≤ b.burst

create-IsValid : (r n : Signed) (now : ℕ) {b : TokenBucket} → create r n now ≡ some b → IsValid b
unfolding create
create-IsValid (nonneg (suc r)) (nonneg (suc n)) now e = ground arith
create-IsValid (nonneg (suc r)) (nonneg ℕ.zero) now e = ground arith
create-IsValid (nonneg (suc r)) negative now e = ground arith
create-IsValid (nonneg ℕ.zero) n now e = ground arith
create-IsValid negative n now e = ground arith

-- Each call keeps the bucket valid.
step-IsValid : (b : TokenBucket) (c : ℕ × Call) → IsValid b → IsValid (step b c).0
unfolding step try_consume consume_turn try_consume_for_start try_consume_for_end set_rate set_burst
    refill
step-IsValid b (now, try_consumes) v = ground arith
step-IsValid b (now, turns) v = ground arith
step-IsValid b (now, starts timeout) v = ground arith
step-IsValid b (now, ends) v = ground arith
step-IsValid b (now, sets_rate (nonneg (suc r))) v = ground arith
step-IsValid b (now, sets_rate (nonneg ℕ.zero)) v = v
step-IsValid b (now, sets_rate negative) v = v
step-IsValid b (now, sets_burst (nonneg (suc n))) v = ground arith
step-IsValid b (now, sets_burst (nonneg ℕ.zero)) v = v
step-IsValid b (now, sets_burst negative) v = v

-- A rate that a call asks for is at most `top`.
abbrev pub AsksAtMost : ℕ → ℕ × Call → Type 0
AsksAtMost top (now, sets_rate (nonneg r)) = r ≤ top
AsksAtMost top _ = Unit

mul_gap : (k a b : ℕ) → a ≤ b → k * b ≡ k * a + k * (b - a)
mul_gap k a b h = let e : b ≡ a + (b - a) = omega arith in omega (arith, ap (λ (t : ℕ). k * t) e)

refill_admits :
    (b : TokenBucket) (now top : ℕ)
    → b.rate ≤ top
    → ((refill b now).tokens + top * b.last_refill ≤ b.tokens + top * (refill b now).last_refill)
      × ((refill b now).rate ≡ b.rate)
unfolding refill
refill_admits b now top h = elim (Bool-cases (ltb b.last_refill now)) [
  | inl e ↦ rw e (
    ground (
      arith,
      mul_gap top b.last_refill now (omega (arith, ltb→lt b.last_refill now e)),
      mul-le-mul (le_refl (now - b.last_refill)) h,
    ),
    refl,
  )
  | inr e ↦ rw e (ground arith, refl)
]

step_admits :
    (b : TokenBucket) (c : ℕ × Call) (top : ℕ)
    → b.rate ≤ top
    → AsksAtMost top c
    → let (b', n) = step b c in
      (one * n + b'.tokens + top * b.last_refill ≤ b.tokens + top * b'.last_refill)
      × (b'.rate ≤ top)
unfolding step try_consume consume_turn try_consume_for_start try_consume_for_end set_rate set_burst
step_admits b (now, try_consumes) top h a = ground (arith, refill_admits b now top h)
step_admits b (now, turns) top h a = ground (arith, refill_admits b now top h)
step_admits b (now, starts timeout) top h a = ground (arith, refill_admits b now top h)
step_admits b (now, ends) top h a = ground (arith, refill_admits b now top h)
step_admits b (now, sets_rate (nonneg (suc r))) top h a = ground (arith, refill_admits b now top h)
step_admits b (now, sets_rate (nonneg ℕ.zero)) top h a = ground arith
step_admits b (now, sets_rate negative) top h a = ground arith
step_admits b (now, sets_burst (nonneg (suc n))) top h a = ground (arith, refill_admits b now top h)
step_admits b (now, sets_burst (nonneg ℕ.zero)) top h a = ground arith
step_admits b (now, sets_burst negative) top h a = ground arith

-- Whatever calls of `try_consume`, `consume`, `try_consume_for`, `set_rate` and `set_burst` are made, and however
-- their parts between two waits are interleaved, the tokens granted never exceed the tokens at hand plus what the
-- highest rate yields between the first and the last refill, if no call asks for a higher rate.
pub run_admits :
    (b : TokenBucket) (cs : List (ℕ × Call)) (top : ℕ)
    → b.rate ≤ top
    → All (AsksAtMost top) cs
    → let (b', n) = run b cs in
      one * n + b'.tokens + top * b.last_refill ≤ b.tokens + top * b'.last_refill
unfolding run
run_admits b [] top h a = omega arith
run_admits b (c ∷ cs) top h (a, as') =
    let here = step_admits b c top h a in
    let later = run_admits (step b c).0 cs top here.1 as' in omega arith

-- A valid bucket stays valid through every history of calls.
pub run-IsValid : (b : TokenBucket) (cs : List (ℕ × Call)) → IsValid b → IsValid (run b cs).0
unfolding run
run-IsValid b [] v = v
run-IsValid b (c ∷ cs) v = run-IsValid (step b c).0 cs (step-IsValid b c v)

-- `try_consume` grants a token exactly when `tokens_available` shows one at that time, and takes just
-- that token, provided that the clock does not stand before the last refill.
pub try_consume_iff :
    (b : TokenBucket) (now : ℕ)
    → IsValid b
    → b.last_refill ≤ now
    → (((try_consume b now).1 ≡ true) ↔ (one ≤ tokens_available b now))
      × ((try_consume b now).0.tokens + one * outcome (try_consume b now).1
          ≡ tokens_available b now)
unfolding try_consume refill tokens_available
try_consume_iff b now v h = ground arith
