-- ===== src/Core/TokenBucket/Waiting.antt =====
-- core/token_bucket.cpp, `consume` and `try_consume_for`: when the waits end.
use cppload_workflow.Prelude.{
  ℕ, zero, suc, ◌+◌, ◌-◌, ◌*◌, ◌/◌, ◌≤◌, ◌<◌, ◌≡◌, refl, ◌↔◌, true, false, none, some, arith,
  Option, Bool-cases, ltb, min, nonneg, inl, inr, ap, ◌∙◌,
}
use native.Mathlib.Nat.{mul-le-mul, le_refl, div-add-mod', mod-lt}
use cppload_workflow.Core.TokenBucket.{
  TokenBucket, one, second_ns, create, refill, set_burst, wait_ns, consume_turn, consume,
  try_consume_for, try_consume_for_start, try_consume_for_end,
}
use cppload_workflow.Core.TokenBucket.Admission.{IsValid}

refill-IsValid : (b : TokenBucket) (now : ℕ) → IsValid b → IsValid (refill b now)
unfolding refill
refill-IsValid b now v = ground arith

refill_burst : (b : TokenBucket) (now : ℕ) → (refill b now).burst ≡ b.burst
unfolding refill
refill_burst b now = ground arith

turn_idle :
    (b : TokenBucket) (now : ℕ)
    → ltb (refill b now).tokens one ≡ true
    → consume_turn b now ≡ (refill b now, false)
unfolding consume_turn
turn_idle b now h = rw (h, consume_turn) refl

turn_done :
    (b : TokenBucket) (now : ℕ)
    → ltb (refill b now).tokens one ≡ false
    → consume_turn b now ≡ (record (refill b now) { tokens = (refill b now).tokens - one }, true)
unfolding consume_turn
turn_done b now h = rw (h, consume_turn) refl

consume_below :
    (rounds : ℕ) (late : ℕ → ℕ) (b : TokenBucket) (now : ℕ)
    → IsValid b
    → b.burst < one
    → consume rounds late b now ≡ none
unfolding consume
consume_below zero late b now v h = refl
consume_below (suc rounds) late b now v h =
    let v' = refill-IsValid b now v in
    let short : ltb (refill b now).tokens one ≡ true =
      ground (arith, refill_burst b now, v'.tokens_le) in
    rw (turn_idle b now short, consume)
      (consume_below rounds late (refill b now) (now + wait_ns (refill b now) + late rounds) v'
        (omega (arith, refill_burst b now)))

set_burst-burst :
    (b : TokenBucket) (m now : ℕ)
    → IsValid b
    → (b' : TokenBucket) × (set_burst b (nonneg (suc m)) now ≡ some b')
      × IsValid b'
      × (b'.burst ≡ suc m)
unfolding set_burst refill
set_burst-burst b m now v = (
  record (refill b now) { burst = suc m; tokens = min (suc m) (refill b now).tokens },
  refl,
  ground arith,
  refl,
)

-- A burst below one token is accepted by the constructor, and by `set_burst` on every valid bucket, and on the
-- bucket that either leaves `consume` returns after no number of rounds, however long its waits are.
pub consume_stuck :
    (rate burst rounds : ℕ) (late : ℕ → ℕ) (b : TokenBucket) (now later : ℕ)
    → IsValid b
    → suc burst < one
    → ((c : TokenBucket) × (create (nonneg (suc rate)) (nonneg (suc burst)) now ≡ some c)
        × (consume rounds late c later ≡ none))
      × ((c : TokenBucket) × (set_burst b (nonneg (suc burst)) now ≡ some c)
          × (consume rounds late c later ≡ none))
unfolding create
consume_stuck rate burst rounds late b now later v h =
    let c : TokenBucket = record {
      rate = suc rate;
      burst = suc burst;
      tokens = suc burst;
      last_refill = now;
    } in
    let (d, same, w, below) = set_burst-burst b burst now v in
    (
      (c, refl, consume_below rounds late c later (omega arith) h),
      (d, same, consume_below rounds late d later w (omega (arith, below, h))),
    )

div_mul : (n k : ℕ) → 0 < k → (n / k * k ≤ n) × (n < n / k * k + k)
div_mul n k h = omega (arith, div-add-mod' n k, mod-lt n h)

-- A refill after `d` nanoseconds yields `d` times the rate, as far as the burst allows.
refill_after :
    (b : TokenBucket) (now d goal : ℕ)
    → now ≡ b.last_refill + d
    → IsValid b
    → goal ≤ b.burst
    → goal ≤ b.tokens + d * b.rate
    → goal ≤ (refill b now).tokens
unfolding refill
refill_after b now d goal e v h g = elim (Bool-cases (ltb b.last_refill now)) [
  | inl p ↦ let gap : now - b.last_refill ≡ d = omega arith in rw (p, gap) (omega arith)
  | inr p ↦
      let none_left : d ≡ 0 = ground arith in
      rw p (omega (arith, ap (λ (t : ℕ). t * b.rate) none_left))
]

-- Where the clock stands at the last refill, a wait for the deficit that takes longer than asked
-- makes up for it.
refill_deficit :
    (b : TokenBucket) (now extra : ℕ)
    → b.last_refill ≡ now
    → IsValid b
    → one ≤ b.burst
    → 0 < extra
    → one ≤ (refill b (now + (one - b.tokens) / b.rate + extra)).tokens
refill_deficit b now extra e v h x =
    let q : ℕ = (one - b.tokens) / b.rate in
    refill_after b (now + q + extra) (q + extra) one (omega arith) v h
      (omega (arith, div_mul (one - b.tokens) b.rate v.rate_pos, mul-le-mul (le_refl b.rate) x))

refill_clock : (b : TokenBucket) (now : ℕ) → b.last_refill ≤ now → (refill b now).last_refill ≡ now
unfolding refill
refill_clock b now h = ground arith

refill_rate : (b : TokenBucket) (now : ℕ) → (refill b now).rate ≡ b.rate
unfolding refill
refill_rate b now = ground arith

-- A wait that lasts longer than asked yields what is missing, or what the rate gives in a second.
refill_wait :
    (b : TokenBucket) (now extra : ℕ)
    → b.last_refill ≡ now
    → IsValid b
    → one ≤ b.burst
    → 0 < extra
    → min one (b.tokens + second_ns * b.rate) ≤ (refill b (now + wait_ns b + extra)).tokens
unfolding wait_ns
refill_wait b now extra e v h x =
    let q : ℕ = (one - b.tokens) / b.rate in
    elim (Bool-cases (ltb q second_ns)) [
      | inl p ↦
          let whole : min second_ns q ≡ q = ground arith in
          rw whole (omega (arith, refill_deficit b now extra e v h x))
      | inr p ↦
          let cut : min second_ns q ≡ second_ns = ground arith in
          rw cut (
            refill_after b (now + second_ns + extra) (second_ns + extra)
              (min one (b.tokens + second_ns * b.rate)) (omega arith) v (omega (arith, h))
              (omega arith))
    ]

-- `try_consume_for` grants a token exactly when the timeout suffices for what is missing at the rate, if
-- the wait takes longer than asked, the burst is a token at least, and the clock does not stand before
-- the last refill.
pub try_consume_for_iff :
    (b : TokenBucket) (now timeout late : ℕ)
    → 0 < late
    → b.last_refill ≤ now
    → IsValid b
    → one ≤ b.burst
    → ((try_consume_for b now timeout late).1 ≡ true)
      ↔ (one ≤ (refill b now).tokens + timeout * b.rate)
unfolding try_consume_for try_consume_for_start try_consume_for_end
try_consume_for_iff b now timeout late l c v h =
    let b' = refill b now in
    let enough =
      refill_deficit b' now late (refill_clock b now c) (refill-IsValid b now v)
        (omega (arith, refill_burst b now)) l in
    ground (arith, enough, refill_rate b now)

spread : (n k : ℕ) → suc n * k ≡ k + n * k
spread n k = omega arith

module _ (late : ℕ → ℕ) (r m : ℕ) (l : (k : ℕ) → 0 < late k) where
  -- The outcome of `consume` on a bucket with rate `r` and burst `m`.
  Returned : Option TokenBucket → Type 0
  Returned o = (b' : TokenBucket) × (o ≡ some b') × IsValid b' × (b'.rate ≡ r) × (b'.burst ≡ m)

  returns_done :
      (rounds : ℕ) (b : TokenBucket) (now : ℕ)
      → ltb (refill b now).tokens one ≡ false
      → IsValid b
      → b.rate ≡ r
      → b.burst ≡ m
      → Returned (consume (suc rounds) late b now)
  unfolding consume Returned
  returns_done rounds b now p v er em =
      let b' = refill b now in
      let v' = refill-IsValid b now v in
      (
        record b' { tokens = b'.tokens - one },
        rw (turn_done b now p, consume) refl,
        record {
          rate_pos = v'.rate_pos;
          burst_pos = v'.burst_pos;
          tokens_le = omega (arith, v'.tokens_le);
        },
        refill_rate b now ∙ er,
        refill_burst b now ∙ em,
      )

  returns_within :
      (n : ℕ) (b : TokenBucket) (now : ℕ)
      → b.last_refill ≤ now
      → IsValid b
      → one ≤ b.burst
      → b.rate ≡ r
      → b.burst ≡ m
      → one ≤ (refill b now).tokens + n * (second_ns * r)
      → Returned (consume (suc n) late b now)
  unfolding consume Returned
  returns_within zero b now c v h er em d = returns_done zero b now (ground arith) v er em
  returns_within (suc n) b now c v h er em d = elim (Bool-cases (ltb (refill b now).tokens one)) [
    | inr p ↦ returns_done (suc n) b now p v er em
    | inl p ↦
        let b' = refill b now in
        let er' : b'.rate ≡ r = refill_rate b now ∙ er in
        let h' : one ≤ b'.burst = omega (arith, refill_burst b now, h) in
        let now' = now + wait_ns b' + late (suc n) in
        let v' = refill-IsValid b now v in
        let clock = refill_clock b now c in
        let gained = refill_wait b' now (late (suc n)) clock v' h' (l (suc n)) in
        rw (turn_idle b now p, consume)
          (returns_within n b' now' (omega (arith, clock)) v' h' er' (refill_burst b now ∙ em) (
            omega
              (arith, gained, d, er', spread n (second_ns * r), ap (λ (t : ℕ). second_ns * t) er')))
  ]

-- With a burst of a token at least, `consume` returns: if `n` seconds at the rate yield a token, it waits `n`
-- times at most, provided that every wait lasts longer than asked and that the clock does not stand before the
-- last refill. It leaves a valid bucket with the same rate and burst.
pub consume_returns :
    (n : ℕ) (late : ℕ → ℕ) (b : TokenBucket) (now : ℕ)
    → ((k : ℕ) → 0 < late k)
    → b.last_refill ≤ now
    → IsValid b
    → one ≤ b.burst
    → one ≤ n * (second_ns * b.rate)
    → (b' : TokenBucket) × (consume (suc n) late b now ≡ some b')
      × IsValid b'
      × (b'.rate ≡ b.rate)
      × (b'.burst ≡ b.burst)
unfolding Returned
consume_returns n late b now l c v h d =
    returns_within late b.rate b.burst l n b now c v h refl refl (omega (arith, d))
