-- ===== src/Scenario/Engine/Targets.antt =====
-- core/scenario/engine.cpp: the ports that are used, and the rate limiter that a stage sets.
use cppload_workflow.Prelude.{
  ℕ, zero, suc, ◌*◌, ◌≤◌, ◌<◌, ◌≡◌, refl, ap, ◌∙◌, Bool, true, false, ◌||◌, Option, none, some, [],
  ◌∷◌, ltb, ◌==◌, if◌then◌else◌, Bytes, is_empty, is_digit, max, min, nonneg, arith, to_string,
  to_string-IsDigits, to_string-nonempty, read_digits-to_string, IsDigits,
}
use cppload_workflow.Core.TokenBucket.{TokenBucket, one, second_ns, refill, set_rate, set_burst}
use cppload_workflow.Core.Url.{parse_url}
use cppload_workflow.Scenario.Assertions.{is_space}
use cppload_workflow.Scenario.Assertions.Reading.{span-append, span_whole, digit-space}
use cppload_workflow.Scenario.Engine.{
  stoul_digits, stoul_sign, stoul, plain_port, port_of, resolve_url, Settings, effective_rps,
  set_target_rps,
}

-- The port that `resolve_url` settles on for the text of a port.
abbrev chosen : Bytes → Bool → ℕ × Option Bytes
chosen s t = if is_empty s then (plain_port t, none) else port_of s t

port_of-range : (s : Bytes) (t : Bool) → (1 ≤ (port_of s t).0) × ((port_of s t).0 ≤ 65535)
unfolding port_of
port_of-range s t = ground arith

chosen-range : (s : Bytes) (t : Bool) → (1 ≤ (chosen s t).0) × ((chosen s t).0 ≤ 65535)
chosen-range [] true = (omega arith, omega arith)
chosen-range [] false = (omega arith, omega arith)
chosen-range (c ∷ s) t = port_of-range (c ∷ s) t

stoul_digits-to_string : (n : ℕ) → n ≤ 65535 → stoul_digits false (to_string n) ≡ some n
unfolding stoul_digits
stoul_digits-to_string n h =
    let fits : ltb 18446744073709551615 n ≡ false = ground arith in
    rw
      (
        span_whole is_digit (to_string n) (to_string-IsDigits n),
        to_string-nonempty n,
        read_digits-to_string n,
        fits,
      )
      refl

stoul-IsDigits : (s : Bytes) → is_empty s ≡ false → IsDigits s → stoul s ≡ stoul_digits false s
unfolding stoul stoul_sign
stoul-IsDigits [] e h = ground arith
stoul-IsDigits (c ∷ s) e (h, hs) =
    let minus : (c == b'-') ≡ false = ground arith in
    let plus : (c == b'+') ≡ false = ground arith in
    rw (span-append is_space [] (c ∷ s) tt (digit-space (c ∷ s) (h, hs)).0, minus, plus) refl

chosen-to_string : (p : ℕ) (t : Bool) → 1 ≤ p → p ≤ 65535 → chosen (to_string p) t ≡ (p, none)
unfolding port_of
chosen-to_string p t low high =
    let zero_no : (p == 0) ≡ false = ground arith in
    let high_no : ltb 65535 p ≡ false = ground arith in
    let value =
      stoul-IsDigits (to_string p) (to_string-nonempty p) (to_string-IsDigits p)
      ∙ stoul_digits-to_string p high in
    rw (to_string-nonempty p, value, port_of, zero_no, high_no) refl

-- Whatever the URL, the port is one that exists; a port that is written in range is used as it is, without
-- an error.
pub resolve_url_port :
    (url : Bytes) (step_tls : Bool)
    → (1 ≤ (resolve_url url step_tls).port)
      × ((resolve_url url step_tls).port ≤ 65535)
      × ((p : ℕ)
          → 1 ≤ p
          → p ≤ 65535
          → (parse_url url).port ≡ to_string p
          → ((resolve_url url step_tls).port ≡ p) × ((resolve_url url step_tls).error ≡ none))
unfolding resolve_url
resolve_url_port url step_tls =
    let tls = (parse_url url).tls || step_tls in
    (
      (chosen-range (parse_url url).port tls).0,
      (chosen-range (parse_url url).port tls).1,
      λ p low high e.
          let it = ap (λ (s : Bytes). chosen s tls) e ∙ chosen-to_string p tls low high in
          (ap (λ (c : ℕ × Option Bytes). c.0) it, ap (λ (c : ℕ × Option Bytes). c.1) it),
    )

set_rate_lem :
    (b : TokenBucket) (n now : ℕ)
    → 0 < n
    → set_rate b (nonneg n) now ≡ some (record (refill b now) { rate = n })
unfolding set_rate
set_rate_lem b zero now h = elim h [ ]
set_rate_lem b (suc n) now h = refl

set_burst_lem :
    (b : TokenBucket) (n now : ℕ)
    → 0 < n
    → set_burst b (nonneg n) now
      ≡ some (record (refill b now) { burst = n; tokens = min n (refill b now).tokens })
unfolding set_burst
set_burst_lem b zero now h = elim h [ ]
set_burst_lem b (suc n) now h = refl

-- Refilling keeps the rate.
refill-rate : (b : TokenBucket) (now : ℕ) → (refill b now).rate ≡ b.rate
unfolding refill
refill-rate b now = ground arith

-- Setting a rate leaves a bucket that holds at least a hundred tokens and a second of them, with no more
-- tokens than that.
pub set_target_rps_bucket :
    (e : Settings) (rps now : ℕ)
    → let e' = set_target_rps e rps now in
      (e'.target_rps ≡ effective_rps rps)
      × (e'.bucket.rate ≡ effective_rps rps * second_ns)
      × (100 * one ≤ e'.bucket.burst)
      × (e'.target_rps * one ≤ e'.bucket.burst)
      × (e'.bucket.tokens ≤ e'.bucket.burst)
unfolding set_target_rps
set_target_rps_bucket e rps now =
    let n = effective_rps rps in
    let m = max (100 * one) (n * one) in
    let b = record (refill e.bucket now) { rate = n * second_ns } in
    let kept = refill-rate b now in
    rw
      (
        set_rate_lem e.bucket (n * second_ns) now (ground arith),
        set_burst_lem b m now (ground arith),
      )
      (refl, kept, omega arith, omega arith, omega arith)
