-- ===== src/Core/Redact/Rounds.antt =====
-- include/cppload/core/redact.hpp: the loop ends.
use mathlib.Core.Option
use cppload_workflow.Prelude.{
  ℕ, zero, suc, ◌+◌, ◌<◌, ◌≡◌, refl, ap, Bool, true, false, not, some, [], ◌∷◌, ◌++◌, arith, ltb,
  leb, ◌==◌, if◌then◌else◌, length, take, drop, Bytes,
}
use cppload_workflow.Core.Redact.{
  secret_keys, is_one_of, is_key_byte, is_skipped, run_length, mask_value, mask_from, quote_of,
  quote_width, in_value, redact_round, redact_loop, redact_secrets,
}

drop-shorter : (n : ℕ) (c : ℕ) (s : Bytes) → length (drop (suc n) (c ∷ s)) < suc (length s)
drop-shorter zero c s = omega arith
drop-shorter (suc n) c [] = omega arith
drop-shorter (suc n) c (d ∷ s) = omega (arith, drop-shorter n d s)

if-shorter :
    {n : ℕ}
    → (b : Bool) (x y : Bytes × Bytes) → length x.1 < n
    → length y.1 < n
    → length (if b then x else y).1 < n
if-shorter true x y h k = h
if-shorter false x y h k = k

mask_value-shorter :
    (c : ℕ) (s : Bytes) (from to : ℕ) → length (mask_value (c ∷ s) from to).1 < suc (length s)
unfolding mask_value
mask_value-shorter c s from to =
    if-shorter (ltb from to) _ _ (drop-shorter to c s) (drop-shorter to c s)

mask_from-shorter : (c : ℕ) (s : Bytes) (p : ℕ) → length (mask_from (c ∷ s) p).1 < suc (length s)
unfolding mask_from
mask_from-shorter c s p =
    let quote = quote_of (drop p (c ∷ s)) in
    let from = p + quote_width quote in
    mask_value-shorter c s from (from + run_length (in_value quote) (drop from (c ∷ s)))

-- A round leaves less than it was given.
pub redact_round-shorter : (c : ℕ) (s : Bytes) → length (redact_round (c ∷ s)).1 < suc (length s)
unfolding redact_round
redact_round-shorter c s =
    let key_end = run_length is_key_byte (c ∷ s) in
    let p = key_end + run_length is_skipped (drop key_end (c ∷ s)) in
    if-shorter (key_end == 0) _ _ (drop-shorter 0 c s) (
      if-shorter (not (is_one_of secret_keys (take key_end (c ∷ s)))) _ _ (drop-shorter key_end c s)
        (if-shorter (leb (length (c ∷ s)) p) _ _ (omega arith) (mask_from-shorter c s p)))

redact_loop_fuel :
    (f g : ℕ) (out : Bytes)
    → length out < f
    → length out < g
    → redact_loop f out ≡ redact_loop g out
unfolding redact_loop
redact_loop_fuel zero g out h k = elim h [ ]
redact_loop_fuel (suc f) zero out h k = elim k [ ]
redact_loop_fuel (suc f) (suc g) [] h k = refl
redact_loop_fuel (suc f) (suc g) (c ∷ s) h k =
    let (passed, rest) = redact_round (c ∷ s) in
    ap (Option.map (λ r. passed ++ r)) (
      redact_loop_fuel f g rest (omega (arith, h, redact_round-shorter c s))
        (omega (arith, k, redact_round-shorter c s)))

redact_loop_returns :
    (f : ℕ) (out : Bytes) → length out < f → (r : Bytes) × (redact_loop f out ≡ some r)
unfolding redact_loop
redact_loop_returns zero out h = elim h [ ]
redact_loop_returns (suc f) [] h = ([], refl)
redact_loop_returns (suc f) (c ∷ s) h =
    let (passed, rest) = redact_round (c ∷ s) in
    let (r, e) = redact_loop_returns f rest (omega (arith, h, redact_round-shorter c s)) in
    (passed ++ r, ap (Option.map (λ t. passed ++ t)) e)

-- Whatever the text, the loop ends within one round more than it has bytes.
pub redact_secrets_returns : (input : Bytes) → (r : Bytes) × (redact_secrets input ≡ some r)
unfolding redact_secrets
redact_secrets_returns input = redact_loop_returns (suc (length input)) input (omega arith)

-- One round, and then the rest as a text of its own.
pub redact_secrets_round :
    (c : ℕ) (s : Bytes)
    → let (passed, rest) = redact_round (c ∷ s) in
      redact_secrets (c ∷ s) ≡ Option.map (λ r. passed ++ r) (redact_secrets rest)
unfolding redact_secrets redact_loop
redact_secrets_round c s =
    let (passed, rest) = redact_round (c ∷ s) in
    ap (Option.map (λ r. passed ++ r)) (
      redact_loop_fuel (suc (length s)) (suc (length rest)) rest (redact_round-shorter c s)
        (omega arith))
