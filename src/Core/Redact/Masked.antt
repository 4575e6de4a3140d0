-- ===== src/Core/Redact/Masked.antt =====
-- include/cppload/core/redact.hpp: what is masked.
use mathlib.Core.Option
use cppload_workflow.Prelude.{
  ℕ, suc, ◌+◌, ◌≤◌, ◌≡◌, refl, sym, ap, ◌∙◌, Bool, true, false, none, [], ◌∷◌, ◌++◌, arith, ltb,
  leb, ◌==◌, length, length-append, drop, take-append, drop-append, Bytes, bytes, All,
}
use cppload_workflow.Core.Redact.{
  mask, secret_keys, is_one_of, is_key_byte, is_skipped, is_separator, iequals, run_length,
  quote_of, in_value, mask_value, mask_from, redact_round, redact_secrets,
}
use cppload_workflow.Core.Redact.Rounds.{redact_secrets_round}

run_length-append :
    (p : ℕ → Bool) (xs : Bytes) (c : ℕ) (s : Bytes)
    → All (λ x. p x ≡ true) xs
    → p c ≡ false
    → run_length p (xs ++ (c ∷ s)) ≡ length xs
unfolding run_length
run_length-append p [] c s a h = rw h refl
run_length-append p (x ∷ xs) c s (e, a) h = rw e (ap (λ n. suc n) (run_length-append p xs c s a h))

-- A byte that is not skipped and can stand in a value opens no quote.
unquoted : (x : ℕ) (s : Bytes) → is_skipped x ≡ false → quote_of (x ∷ s) ≡ none
unfolding quote_of is_skipped is_separator
unquoted x s h = ground arith

skipped_ends_key : (d : ℕ) → is_skipped d ≡ true → is_key_byte d ≡ false
unfolding is_key_byte is_skipped is_separator
skipped_ends_key d h = ground arith

append_assoc : (xs ys zs : Bytes) → xs ++ ys ++ zs ≡ xs ++ (ys ++ zs)
append_assoc [] ys zs = refl
append_assoc (x ∷ xs) ys zs = ap (◌∷◌ x) (append_assoc xs ys zs)

drop_within : (a y : Bytes) (n : ℕ) → drop (length a + n) (a ++ y) ≡ drop n y
drop_within [] y n = ap (λ k. drop k y) (omega arith)
drop_within (x ∷ a) y n =
    let e : length (x ∷ a) + n ≡ suc (length a + n) = omega arith in
    ap (λ k. drop k (x ∷ a ++ y)) e ∙ drop_within a y n

mask_value-append :
    (a v : Bytes) (c : ℕ) (s : Bytes)
    → 1 ≤ length v
    → mask_value (a ++ (v ++ (c ∷ s))) (length a) (length a + length v) ≡ (a ++ mask ++ (c ∷ []), s)
unfolding mask_value
mask_value-append a v c s h =
    let some_value : ltb (length a) (length a + length v) ≡ true = ground arith in
    let past : suc (length a + length v) ≡ length a + (length v + 1) = omega arith in
    rw
      (
        some_value,
        past,
        take-append a (v ++ (c ∷ s)),
        drop_within a (v ++ (c ∷ s)) (length v),
        drop_within a (v ++ (c ∷ s)) (length v + 1),
        drop-append v (c ∷ s),
        drop_within v (c ∷ s) 1,
      )
      refl

mask_from-append :
    (a : Bytes) (x : ℕ) (v : Bytes) (c : ℕ) (s : Bytes)
    → is_skipped x ≡ false
    → All (λ b. in_value none b ≡ true) (x ∷ v)
    → in_value none c ≡ false
    → mask_from (a ++ ((x ∷ v) ++ (c ∷ s))) (length a) ≡ (a ++ mask ++ (c ∷ []), s)
unfolding mask_from
mask_from-append a x v c s h k l =
    let start : length a + 0 ≡ length a = omega arith in
    rw
      (
        drop-append a ((x ∷ v) ++ (c ∷ s)),
        unquoted x (v ++ (c ∷ s)) h,
        start,
        drop-append a ((x ∷ v) ++ (c ∷ s)),
        run_length-append (in_value none) (x ∷ v) c s k l,
      )
      (mask_value-append a (x ∷ v) c s (omega arith))

not_empty : (key : Bytes) → is_one_of secret_keys key ≡ true → (length key == 0) ≡ false
unfolding is_one_of iequals bytes
not_empty [] h = cc
not_empty (x ∷ key) h = ground arith

one_round :
    (out : Bytes)
    → 1 ≤ length out
    → redact_secrets out
      ≡ Option.map (λ r. (redact_round out).0 ++ r) (redact_secrets (redact_round out).1)
one_round [] h = elim h [ ]
one_round (c ∷ s) h = redact_secrets_round c s

module _ (key : Bytes) (d : ℕ) (between : Bytes) (x : ℕ) (value : Bytes) (c : ℕ) (s : Bytes)
    (key_bytes : All (λ b. is_key_byte b ≡ true) key) (secret : is_one_of secret_keys key ≡ true)
    (skipped : All (λ b. is_skipped b ≡ true) (d ∷ between)) (starts : is_skipped x ≡ false)
    (inside : All (λ b. in_value none b ≡ true) (x ∷ value)) (ends : in_value none c ≡ false) where
  key_end : run_length is_key_byte (key ++ ((d ∷ between) ++ ((x ∷ value) ++ (c ∷ s)))) ≡ length key
  key_end =
      run_length-append is_key_byte key d (between ++ ((x ∷ value) ++ (c ∷ s))) key_bytes
        (skipped_ends_key d skipped.0)

  skipped_end :
      run_length is_skipped ((d ∷ between) ++ ((x ∷ value) ++ (c ∷ s))) ≡ length (d ∷ between)
  skipped_end = run_length-append is_skipped (d ∷ between) x (value ++ (c ∷ s)) skipped starts

  redact_round_masks :
      redact_round (key ++ ((d ∷ between) ++ ((x ∷ value) ++ (c ∷ s))))
      ≡ (key ++ (d ∷ between) ++ mask ++ (c ∷ []), s)
  unfolding redact_round
  redact_round_masks =
      let tail = (x ∷ value) ++ (c ∷ s) in
      let behind = (d ∷ between) ++ tail in
      let within : leb (length (key ++ behind)) (length key + length (d ∷ between)) ≡ false =
        ground (arith, length-append key behind, length-append between tail) in
      rw
        (
          key_end,
          drop-append key behind,
          skipped_end,
          not_empty key secret,
          take-append key behind,
          secret,
          within,
          sym (append_assoc key (d ∷ between) tail),
          sym (length-append key (d ∷ between)),
        )
        (mask_from-append (key ++ (d ∷ between)) x value c s starts inside ends)

  -- A text that begins with a secret key in any case of its letters, then bytes that are skipped, then a value, up
  -- to a byte that ends an unquoted value: the value is masked, whatever it is, and what follows that byte is
  -- redacted as a text of its own.
  pub redact_secrets_masks :
      redact_secrets (key ++ ((d ∷ between) ++ ((x ∷ value) ++ (c ∷ s))))
      ≡ Option.map (λ r. key ++ (d ∷ between) ++ mask ++ (c ∷ []) ++ r) (redact_secrets s)
  redact_secrets_masks =
      let out = key ++ ((d ∷ between) ++ ((x ∷ value) ++ (c ∷ s))) in
      let some_text : 1 ≤ length out =
        omega (arith, length-append key ((d ∷ between) ++ ((x ∷ value) ++ (c ∷ s)))) in
      one_round out some_text
      ∙ ap (λ (r : Bytes × Bytes). Option.map (λ t. r.0 ++ t) (redact_secrets r.1))
          redact_round_masks
