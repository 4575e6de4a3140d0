-- ===== src/Platform/Repository/Ids.antt =====
-- core/platform/in_memory_repo.cpp, `generate_id`: when two identifiers are the same.
use cppload_workflow.Prelude.{
  ℕ, suc, ◌+◌, ◌/◌, ◌%◌, ◌^◌, ◌<◌, ◌*◌, ◌≡◌, ap, sym, ◌∙◌, [], ◌∷◌, ◌++◌, arith, Bytes,
}
use native.Mathlib.Nat.{div-add-mod, div-div-eq-div-mul, pow-suc}
use mathlib.Core.List.{append-nil}
use cppload_workflow.Platform.Repository.{Env, hex_digit, hex_field, generate_id}

hex_digit_injective : (m n : ℕ) → m < 16 → n < 16 → hex_digit m ≡ hex_digit n → m ≡ n
unfolding hex_digit
hex_digit_injective m n h k e = ground arith

cons_injective : (a b : ℕ) (s t : Bytes) → a ∷ s ≡ b ∷ t → (a ≡ b) × (s ≡ t)
cons_injective a b s t e = (cc, cc)

mod_split : (n p : ℕ) → n % (p * 16) ≡ p * (n / p % 16) + n % p
mod_split n p = omega (
  arith,
  div-add-mod n p,
  div-add-mod n (p * 16),
  ap (λ (t : ℕ). p * t) (div-add-mod (n / p) 16),
  ap (λ (t : ℕ). p * 16 * t) (div-div-eq-div-mul n p 16),
)

hex_field_injective :
    (width m n : ℕ) (s t : Bytes)
    → hex_field width m ++ s ≡ hex_field width n ++ t
    → (m % 16 ^ width ≡ n % 16 ^ width) × (s ≡ t)
unfolding hex_field
hex_field_injective ℕ.zero m n s t e = (omega arith, e)
hex_field_injective (suc width) m n s t e =
    let (d, rest) = cons_injective _ _ _ _ e in
    let (low, same) = hex_field_injective width m n s t rest in
    let top =
      hex_digit_injective (m / 16 ^ width % 16) (n / 16 ^ width % 16) (omega arith) (omega arith)
        d in
    (
      rw pow-suc (
          omega (
            arith,
            mod_split m (16 ^ width),
            mod_split n (16 ^ width),
            low,
            ap (λ (t : ℕ). 16 ^ width * t) top,
          )),
      same,
    )

-- Two identifiers are the same only if the clock, the counter and the random number agree in the digits
-- that are written: 32 bits of the clock, 16 of the counter, 16 of the random number.
pub generate_id_injective :
    (d e : Env) (m n : ℕ)
    → generate_id d m ≡ generate_id e n
    → (d.steady_ns % 2 ^ 32 ≡ e.steady_ns % 2 ^ 32)
      × (m % 2 ^ 16 ≡ n % 2 ^ 16)
      × (d.random % 2 ^ 16 ≡ e.random % 2 ^ 16)
unfolding generate_id
generate_id_injective d e m n h =
    let (clock, rest) = hex_field_injective 8 _ _ _ _ h in
    let (count, rest') = hex_field_injective 4 _ _ _ _ rest in
    let (chance, _) =
      hex_field_injective 4 (d.random % 2 ^ 16) (e.random % 2 ^ 16) [] []
        (append-nil _ ∙ rest' ∙ sym (append-nil _)) in
    (omega (arith, clock), omega (arith, count), omega (arith, chance))
