-- ===== src/Scenario/Units/Suffixes.antt =====
-- core/scenario/yaml_parser.cpp: which unit `parse_latency` finds in a number with a suffix.
use cppload_workflow.Prelude.{
  ℕ, ◌+◌, ◌≡◌, refl, false, Option, none, some, [], ◌∷◌, ◌++◌, ◌==◌, Bytes, bytes, is_empty,
  is_digit, find, find_word, starts_with, length, Double, arith, IsDigits, to_string,
  to_string-IsDigits, to_string-nonempty, Option-cases, inl, inr,
}
use mathlib.Core.Option
use cppload_workflow.Scenario.Assertions.Reading.{Stops, span-append}
use cppload_workflow.Scenario.Units.{from_digit, scale_to_ms, parse_latency}

find-digits :
    (ds u : Bytes)
    → IsDigits ds
    → find b's' (ds ++ u) ≡ Option.map (λ i. length ds + i) (find b's' u)
unfolding find
find-digits [] u h = ground arith
find-digits (c ∷ ds) u (h, hs) =
    let other : (c == b's') ≡ false = ground arith in ground (arith, find-digits ds u hs)

find_word-digits :
    (ds u : Bytes)
    → IsDigits ds
    → find_word (b'm' ∷ b's' ∷ []) (ds ++ u)
      ≡ Option.map (λ i. length ds + i) (find_word (b'm' ∷ b's' ∷ []) u)
unfolding find_word starts_with
find_word-digits [] u h = ground arith
find_word-digits (c ∷ ds) u (h, hs) =
    let other : (b'm' == c) ≡ false = ground arith in ground (arith, find_word-digits ds u hs)

from_digit-digits :
    (ds u : Bytes) → is_empty ds ≡ false → IsDigits ds → from_digit (ds ++ u) ≡ some (ds ++ u)
unfolding from_digit
from_digit-digits [] u e h = ground arith
from_digit-digits (c ∷ ds) u e (h, hs) = rw h refl

module _ {F : Type 0} (D : Double F) (stod : Bytes → Option F) where
  -- The scale by what a suffix holds.
  abbrev scaled : Bytes → F → ℕ
  scaled u v = elim (find_word (b'm' ∷ b's' ∷ []) u) [
    | some _ ↦ scale_to_ms D v (D.ratio 1 1)
    | none ↦ elim (find b's' u) [
      | some _ ↦ scale_to_ms D v (D.ratio 1_000 1)
      | none ↦ scale_to_ms D v (D.ratio 1 1)
    ]
  ]

  parse_latency-scaled :
      (n : ℕ) (v : F) (u : Bytes)
      → stod (to_string n) ≡ some v
      → Stops is_digit u
      → parse_latency D stod (to_string n ++ u) ≡ scaled u v
  unfolding parse_latency bytes
  parse_latency-scaled n v u e t =
      let ds = to_string-IsDigits n in
      let here = from_digit-digits (to_string n) u (to_string-nonempty n) ds in
      let number = span-append is_digit (to_string n) u ds t in
      elim (Option-cases (find_word (b'm' ∷ b's' ∷ []) u)) [
        | inr (i, f) ↦
            rw (here, parse_latency, number, e, find_word-digits (to_string n) u ds, f, scaled) refl
        | inl f ↦ elim (Option-cases (find b's' u)) [
          | inr (i, g) ↦
              rw
                (
                  here,
                  parse_latency,
                  number,
                  e,
                  find_word-digits (to_string n) u ds,
                  f,
                  find-digits (to_string n) u ds,
                  g,
                  scaled,
                )
                refl
          | inl g ↦
              rw
                (
                  here,
                  parse_latency,
                  number,
                  e,
                  find_word-digits (to_string n) u ds,
                  f,
                  find-digits (to_string n) u ds,
                  g,
                  scaled,
                )
                refl
        ]
      ]

  -- Where `std::stod` reads the digits of a number, the number with its unit is scaled by that
  -- unit, `ms` or `s` or none; with `us` it is scaled as seconds, a million times too long.
  pub parse_latency_units :
      (n : ℕ) (v : F)
      → stod (to_string n) ≡ some v
      → (parse_latency D stod (to_string n ++ (b'm' ∷ b's' ∷ [])) ≡ scale_to_ms D v (D.ratio 1 1))
        × (parse_latency D stod (to_string n ++ (b's' ∷ [])) ≡ scale_to_ms D v (D.ratio 1_000 1))
        × (parse_latency D stod (to_string n ++ []) ≡ scale_to_ms D v (D.ratio 1 1))
        × (parse_latency D stod (to_string n ++ (b'u' ∷ b's' ∷ []))
            ≡ scale_to_ms D v (D.ratio 1_000 1))
  unfolding find find_word starts_with
  parse_latency_units n v e = (
    parse_latency-scaled n v (b'm' ∷ b's' ∷ []) e refl,
    parse_latency-scaled n v (b's' ∷ []) e refl,
    parse_latency-scaled n v [] e tt,
    parse_latency-scaled n v (b'u' ∷ b's' ∷ []) e refl,
  )
