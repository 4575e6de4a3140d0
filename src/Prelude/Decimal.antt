-- ===== src/Prelude/Decimal.antt =====
-- `std::to_string` of an unsigned number, and the number that a run of digits stands for.
use Prim.Native.Nat.{ℕ, zero, suc, ◌+◌, ◌-◌, ◌*◌, ◌/◌, ◌%◌, ◌<◌}
use mathlib.Core.Path.{◌≡◌, refl, sym, ap, ◌∙◌}
use mathlib.Core.List.{[], ◌∷◌}
use native.Mathlib.Omega.{arith}
use mathlib.Core.Logic.{inl, inr}
use cppload_workflow.Prelude.Tests.{ltb, if◌then◌else◌, Bool-cases}
use cppload_workflow.Prelude.Lists.{All}
use cppload_workflow.Prelude.Text.{Bytes, is_digit, is_empty}
use mathlib.Core.Bool.{true, false}

-- The digits of `n` before those of `acc`; `n + 1` rounds are enough.
digits : ℕ → ℕ → Bytes → Bytes
digits zero n acc = acc
digits (suc fuel) n acc =
    let rest = digits fuel (n / 10) ((b'0' + n % 10) ∷ acc) in
    if ltb n 10 then (b'0' + n) ∷ acc else rest

unfoldable pub to_string : ℕ → Bytes
unfolding digits
to_string n = digits (suc n) n []

-- The number that is read when `acc` has been read before.
unfoldable pub read_digits : ℕ → Bytes → ℕ
read_digits acc [] = acc
read_digits acc (d ∷ ds) = read_digits (acc * 10 + (d - b'0')) ds

read_digits-digits :
    (fuel n : ℕ) (acc : Bytes) → n < fuel → read_digits 0 (digits fuel n acc) ≡ read_digits n acc
unfolding digits read_digits
read_digits-digits zero n acc h = elim h [ ]
read_digits-digits (suc fuel) n acc h = elim (Bool-cases (ltb n 10)) [
  | inl e ↦ rw e (ap (λ m. read_digits m acc) (omega arith))
  | inr e ↦ rw e (
      read_digits-digits fuel (n / 10) ((b'0' + n % 10) ∷ acc) (ground arith)
      ∙ ap (λ m. read_digits m acc) (omega arith))
]

pub read_digits-to_string : (n : ℕ) → read_digits 0 (to_string n) ≡ n
unfolding to_string read_digits
read_digits-to_string n = read_digits-digits (suc n) n [] (omega arith)

pub to_string_injective : (m n : ℕ) → to_string m ≡ to_string n → m ≡ n
to_string_injective m n e =
    sym (read_digits-to_string m) ∙ ap (read_digits 0) e ∙ read_digits-to_string n

abbrev pub IsDigits : Bytes → Type 0
IsDigits = All λ c. is_digit c ≡ true

digits-IsDigits :
    (fuel n : ℕ) (acc : Bytes) → n < fuel → IsDigits acc → IsDigits (digits fuel n acc)
unfolding digits
digits-IsDigits zero n acc h d = elim h [ ]
digits-IsDigits (suc fuel) n acc h d = elim (Bool-cases (ltb n 10)) [
  | inl e ↦ rw e (ground arith, d)
  | inr e ↦ rw e (digits-IsDigits fuel (n / 10) _ (ground arith) (ground arith, d))
]

pub to_string-IsDigits : (n : ℕ) → IsDigits (to_string n)
unfolding to_string
to_string-IsDigits n = digits-IsDigits (suc n) n [] (omega arith) tt

digits-nonempty : (fuel n : ℕ) (acc : Bytes) → n < fuel → is_empty (digits fuel n acc) ≡ false
unfolding digits
digits-nonempty zero n acc h = elim h [ ]
digits-nonempty (suc fuel) n acc h = elim (Bool-cases (ltb n 10)) [
  | inl e ↦ rw e refl
  | inr e ↦ rw e (digits-nonempty fuel (n / 10) _ (ground arith))
]

pub to_string-nonempty : (n : ℕ) → is_empty (to_string n) ≡ false
unfolding to_string
to_string-nonempty n = digits-nonempty (suc n) n [] (omega arith)
