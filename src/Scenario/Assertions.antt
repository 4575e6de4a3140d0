-- ===== src/Scenario/Assertions.antt =====
-- core/scenario/engine.cpp: durations and the assertions of a step. A response is its status and its
-- latency in microseconds.
pub mod Reading
pub mod Tests
use cppload_workflow.Prelude.{
  ℕ, zero, suc, ◌+◌, ◌-◌, ◌*◌, ◌/◌, ◌^◌, Bool, true, false, not, ◌&&◌, ◌||◌, Option, none, some,
  List, [], ◌∷◌, ◌++◌, ltb, leb, ◌==◌, if◌then◌else◌, Bytes, bytes, eqb, is_empty, is_digit,
  read_digits, Signed, nonneg, negative,
}
use cppload_workflow.Scenario.Config.{HttpStep}

pub record Response : Type 0 where
  pub status_code : ℕ
  pub latency : ℕ

-- The largest `long` and `long long`.
abbrev pub max_long : ℕ
max_long = 9223372036854775807

-- The longest prefix whose bytes pass the test, and the rest.
unfoldable pub span : (ℕ → Bool) → Bytes → Bytes × Bytes
span p [] = ([], [])
span p (c ∷ s) = let (a, b) = span p s in if p c then (c ∷ a, b) else ([], c ∷ s)

-- The unit of a duration in microseconds.
unfoldable pub unit_us : Bytes → Option ℕ
unfolding bytes eqb
unit_us unit =
    if eqb unit (bytes "us")
    then some 1
    else if eqb unit (bytes "ms")
    then some 1_000
    else if eqb unit (bytes "s")
    then some 1_000_000
    else if eqb unit (bytes "m")
    then some 60_000_000
    else if eqb unit (bytes "h")
    then some 3_600_000_000
    else none

-- A product that an `int64` holds; `none` is -1.
unfoldable pub scale_us : ℕ → Option ℕ → Option ℕ
scale_us value none = none
scale_us value (some mul) =
    if ltb max_long value
    then none
    else if ltb (max_long / mul) value
    then none
    else some (value * mul)

unfoldable pub parse_duration_us : Bytes → Option ℕ
parse_duration_us str =
    let (digits, unit) = span is_digit str in
    if is_empty digits then none else scale_us (read_digits 0 digits) (unit_us unit)

module _ {ℓ} {T : Type ℓ} (eq lt : T → T → Bool) where
  unfoldable pub compare_op : T → Bytes → T → Bool
  unfolding bytes eqb
  compare_op actual op expected =
      if eqb op (bytes "==")
      then eq actual expected
      else if eqb op (bytes "!=")
      then not (eq actual expected)
      else if eqb op (bytes ">")
      then lt expected actual
      else if eqb op (bytes ">=")
      then not (lt actual expected)
      else if eqb op (bytes "<")
      then lt actual expected
      else if eqb op (bytes "<=")
      then not (lt expected actual)
      else false

-- `std::isspace`
unfoldable pub is_space : ℕ → Bool
is_space c = c == 32 || (leb 9 c && leb c 13)

-- `ss >> word`: the next word, and what is left.
unfoldable pub next_word : Bytes → Bytes × Bytes
next_word s = span (λ c. not (is_space c)) (span is_space s).1

-- The digits behind a sign, as `std::stol` reads them; `none` is its exception. What stands behind the
-- digits is not looked at.
unfoldable pub stol_digits : Bool → Bytes → Option Signed
stol_digits is_negative s =
    let digits = (span is_digit s).0 in
    let n = read_digits 0 digits in
    if is_empty digits
    then none
    else if is_negative
    then if ltb (max_long + 1) n then none else if n == 0 then some (nonneg 0) else some negative
    else if ltb max_long n
    then none
    else some (nonneg n)

unfoldable pub stol : Bytes → Option Signed
stol [] = none
stol (c ∷ s) =
    if c == b'-'
    then stol_digits true s
    else if c == b'+'
    then stol_digits false s
    else stol_digits false (c ∷ s)

abbrev pub signed_eq : Signed → Signed → Bool
signed_eq (nonneg m) (nonneg n) = m == n
signed_eq negative negative = true
signed_eq (nonneg m) negative = false
signed_eq negative (nonneg n) = false

abbrev pub signed_lt : Signed → Signed → Bool
signed_lt (nonneg m) (nonneg n) = ltb m n
signed_lt negative (nonneg n) = true
signed_lt (nonneg m) negative = false
signed_lt negative negative = false

-- The test of the two sides, for words that are there.
unfoldable pub test_words : Bytes → Bytes → Bytes → Response → Bool
test_words lhs op rhs response =
    if is_empty op || is_empty rhs
    then false
    else if eqb lhs (bytes "status_code")
    then elim (stol rhs) [
      | none ↦ false
      | some expected ↦ compare_op signed_eq signed_lt (nonneg response.status_code) op expected
    ]
    else if eqb lhs (bytes "latency")
    then elim (parse_duration_us rhs) [
      | none ↦ false
      | some expected_us ↦ compare_op ◌==◌ ltb response.latency op expected_us
    ]
    else false

unfoldable pub evaluate_assertion : Bytes → Response → Bool
evaluate_assertion expr response =
    let (lhs, s) = next_word expr in
    let (op, s') = next_word s in let (rhs, s'') = next_word s' in test_words lhs op rhs response

unfoldable pub evaluate_all : List Bytes → Response → Bool
evaluate_all [] response = true
evaluate_all (expr ∷ exprs) response =
    let rest = evaluate_all exprs response in
    if evaluate_assertion expr response then rest else false

unfoldable pub evaluate_assertions : HttpStep → Response → Bool
evaluate_assertions step response = evaluate_all step.assertions response
