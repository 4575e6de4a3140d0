-- ===== src/Scenario/Assertions/Reading.antt =====
-- core/scenario/engine.cpp: durations and assertions that are written the way they are documented.
use cppload_workflow.Prelude.{
  ℕ, ◌*◌, ◌≤◌, ◌≡◌, refl, sym, ap, ◌∙◌, Bool, true, false, not, none, some, [], ◌∷◌, ◌++◌, ltb, leb,
  ◌==◌, if◌then◌else◌, Bytes, bytes, eqb, is_empty, is_digit, read_digits, nonneg, All, arith,
  to_string, IsDigits, to_string-IsDigits, to_string-nonempty, read_digits-to_string,
}
use mathlib.Core.List.{append-nil}
use cppload_workflow.Scenario.Assertions.{
  Response, max_long, span, unit_us, scale_us, parse_duration_us, compare_op, is_space, next_word,
  stol_digits, stol, signed_eq, signed_lt, test_words, evaluate_assertion,
}

abbrev pub Stops : (ℕ → Bool) → Bytes → Type 0
Stops p [] = Unit
Stops p (c ∷ s) = p c ≡ false

pub span-append :
    (p : ℕ → Bool) (a b : Bytes) → All (λ c. p c ≡ true) a → Stops p b → span p (a ++ b) ≡ (a, b)
unfolding span
span-append p [] [] h s = refl
span-append p [] (c ∷ b) h s = rw s refl
span-append p (c ∷ a) b (h, hs) s = rw (h, span-append p a b hs s) refl

-- A word: it has no space, and is not empty.
abbrev pub IsWord : Bytes → Type 0
IsWord w = (is_empty w ≡ false) × All (λ c. is_space c ≡ false) w

NoSpace-not : (w : Bytes) → All (λ c. is_space c ≡ false) w → All (λ c. not (is_space c) ≡ true) w
NoSpace-not [] h = tt
NoSpace-not (c ∷ w) (h, hs) = (rw h refl, NoSpace-not w hs)

next_word-append :
    (w b : Bytes) → IsWord w → Stops (λ c. not (is_space c)) b → next_word (w ++ b) ≡ (w, b)
unfolding next_word
next_word-append [] b (e, h) s = absurd (ground arith)
next_word-append (c ∷ w) b (e, h) s =
    rw (span-append is_space [] (c ∷ (w ++ b)) tt h.0)
      (span-append (λ c. not (is_space c)) (c ∷ w) b (NoSpace-not (c ∷ w) h) s)

next_word-space :
    (w b : Bytes) → IsWord w → Stops (λ c. not (is_space c)) b → next_word (32 ∷ (w ++ b)) ≡ (w, b)
unfolding next_word is_space
next_word-space [] b (e, h) s = absurd (ground arith)
next_word-space (c ∷ w) b (e, h) s =
    rw (span-append is_space (32 ∷ []) (c ∷ (w ++ b)) (refl, tt) h.0)
      (span-append (λ c. not (is_space c)) (c ∷ w) b (NoSpace-not (c ∷ w) h) s)

next_word-space_end : (w : Bytes) → IsWord w → next_word (32 ∷ w) ≡ (w, [])
next_word-space_end w h =
    ap (λ s. next_word (32 ∷ s)) (sym (append-nil w)) ∙ next_word-space w [] h tt

evaluate_words :
    (l o r : Bytes) (q : Response)
    → IsWord l
    → IsWord o
    → IsWord r
    → evaluate_assertion (l ++ (32 ∷ (o ++ (32 ∷ r)))) q ≡ test_words l o r q
unfolding evaluate_assertion is_space
evaluate_words l o r q hl ho hr =
    rw
      (
        next_word-append l (32 ∷ (o ++ (32 ∷ r))) hl refl,
        next_word-space o (32 ∷ r) ho refl,
        next_word-space_end r hr,
      )
      refl

pub digit-space : (s : Bytes) → IsDigits s → All (λ c. is_space c ≡ false) s
unfolding is_space
digit-space [] h = tt
digit-space (c ∷ s) (h, hs) = (ground arith, digit-space s hs)

to_string-IsWord : (n : ℕ) → IsWord (to_string n)
to_string-IsWord n = (to_string-nonempty n, digit-space (to_string n) (to_string-IsDigits n))

pub span_whole : (p : ℕ → Bool) (s : Bytes) → All (λ c. p c ≡ true) s → span p s ≡ (s, [])
span_whole p s h = ap (span p) (sym (append-nil s)) ∙ span-append p s [] h tt

stol_digits-IsDigits :
    (s : Bytes)
    → is_empty s ≡ false
    → IsDigits s
    → read_digits 0 s ≤ max_long
    → stol_digits false s ≡ some (nonneg (read_digits 0 s))
unfolding stol_digits
stol_digits-IsDigits s e h m =
    let fits : ltb max_long (read_digits 0 s) ≡ false = ground arith in
    rw (span_whole is_digit s h, e, fits) refl

stol-IsDigits : (s : Bytes) → is_empty s ≡ false → IsDigits s → stol s ≡ stol_digits false s
unfolding stol
stol-IsDigits [] e h = ground arith
stol-IsDigits (c ∷ s) e (h, hs) =
    let minus : (c == b'-') ≡ false = ground arith in
    let plus : (c == b'+') ≡ false = ground arith in rw (minus, plus) refl

stol-to_string : (n : ℕ) → n ≤ max_long → stol (to_string n) ≡ some (nonneg n)
stol-to_string n m =
    stol-IsDigits (to_string n) (to_string-nonempty n) (to_string-IsDigits n)
    ∙ stol_digits-IsDigits (to_string n) (to_string-nonempty n) (to_string-IsDigits n)
        (rw (read_digits-to_string n) m)
    ∙ ap (λ k. some (nonneg k)) (read_digits-to_string n)

compare_op-nonneg :
    (a b : ℕ) (op : Bytes)
    → compare_op signed_eq signed_lt (nonneg a) op (nonneg b) ≡ compare_op ◌==◌ ltb a op b
unfolding compare_op
compare_op-nonneg a b op = refl

test_status :
    (op : Bytes) (n : ℕ) (q : Response)
    → IsWord op
    → n ≤ max_long
    → test_words (bytes "status_code") op (to_string n) q ≡ compare_op ◌==◌ ltb q.status_code op n
unfolding test_words eqb bytes
test_status op n q h m =
    rw (h.0, to_string-nonempty n, stol-to_string n m, test_words)
      (compare_op-nonneg q.status_code n op)

status_code-IsWord : IsWord (bytes "status_code")
unfolding is_space bytes
status_code-IsWord = ground arith

-- An assertion of the form `status_code OP N`, with a word for the operator and a number that a
-- `long` holds, compares the status with the number.
pub evaluate_status :
    (op : Bytes) (n : ℕ) (q : Response)
    → IsWord op
    → n ≤ max_long
    → evaluate_assertion (bytes "status_code" ++ (32 ∷ (op ++ (32 ∷ to_string n)))) q
      ≡ compare_op ◌==◌ ltb q.status_code op n
evaluate_status op n q h m =
    evaluate_words (bytes "status_code") op (to_string n) q status_code-IsWord h
      (to_string-IsWord n)
    ∙ test_status op n q h m

next_word-unspaced : (s : Bytes) → All (λ c. is_space c ≡ false) s → next_word s ≡ (s, [])
unfolding next_word span
next_word-unspaced [] h = refl
next_word-unspaced (c ∷ s) h =
    rw (span-append is_space [] (c ∷ s) tt h.0)
      (span_whole (λ d. not (is_space d)) (c ∷ s) (NoSpace-not (c ∷ s) h))

-- An assertion without a space, such as `status_code==200`, fails for every response.
pub unspaced_fails :
    (expr : Bytes) (q : Response)
    → All (λ c. is_space c ≡ false) expr
    → evaluate_assertion expr q ≡ false
unfolding evaluate_assertion test_words
unspaced_fails expr q h = rw (next_word-unspaced expr h, next_word-unspaced [] tt) refl

-- What is known of a unit that is accepted.
unit_us-digit : (unit : Bytes) (mul : ℕ) → unit_us unit ≡ some mul → Stops is_digit unit
unfolding unit_us eqb bytes
unit_us-digit [] mul h = tt
unit_us-digit (c ∷ s) mul h = ground arith

scale_us-unit :
    (n mul : ℕ) (unit : Bytes)
    → unit_us unit ≡ some mul
    → scale_us n (some mul) ≡ (if leb (n * mul) max_long then some (n * mul) else none)
unfolding unit_us scale_us
scale_us-unit n mul unit h = ground arith

-- A number with a unit is read as that many microseconds, where an `int64` holds them, and is refused
-- where it does not.
pub parse_duration_us-to_string :
    (n mul : ℕ) (unit : Bytes)
    → unit_us unit ≡ some mul
    → parse_duration_us (to_string n ++ unit)
      ≡ (if leb (n * mul) max_long then some (n * mul) else none)
unfolding parse_duration_us
parse_duration_us-to_string n mul unit h =
    rw
      (
        span-append is_digit (to_string n) unit (to_string-IsDigits n) (unit_us-digit unit mul h),
        to_string-nonempty n,
        read_digits-to_string n,
        h,
      )
      (scale_us-unit n mul unit h)
