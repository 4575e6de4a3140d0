-- ===== src/Tools/CommandLine/Ranges.antt =====
-- tools/main.cpp: the numbers among the arguments.
use cppload_workflow.Prelude.{
  ℕ, ◌≤◌, ◌≡◌, refl, Bool, true, false, ◌||◌, Option, none, some, List, [], ◌∷◌, arith, ltb,
  if◌then◌else◌, Bytes, bytes, eqb, find, Signed, nonneg, negative, Double,
}
use cppload_workflow.Tools.CommandLine.{
  CliArgs, no_args, stoi, set_rps, set_duration, set_value, set_flag, Next, stops, goes_on,
  took_value, debug, continued, after_value, key_of, value_of, read_arg, parse_loop, parse_args,
}

-- The rate and the duration are those that the program accepts.
abbrev pub IsInRange : CliArgs → Type 0
IsInRange a = (1 ≤ a.rps) × (a.rps ≤ 1_000_000) × (a.duration ≤ 315_360_000)

AreInRange : Option CliArgs → Type 0
AreInRange none = Unit
AreInRange (some a) = IsInRange a

if-AreInRange :
    (b : Bool) (x y : Option CliArgs)
    → AreInRange x
    → AreInRange y
    → AreInRange (if b then x else y)
if-AreInRange true x y f g = f
if-AreInRange false x y f g = g

if-IsInRange :
    (b : Bool) (x y : CliArgs)
    → (b ≡ true → IsInRange x)
    → (b ≡ false → IsInRange y)
    → IsInRange (if b then x else y)
if-IsInRange true x y f g = f refl
if-IsInRange false x y f g = g refl

rate_bounds : (v : ℕ) → (ltb v 1 || ltb 1_000_000 v) ≡ false → (1 ≤ v) × (v ≤ 1_000_000)
rate_bounds v h = ground arith

duration_bound : (v : ℕ) → ltb 315_360_000 v ≡ false → v ≤ 315_360_000
duration_bound v h = ground arith

module _ (a : CliArgs) (h : IsInRange a) where
  set_rps-IsInRange : (v : Option Signed) → IsInRange (set_rps v a)
  unfolding set_rps
  set_rps-IsInRange none = h
  set_rps-IsInRange (some negative) = h
  set_rps-IsInRange (some (nonneg v)) =
      if-IsInRange (ltb v 1 || ltb 1_000_000 v) (record a { error = true }) (record a { rps = v })
        (λ _. h) (λ k. let (low, high) = rate_bounds v k in (low, high, h.2))

  set_duration-IsInRange : (v : Option Signed) → IsInRange (set_duration v a)
  unfolding set_duration
  set_duration-IsInRange none = h
  set_duration-IsInRange (some negative) = h
  set_duration-IsInRange (some (nonneg v)) =
      if-IsInRange (ltb 315_360_000 v) (record a { duration_set = true; error = true })
        (record a { duration_set = true; duration = v }) (λ _. h)
        (λ k. (h.0, h.1, duration_bound v k))

  set_flag-IsInRange : (key : Bytes) → IsInRange (set_flag key a)
  unfolding set_flag
  set_flag-IsInRange key =
      let wrong : CliArgs = record a { error = true } in
      let silent : CliArgs = record a { no_progress = true } in
      let dry : CliArgs = record a { dry_run = true } in
      let third = if eqb key (bytes "--no-progress") then silent else wrong in
      let second =
        if eqb key (bytes "--dry-run") || eqb key (bytes "--validate-config") then dry else third in
      if-IsInRange (eqb key (bytes "--verbose")) (record a { verbose = true; log_level = debug })
        second (λ _. h)
        (λ _.
          if-IsInRange (eqb key (bytes "--dry-run") || eqb key (bytes "--validate-config")) dry
            third (λ _. h)
            (λ _. if-IsInRange (eqb key (bytes "--no-progress")) silent wrong (λ _. h) (λ _. h)))

next_step :
    (how : Next) (a b c : CliArgs)
    → IsInRange a
    → IsInRange b
    → IsInRange c
    → IsInRange (continued how a b c)
next_step stops a b c h i j = h
next_step goes_on a b c h i j = i
next_step took_value a b c h i j = j

module _ {F : Type 0} (D : Double F) (stod : Bytes → Option F) where
  set_value-AreInRange :
      (key v : Bytes) (a : CliArgs) → IsInRange a → AreInRange (set_value D stod key v a)
  unfolding set_value AreInRange
  set_value-AreInRange key v a h =
      let rate = set_rps-IsInRange a h (stoi v) in
      let time = set_duration-IsInRange a h (stoi v) in ground arith

  chosen-IsInRange :
      (o : Option CliArgs) (how : Next) (a : CliArgs)
      → AreInRange o
      → IsInRange a
      → IsInRange (after_value o how a).0
  unfolding AreInRange
  chosen-IsInRange none how a o h = h
  chosen-IsInRange (some b) how a o h = o

  if-outcome :
      (b : Bool) (x y : CliArgs × Next)
      → IsInRange x.0
      → IsInRange y.0
      → IsInRange (if b then x else y).0
  if-outcome true x y f g = f
  if-outcome false x y f g = g

  read_arg-IsInRange :
      (arg : Bytes) (following : Option Bytes) (a : CliArgs)
      → IsInRange a
      → IsInRange (read_arg D stod arg following a).0
  unfolding read_arg
  read_arg-IsInRange arg following a h =
      let eq = find b'=' arg in
      let key = key_of arg eq in
      let (v, how) = value_of arg eq following in
      let read = after_value (set_value D stod key v a) how (set_flag key a) in
      let help' : CliArgs × Next = (record a { help = true }, stops) in
      let version' : CliArgs × Next = (record a { version = true }, stops) in
      let versioned =
        if eqb arg (bytes "--version") || eqb arg (bytes "-v") then version' else read in
      if-outcome (eqb arg (bytes "--help") || eqb arg (bytes "-h")) help' versioned h (
        if-outcome (eqb arg (bytes "--version") || eqb arg (bytes "-v")) version' read h (
          chosen-IsInRange (set_value D stod key v a) how (set_flag key a)
            (set_value-AreInRange key v a h) (set_flag-IsInRange a h key)))

  parse_loop-IsInRange :
      (args : List Bytes) (a : CliArgs) → IsInRange a → IsInRange (parse_loop D stod args a)
  unfolding parse_loop
  parse_loop-IsInRange [] a h = h
  parse_loop-IsInRange (arg ∷ []) a h = read_arg-IsInRange arg none a h
  parse_loop-IsInRange (arg ∷ following ∷ args) a h =
      let (a', how) = read_arg D stod arg (some following) a in
      let h' = read_arg-IsInRange arg (some following) a h in
      next_step how a' (parse_loop D stod (following ∷ args) a') (parse_loop D stod args a') h'
        (parse_loop-IsInRange (following ∷ args) a' h') (parse_loop-IsInRange args a' h')

  -- Whatever the arguments, the rate is one from 1 to 1000000 and the duration at most ten years.
  pub parse_args-IsInRange : (args : List Bytes) → IsInRange (parse_args D stod args)
  unfolding parse_args
  parse_args-IsInRange args =
      parse_loop-IsInRange args no_args (omega arith, omega arith, omega arith)
