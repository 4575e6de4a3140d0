-- ===== src/Scenario/Yaml/Templates.antt =====
-- core/scenario/yaml_parser.cpp, `substitute_env`: a text against the pieces that it is written from.
use cppload_workflow.Prelude.{
  ℕ, zero, suc, ◌+◌, ◌<◌, ◌≡◌, refl, ap, ◌∙◌, inl, inr, Bool, true, false, Option, none, some, List,
  [], ◌∷◌, ◌++◌, arith, ◌==◌, length, length-append, take, drop, take-append, All, All-append,
  Bytes, bytes, find, find_word, is_alnum, if◌then◌else◌, ◌||◌, starts_with, Bool-cases,
  Option-cases,
}
use mathlib.Core.List.{append-nil}
use mathlib.Core.Option
use cppload_workflow.Core.Url.Find.{Absent, find-append_cons}
use cppload_workflow.Scenario.Yaml.{
  valid_name, all_name_bytes, is_name_byte, split_expr, substitute_var, env_value, substitute_expr,
  substitute_loop, substitute_text,
}

-- Text that is meant as it is, and a variable with or without a default.
pub data Piece : Type 0 where
  literal : Bytes → Piece
  variable : Bytes → Option Bytes → Piece

abbrev pub default_text : Option Bytes → Bytes
default_text none = []
default_text (some d) = b':' ∷ b'-' ∷ d

unfoldable pub format : List Piece → Bytes
format [] = []
format (literal s ∷ pieces) = s ++ format pieces
format (variable name default ∷ pieces) =
    b'$' ∷ b'{' ∷ ((name ++ default_text default) ++ (b'}' ∷ format pieces))

abbrev pub IsDefault : Option Bytes → Type 0
IsDefault none = Unit
IsDefault (some d) = Absent b'}' d

-- A name: letters, digits and underscores, one at least.
abbrev pub IsName : Bytes → Type 0
IsName [] = ⊥
IsName (c ∷ s) = All (λ b. (is_alnum b || b == b'_') ≡ true) (c ∷ s)

-- No dollar sign in what is literal, and no closing brace in a default.
abbrev pub IsPiece : Piece → Type 0
IsPiece (literal s) = Absent b'$' s
IsPiece (variable name default) = IsName name × IsDefault default

-- What a variable stands for: its value, or its default where it is not set or empty, or nothing.
abbrev pub meaning : Option Bytes → Option Bytes → Bytes
meaning (some (c ∷ s)) default = c ∷ s
meaning (some []) none = []
meaning (some []) (some d) = d
meaning none none = []
meaning none (some d) = d

abbrev pub render : (Bytes → Option Bytes) → List Piece → Bytes
render env [] = []
render env (literal s ∷ pieces) = s ++ render env pieces
render env (variable name default ∷ pieces) = meaning (env name) default ++ render env pieces

-- Whether a variable has neither a value nor a default.
abbrev pub lacks : Option Bytes → Option Bytes → Bool
lacks (some (c ∷ s)) default = false
lacks (some []) none = true
lacks (some []) (some d) = false
lacks none none = true
lacks none (some d) = false

-- What is reported as missing: what was before, or else the first variable that lacks a value.
abbrev pub first_missing : (Bytes → Option Bytes) → Bytes → List Piece → Bytes
first_missing env (m ∷ ms) pieces = m ∷ ms
first_missing env [] [] = []
first_missing env [] (literal s ∷ pieces) = first_missing env [] pieces
first_missing env [] (variable name default ∷ pieces) =
    if lacks (env name) default then name else first_missing env [] pieces

name_byte : (c : ℕ) → is_name_byte c ≡ true → ((c == b'}') ≡ false) × ((c == b':') ≡ false)
name_byte c e = ground arith

names-Absent : (s : Bytes) → all_name_bytes s ≡ true → Absent b'}' s × Absent b':' s
names-Absent [] e = (tt, tt)
names-Absent (c ∷ s) e = elim (Bool-cases (is_name_byte c)) [
  | inl f ↦
      let (a, b) = name_byte c f in
      let (as', bs) = names-Absent s (rw f at e) in ((a, as'), (b, bs))
  | inr f ↦ let g = rw f at e in cc
]

names-valid : (s : Bytes) → All (λ b. (is_alnum b || b == b'_') ≡ true) s → all_name_bytes s ≡ true
names-valid [] a = refl
names-valid (c ∷ s) (a, as') = rw (a, names-valid s as') refl

IsName-valid : (s : Bytes) → IsName s → valid_name s ≡ true
unfolding valid_name
IsName-valid [] a = elim a [ ]
IsName-valid (c ∷ s) a = names-valid (c ∷ s) a

valid-names : (s : Bytes) → valid_name s ≡ true → all_name_bytes s ≡ true
unfolding valid_name
valid-names [] e = refl
valid-names (c ∷ s) e = e

==_swap : (a b : ℕ) → (a == b) ≡ false → (b == a) ≡ false
==_swap a b e = ground arith

-- A word is not found at a byte that it does not start with.
find_word_past :
    (p : ℕ) (w : Bytes) (c : ℕ) (s : Bytes)
    → (c == p) ≡ false
    → find_word (p ∷ w) (c ∷ s) ≡ Option.map (λ i. suc i) (find_word (p ∷ w) s)
unfolding find_word starts_with
find_word_past p w c s e = rw (==_swap c p e) refl

-- The first `:-` of a name with a default stands behind the name.
find_colon :
    (name d : Bytes)
    → Absent b':' name
    → find_word (bytes ":-") (name ++ (b':' ∷ b'-' ∷ d)) ≡ some (length name)
unfolding bytes find_word starts_with
find_colon [] d a = refl
find_colon (c ∷ name) d (a, as') =
    find_word_past b':' (b'-' ∷ []) c (name ++ (b':' ∷ b'-' ∷ d)) a
    ∙ ap (Option.map (λ i. suc i)) (find_colon name d as')

find_no_colon : (name : Bytes) → Absent b':' name → find_word (bytes ":-") name ≡ none
unfolding find_word bytes
find_no_colon [] a = refl
find_no_colon (c ∷ name) (a, as') =
    find_word_past b':' (b'-' ∷ []) c name a ∙ ap (Option.map (λ i. suc i)) (find_no_colon name as')

drop_past : (s r : Bytes) (k : ℕ) → drop (length s + k) (s ++ r) ≡ drop k r
drop_past [] r k = ap (λ n. drop n r) (omega arith)
drop_past (c ∷ s) r k =
    let e : suc (length s) + k ≡ suc (length s + k) = omega arith in rw e (drop_past s r k)

split_expr-format :
    (name : Bytes) (default : Option Bytes)
    → Absent b':' name
    → split_expr (name ++ default_text default) ≡ (name, default)
unfolding split_expr
split_expr-format name none a =
    ap split_expr (append-nil name) ∙ rw (find_no_colon name a, split_expr) refl
split_expr-format name (some d) a =
    rw (find_colon name d a, split_expr)
      (rw (take-append name (b':' ∷ b'-' ∷ d), drop_past name (b':' ∷ b'-' ∷ d) 2) refl)

body-Absent :
    (name : Bytes) (default : Option Bytes)
    → Absent b'}' name
    → IsDefault default
    → Absent b'}' (name ++ default_text default)
body-Absent name none a d = rw append-nil a
body-Absent name (some t) a d = All-append (λ x. (x == b'}') ≡ false) name _ a (refl, (refl, d))

module _ (env : Bytes → Option Bytes) where
  -- A text and the variable that is missing, behind one more byte.
  put : ℕ → Option (Bytes × Bytes) → Option (Bytes × Bytes)
  put c none = none
  put c (some (s, missing)) = some (c ∷ s, missing)

  loop_byte :
      (fuel c : ℕ) (s missing : Bytes)
      → (c == b'$') ≡ false
      → substitute_loop env (suc fuel) (c ∷ s) missing
        ≡ put c (substitute_loop env (suc fuel) s missing)
  unfolding substitute_loop put bytes find_word
  loop_byte fuel c [] missing e =
      let f = find_word_past b'$' (b'{' ∷ []) c [] e in rw (f, substitute_loop) refl
  loop_byte fuel c (d ∷ s) missing e =
      let f = find_word_past b'$' (b'{' ∷ []) c (d ∷ s) e in
      elim (Option-cases (find_word (b'$' ∷ b'{' ∷ []) (d ∷ s))) [
        | inl g ↦ rw (f, g, substitute_loop) refl
        | inr (k, g) ↦
            rw (f, g, substitute_loop)
              (elim (Option-cases (find b'}' (drop 2 (drop k (d ∷ s))))) [
                | inl h ↦ rw h refl
                | inr (j, h) ↦
                    let after = drop 2 (drop k (d ∷ s)) in
                    let (value, missing') = substitute_expr env (take j after) missing in
                    rw h
                      (elim (Option-cases
                        (substitute_loop env fuel (drop (j + 1) after) missing')) [
                          | inl q ↦ rw q refl
                          | inr (r, q) ↦ rw q refl
                        ])
              ])
      ]

  put_all : Bytes → Option (Bytes × Bytes) → Option (Bytes × Bytes)
  put_all s none = none
  put_all s (some (r, missing)) = some (s ++ r, missing)

  loop_literal :
      (fuel : ℕ) (lit s missing : Bytes)
      → Absent b'$' lit
      → substitute_loop env (suc fuel) (lit ++ s) missing
        ≡ put_all lit (substitute_loop env (suc fuel) s missing)
  unfolding put_all put
  loop_literal fuel [] s missing a =
      elim (Option-cases (substitute_loop env (suc fuel) s missing)) [
        | inl q ↦ rw q refl
        | inr (r, q) ↦ rw q refl
      ]
  loop_literal fuel (c ∷ lit) s missing (a, as') =
      loop_byte fuel c (lit ++ s) missing a
      ∙ ap (put c) (loop_literal fuel lit s missing as')
      ∙ elim (Option-cases (substitute_loop env (suc fuel) s missing)) [
        | inl q ↦ rw q refl
        | inr (r, q) ↦ rw q refl
      ]

  expr_value :
      (name : Bytes) (default : Option Bytes) (s missing : Bytes)
      → Absent b':' name
      → let body = name ++ default_text default in
        substitute_expr env (take (length body) (body ++ (b'}' ∷ s))) missing
        ≡ substitute_var env name default missing
  unfolding substitute_expr
  expr_value name default s missing colon =
      let body = name ++ default_text default in
      ap (λ b. substitute_expr env b missing) (take-append body (b'}' ∷ s))
      ∙ ap (λ (n, d). substitute_var env n d missing) (split_expr-format name default colon)

  loop_variable :
      (fuel : ℕ) (name : Bytes) (default : Option Bytes) (s missing : Bytes)
      → valid_name name ≡ true
      → IsDefault default
      → substitute_loop env
          (suc fuel)
          (b'$' ∷ b'{' ∷ ((name ++ default_text default) ++ (b'}' ∷ s)))
          missing
        ≡ (let (value, missing') = substitute_var env name default missing in
            put_all value (substitute_loop env fuel s missing'))
  unfolding substitute_loop substitute_expr put_all find_word starts_with bytes
  loop_variable fuel name default s missing v d =
      let body = name ++ default_text default in
      let (brace, colon) = names-Absent name (valid-names name v) in
      rw
        (
          find-append_cons b'}' body s (body-Absent name default brace d),
          take-append body (b'}' ∷ s),
          drop_past body (b'}' ∷ s) 1,
          split_expr-format name default colon,
        )
        (ap
          (λ r.
            put_all r.0 (substitute_loop env fuel s (substitute_var env name default missing).1))
          (expr_value name default s missing colon))

  -- A variable, as the code replaces and reports it.
  var_step :
      (name : Bytes) (default : Option Bytes) (missing : Bytes) (value : Option Bytes)
      → env name ≡ value
      → valid_name name ≡ true
      → substitute_var env name default missing
        ≡ (meaning (env name) default, first_missing env missing (variable name default ∷ []))
  unfolding substitute_var env_value
  var_step name none [] none e h = rw (h, e, substitute_var, env_value) refl
  var_step name none (m ∷ ms) none e h = rw (h, e, substitute_var, env_value) refl
  var_step name (some d) [] none e h = rw (h, e, substitute_var, env_value) refl
  var_step name (some d) (m ∷ ms) none e h = rw (h, e, substitute_var, env_value) refl
  var_step name none [] (some []) e h = rw (h, e, substitute_var, env_value) refl
  var_step name none (m ∷ ms) (some []) e h = rw (h, e, substitute_var, env_value) refl
  var_step name (some d) [] (some []) e h = rw (h, e, substitute_var, env_value) refl
  var_step name (some d) (m ∷ ms) (some []) e h = rw (h, e, substitute_var, env_value) refl
  var_step name none [] (some (c ∷ s)) e h = rw (h, e, substitute_var, env_value) refl
  var_step name none (m ∷ ms) (some (c ∷ s)) e h = rw (h, e, substitute_var, env_value) refl
  var_step name (some d) [] (some (c ∷ s)) e h = rw (h, e, substitute_var, env_value) refl
  var_step name (some d) (m ∷ ms) (some (c ∷ s)) e h = rw (h, e, substitute_var, env_value) refl

  first_missing_cons :
      (name : Bytes) (default : Option Bytes) (pieces : List Piece) (missing : Bytes)
      → IsName name
      → first_missing env (first_missing env missing (variable name default ∷ [])) pieces
        ≡ first_missing env missing (variable name default ∷ pieces)
  first_missing_cons [] default pieces missing a = elim a [ ]
  first_missing_cons (c ∷ s) default pieces (m ∷ ms) a = refl
  first_missing_cons (c ∷ s) default pieces [] a = elim (Bool-cases (lacks (env (c ∷ s)) default)) [
    | inl e ↦ rw e refl
    | inr e ↦ rw e refl
  ]

  loop_empty :
      (fuel : ℕ) (missing : Bytes) → substitute_loop env (suc fuel) [] missing ≡ some ([], missing)
  unfolding substitute_loop
  loop_empty fuel missing = refl

  missing_literal :
      (s : Bytes) (pieces : List Piece) (missing : Bytes)
      → first_missing env missing pieces ≡ first_missing env missing (literal s ∷ pieces)
  missing_literal s pieces [] = refl
  missing_literal s pieces (m ∷ ms) = refl

  loop-format :
      (pieces : List Piece) (fuel : ℕ) (missing : Bytes)
      → All IsPiece pieces
      → length (format pieces) < fuel
      → substitute_loop env fuel (format pieces) missing
        ≡ some (render env pieces, first_missing env missing pieces)
  unfolding format put_all
  loop-format pieces zero missing a h = elim h [ ]
  loop-format [] (suc fuel) [] a h = loop_empty fuel []
  loop-format [] (suc fuel) (m ∷ ms) a h = loop_empty fuel (m ∷ ms)
  loop-format (literal s ∷ pieces) (suc fuel) missing (p, ps) h =
      loop_literal fuel s (format pieces) missing p
      ∙ ap (put_all s) (
          loop-format pieces (suc fuel) missing ps
            (omega (arith, h, length-append s (format pieces))))
      ∙ ap (λ m. some (s ++ render env pieces, m)) (missing_literal s pieces missing)
  loop-format (variable name default ∷ pieces) (suc fuel) missing ((n, d), ps) h =
      let v = IsName-valid name n in
      let rest = first_missing env missing (variable name default ∷ []) in
      loop_variable fuel name default (format pieces) missing v d
      ∙ ap (λ (r : Bytes × Bytes). put_all r.0 (substitute_loop env fuel (format pieces) r.1))
          (var_step name default missing (env name) refl v)
      ∙ ap (put_all (meaning (env name) default)) (
          loop-format pieces fuel rest ps
            (omega (arith, h, length-append (name ++ default_text default) (b'}' ∷ format pieces))))
      ∙ ap (λ m. some (meaning (env name) default ++ render env pieces, m))
          (first_missing_cons name default pieces missing n)

  -- A text that is written from pieces, where what is literal holds no dollar sign, names are letters, digits
  -- and underscores and defaults hold no closing brace, is substituted in the rounds that the loop is given: a
  -- variable that is set and not empty by its value, another by its default or by nothing. What was missing
  -- before stays reported, and else the first variable without a value and a default is.
  pub substitute_text-format :
      (pieces : List Piece) (missing : Bytes)
      → All IsPiece pieces
      → substitute_text env (format pieces) missing
        ≡ some (render env pieces, first_missing env missing pieces)
  unfolding substitute_text
  substitute_text-format pieces missing a =
      loop-format pieces (suc (length (format pieces))) missing a (omega arith)
