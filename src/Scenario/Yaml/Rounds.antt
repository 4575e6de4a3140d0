-- ===== src/Scenario/Yaml/Rounds.antt =====
-- core/scenario/yaml_parser.cpp, `substitute_env`: its loop ends on every text.
use cppload_workflow.Prelude.{
  ℕ, zero, suc, ◌+◌, ◌<◌, ◌≤◌, ◌≡◌, refl, inl, inr, Option, some, [], ◌∷◌, ◌++◌, arith, length,
  take, drop, Bytes, bytes, find, find_word, Option-cases,
}
use cppload_workflow.Scenario.Yaml.{substitute_loop, substitute_expr, substitute_text}

length-drop : (n : ℕ) (s : Bytes) → length (drop n s) ≤ length s
length-drop zero s = omega arith
length-drop (suc n) [] = omega arith
length-drop (suc n) (c ∷ s) = omega (arith, length-drop n s)

-- What stands behind a byte that was found is shorter.
drop-found : (c j : ℕ) (s : Bytes) → find c s ≡ some j → length (drop (j + 1) s) < length s
unfolding find
drop-found c j [] e = cc
drop-found c j (d ∷ s) e =
    let more : j + 1 ≡ suc j = omega arith in rw more (omega (arith, length-drop j s))

module _ (env : Bytes → Option Bytes) where
  substitute_loop_returns :
      (fuel : ℕ) (rest missing : Bytes)
      → length rest < fuel
      → (r : Bytes × Bytes) × (substitute_loop env fuel rest missing ≡ some r)
  unfolding substitute_loop
  substitute_loop_returns zero rest missing h = elim h [ ]
  substitute_loop_returns (suc fuel) [] missing h = (([], missing), refl)
  substitute_loop_returns (suc fuel) (c ∷ s) missing h =
      elim (Option-cases (find_word (bytes "${") (c ∷ s))) [
        | inl e ↦ (((c ∷ s), missing), rw (e, substitute_loop) refl)
        | inr (k, e) ↦
            let after = drop 2 (drop k (c ∷ s)) in
            elim (Option-cases (find b'}' after)) [
              | inl f ↦ (((c ∷ s), missing), rw (e, f, substitute_loop) refl)
              | inr (j, f) ↦
                  let (value, missing') = substitute_expr env (take j after) missing in
                  let ((r, m), g) = substitute_loop_returns fuel (drop (j + 1) after) missing' (
                    omega (
                      arith,
                      h,
                      drop-found b'}' j after f,
                      length-drop 2 (drop k (c ∷ s)),
                      length-drop k (c ∷ s),
                    )) in
                  (((take k (c ∷ s) ++ value ++ r), m), rw (e, f, g, substitute_loop) refl)
            ]
      ]

  -- Whatever the text and the environment, the loop ends within one round more than the text has bytes.
  pub substitute_text_returns :
      (val missing : Bytes) → (r : Bytes × Bytes) × (substitute_text env val missing ≡ some r)
  unfolding substitute_text
  substitute_text_returns val missing =
      substitute_loop_returns (suc (length val)) val missing (omega arith)
