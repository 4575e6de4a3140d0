-- ===== src/Platform/Policy/Verdict.antt =====
-- core/platform/policy.cpp: when an evaluation passes, and what it lists.
use cppload_workflow.Prelude.{
  Bool, true, false, some, List, [], ◌∷◌, ◌++◌, Bytes, ok, Double, ◌≡◌, ◌↔◌, refl, inl, inr, All,
  Bool-cases, Result-cases, Option-cases, arith, sym, ◌∙◌,
}
use mathlib.Core.Option.{some-injective}
use cppload_workflow.Platform.Models.{
  RunResult, Run, PolicyRule, Policy, PolicyViolation, PolicyEvaluation, warning, error,
}
use cppload_workflow.Platform.Repository.{Repo, get_run, get_policy}
use cppload_workflow.Platform.Policy.{
  get_metric_value, check_threshold, check_rule, check_rules, evaluate,
}

-- Nothing in the list is an error.
abbrev pub only_warnings : List PolicyViolation → Bool
only_warnings [] = true
only_warnings (v ∷ vs) = elim v.severity [ warning ↦ only_warnings vs | error ↦ false ]

only_warnings-push_warning :
    (vs : List PolicyViolation) (v : PolicyViolation)
    → v.severity ≡ warning
    → only_warnings (vs ++ (v ∷ [])) ≡ only_warnings vs
only_warnings-push_warning [] v e = rw e refl
only_warnings-push_warning (w ∷ vs) v e = ground (arith, only_warnings-push_warning vs v e)

only_warnings-push_error :
    (vs : List PolicyViolation) (v : PolicyViolation)
    → v.severity ≡ error
    → only_warnings (vs ++ (v ∷ [])) ≡ false
only_warnings-push_error [] v e = rw e refl
only_warnings-push_error (w ∷ vs) v e = ground (arith, only_warnings-push_error vs v e)

module _ {F : Type 0} (D : Double F) where
  -- A rule is met: where its metric is known, the threshold holds.
  abbrev pub IsMet : RunResult F → PolicyRule F → Type 0
  IsMet result rule =
      (actual : F)
      → get_metric_value D result rule.metric ≡ some actual
      → check_threshold D actual rule.op rule.threshold ≡ false

  -- The flag says what the list of violations says.
  abbrev pub Agrees : PolicyEvaluation → Type 0
  Agrees e = e.passed ≡ only_warnings e.violations

  check_rule-Agrees :
      (result : RunResult F) (rule : PolicyRule F) (e : PolicyEvaluation)
      → Agrees e
      → Agrees (check_rule D result rule e)
  unfolding check_rule
  check_rule-Agrees result rule e h = elim (Option-cases (get_metric_value D result rule.metric)) [
    | inl n ↦ rw (n, check_rule) (h ∙ sym (only_warnings-push_warning e.violations _ refl))
    | inr (a, s) ↦
        rw (s, check_rule)
          (elim (Bool-cases (check_threshold D a rule.op rule.threshold)) [
            | inl t ↦ rw t (sym (only_warnings-push_error e.violations _ refl))
            | inr t ↦ rw t h
          ])
  ]

  check_rules-Agrees :
      (result : RunResult F) (rules : List (PolicyRule F)) (e : PolicyEvaluation)
      → Agrees e
      → Agrees (check_rules D result rules e)
  unfolding check_rules
  check_rules-Agrees result [] e h = h
  check_rules-Agrees result (rule ∷ rules) e h =
      check_rules-Agrees result rules _ (check_rule-Agrees result rule e h)

  check_rule-met :
      (result : RunResult F) (rule : PolicyRule F) (e : PolicyEvaluation)
      → IsMet result rule
      → (check_rule D result rule e).passed ≡ e.passed
  unfolding check_rule
  check_rule-met result rule e m = elim (Option-cases (get_metric_value D result rule.metric)) [
    | inl n ↦ rw (n, check_rule) refl
    | inr (a, s) ↦ rw (s, check_rule, m a s) refl
  ]

  check_rule-passed :
      (result : RunResult F) (rule : PolicyRule F) (e : PolicyEvaluation)
      → (check_rule D result rule e).passed ≡ true
      → (e.passed ≡ true) × IsMet result rule
  unfolding check_rule
  check_rule-passed result rule e h = elim (Option-cases (get_metric_value D result rule.metric)) [
    | inl n ↦ (rw (n, check_rule) at h, λ b t. ground (arith, n, t))
    | inr (a, s) ↦ elim (Bool-cases (check_threshold D a rule.op rule.threshold)) [
      | inl t ↦ absurd (ground (arith, (rw (s, check_rule, t) at h)))
      | inr t ↦ (rw (s, check_rule, t) at h, λ b u. rw (some-injective b a (sym u ∙ s)) t)
    ]
  ]

  check_rules-passed :
      (result : RunResult F) (rules : List (PolicyRule F)) (e : PolicyEvaluation)
      → (check_rules D result rules e).passed ≡ true
      → (e.passed ≡ true) × All (IsMet result) rules
  unfolding check_rules
  check_rules-passed result [] e h = (h, tt)
  check_rules-passed result (rule ∷ rules) e h =
      let (p, ms) = check_rules-passed result rules _ h in
      let (q, m) = check_rule-passed result rule e p in (q, (m, ms))

  check_rules-met :
      (result : RunResult F) (rules : List (PolicyRule F)) (e : PolicyEvaluation)
      → All (IsMet result) rules
      → (check_rules D result rules e).passed ≡ e.passed
  unfolding check_rules
  check_rules-met result [] e a = refl
  check_rules-met result (rule ∷ rules) e (m, ms) =
      check_rules-met result rules _ ms ∙ check_rule-met result rule e m

  -- What an evaluation needs to pass: the run, the policy and the result of the run are there, and every
  -- rule of the policy is met.
  abbrev pub Passes : Repo F → Bytes → Bytes → Type 0
  Passes repo run_id policy_id =
      (run : Run F) × (policy : Policy F) × (result : RunResult F) × (get_run repo run_id ≡ ok run)
      × (get_policy repo policy_id ≡ ok policy)
      × (run.result ≡ some result)
      × All (IsMet result) policy.rules

  evaluate-Passes :
      (repo : Repo F) (run_id policy_id : Bytes)
      → (evaluate D repo run_id policy_id).passed ≡ true
      → Passes repo run_id policy_id
  unfolding evaluate
  evaluate-Passes repo run_id policy_id h = elim (Result-cases (get_run repo run_id)) [
    | inl (x, r) ↦ absurd (ground (arith, (rw (r, evaluate) at h)))
    | inr (run, r) ↦ elim (Result-cases (get_policy repo policy_id)) [
      | inl (x, p) ↦ absurd (ground (arith, (rw (r, evaluate, p) at h)))
      | inr (policy, p) ↦ elim (Option-cases run.result) [
        | inl s ↦ absurd (ground (arith, (rw (r, evaluate, p, s) at h)))
        | inr (result, s) ↦
            let (_, m) = check_rules-passed result policy.rules _ (rw (r, evaluate, p, s) at h) in
            (run, policy, result, r, p, s, m)
      ]
    ]
  ]

  Passes-evaluate :
      (repo : Repo F) (run_id policy_id : Bytes)
      → Passes repo run_id policy_id
      → (evaluate D repo run_id policy_id).passed ≡ true
  unfolding evaluate
  Passes-evaluate repo run_id policy_id (run, policy, result, r, p, s, m) =
      rw (r, evaluate, p, s) (check_rules-met result policy.rules _ m)

  evaluate-Agrees :
      (repo : Repo F) (run_id policy_id : Bytes) → Agrees (evaluate D repo run_id policy_id)
  unfolding evaluate
  evaluate-Agrees repo run_id policy_id = elim (Result-cases (get_run repo run_id)) [
    | inl (x, r) ↦ rw (r, evaluate) refl
    | inr (run, r) ↦ elim (Result-cases (get_policy repo policy_id)) [
      | inl (x, p) ↦ rw (r, evaluate, p) refl
      | inr (policy, p) ↦ elim (Option-cases run.result) [
        | inl s ↦ rw (r, evaluate, p, s) refl
        | inr (result, s) ↦ rw (r, evaluate, p, s) (check_rules-Agrees result policy.rules _ refl)
      ]
    ]
  ]

  -- An evaluation passes exactly when the run, the policy and a result are there and every rule whose
  -- metric is known holds. It passes exactly when it lists no violation that is an error.
  pub evaluate_iff :
      (repo : Repo F) (run_id policy_id : Bytes)
      → (((evaluate D repo run_id policy_id).passed ≡ true) ↔ Passes repo run_id policy_id)
        × ((evaluate D repo run_id policy_id).passed
            ≡ only_warnings (evaluate D repo run_id policy_id).violations)
  evaluate_iff repo run_id policy_id = (
    (evaluate-Passes repo run_id policy_id, Passes-evaluate repo run_id policy_id),
    evaluate-Agrees repo run_id policy_id,
  )
