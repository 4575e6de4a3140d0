-- ===== src/Scenario/Validation/Contract.antt =====
-- core/scenario/yaml_parser.cpp: which configurations are accepted.
use cppload_workflow.Prelude.{
  ℕ, suc, ◌≤◌, ◌≡◌, ◌↔◌, refl, Bool, true, false, Option, none, some, List, [], ◌∷◌, ltb, Bytes,
  is_empty, All, arith,
}
use cppload_workflow.Scenario.Config.{HttpStep, Stage, Scenario, ScenarioConfig}
use cppload_workflow.Scenario.Validation.{
  check_assertion_format, or_else, reject, in_assertion, check_assertions, check_step, check_steps,
  check_scenario, check_scenarios, check_stage, check_stages, validate_scenario_config,
}

abbrev pub StepOk : HttpStep → Type 0
StepOk step =
    (is_empty step.method ≡ false)
    × ((is_empty step.path ≡ false) × All (λ a. check_assertion_format a ≡ none) step.assertions)

abbrev pub ScenarioOk : Scenario → Type 0
ScenarioOk s = (s.weight ≤ 1000) × ((is_empty s.steps ≡ false) × All StepOk s.steps)

abbrev pub StageOk : Stage → Type 0
StageOk st = (st.target_rps ≤ 1_000_000) × (st.concurrent_users ≤ 100_000)

abbrev pub ConfigOk : ScenarioConfig → Type 0
ConfigOk cfg =
    (is_empty cfg.test_id ≡ false)
    × ((is_empty cfg.base_url ≡ false)
        × ((is_empty cfg.scenarios ≡ false)
            × (All ScenarioOk cfg.scenarios × All StageOk cfg.stages)))

or_else-none : (a b : Option Bytes) → (or_else a b ≡ none) ↔ ((a ≡ none) × (b ≡ none))
or_else-none none b = (λ e. (refl, e), λ h. h.1)
or_else-none (some m) b = (λ e. absurd (ground arith), λ h. absurd (ground (arith, h.0)))

reject-none : (b : Bool) (m : Bytes) → (reject b m ≡ none) ↔ (b ≡ false)
reject-none true m = (λ e. ground arith, λ e. ground arith)
reject-none false m = (λ e. refl, λ e. refl)

-- An accepted first test and what the rest says.
and_then :
    {P Q : Type 0} (a b : Option Bytes)
    → ((a ≡ none) ↔ P)
    → ((b ≡ none) ↔ Q)
    → (or_else a b ≡ none) ↔ (P × Q)
and_then a b (f, g) (h, k) =
    let (i, j) = or_else-none a b in (λ e. let (x, y) = i e in (f x, h y), λ (p, q). j (g p, k q))

in_assertion_iff :
    (si sti ai : ℕ) (o : Option Bytes) → (in_assertion si sti ai o ≡ none) ↔ (o ≡ none)
unfolding in_assertion
in_assertion_iff si sti ai none = (λ e. refl, λ e. refl)
in_assertion_iff si sti ai (some m) = (λ e. ground arith, λ e. ground arith)

check_assertions_iff :
    (si sti ai : ℕ) (l : List Bytes)
    → (check_assertions si sti ai l ≡ none) ↔ All (λ a. check_assertion_format a ≡ none) l
unfolding check_assertions
check_assertions_iff si sti ai [] = (λ e. tt, λ e. refl)
check_assertions_iff si sti ai (a ∷ l) =
    and_then _ _ (in_assertion_iff si sti ai (check_assertion_format a))
      (check_assertions_iff si sti (suc ai) l)

check_step_iff : (si sti : ℕ) (step : HttpStep) → (check_step si sti step ≡ none) ↔ StepOk step
unfolding check_step
check_step_iff si sti step =
    and_then _ _ (reject-none _ _)
      (and_then _ _ (reject-none _ _) (check_assertions_iff si sti 0 step.assertions))

check_steps_iff : (si sti : ℕ) (l : List HttpStep) → (check_steps si sti l ≡ none) ↔ All StepOk l
unfolding check_steps
check_steps_iff si sti [] = (λ e. tt, λ e. refl)
check_steps_iff si sti (step ∷ l) =
    and_then _ _ (check_step_iff si sti step) (check_steps_iff si (suc sti) l)

at_most : (m n : ℕ) (t : Bytes) → (reject (ltb n m) t ≡ none) ↔ (m ≤ n)
at_most m n t = (λ e. ground arith, λ h. ground arith)

check_scenario_iff : (si : ℕ) (s : Scenario) → (check_scenario si s ≡ none) ↔ ScenarioOk s
unfolding check_scenario
check_scenario_iff si s =
    and_then _ _ (at_most s.weight 1000 _)
      (and_then _ _ (reject-none _ _) (check_steps_iff si 0 s.steps))

check_scenarios_iff :
    (si : ℕ) (l : List Scenario) → (check_scenarios si l ≡ none) ↔ All ScenarioOk l
unfolding check_scenarios
check_scenarios_iff si [] = (λ e. tt, λ e. refl)
check_scenarios_iff si (s ∷ l) =
    and_then _ _ (check_scenario_iff si s) (check_scenarios_iff (suc si) l)

check_stage_iff : (li : ℕ) (st : Stage) → (check_stage li st ≡ none) ↔ StageOk st
unfolding check_stage
check_stage_iff li st =
    and_then _ _ (at_most st.target_rps 1_000_000 _) (at_most st.concurrent_users 100_000 _)

check_stages_iff : (li : ℕ) (l : List Stage) → (check_stages li l ≡ none) ↔ All StageOk l
unfolding check_stages
check_stages_iff li [] = (λ e. tt, λ e. refl)
check_stages_iff li (st ∷ l) = and_then _ _ (check_stage_iff li st) (check_stages_iff (suc li) l)

-- A configuration is accepted exactly when the required texts are there, there is a scenario, every
-- scenario has a step and a weight of at most 1000, every step has a method, a path and assertions of the
-- accepted format, and the stages are in range.
pub validate_iff : (cfg : ScenarioConfig) → (validate_scenario_config cfg ≡ none) ↔ ConfigOk cfg
unfolding validate_scenario_config
validate_iff cfg = and_then _ _ (reject-none _ _) (
    and_then _ _ (reject-none _ _) (
      and_then _ _ (reject-none _ _)
        (and_then _ _ (check_scenarios_iff 0 cfg.scenarios) (check_stages_iff 0 cfg.stages))))
