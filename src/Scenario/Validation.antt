-- ===== src/Scenario/Validation.antt =====
-- core/scenario/yaml_parser.cpp: `check_assertion_format` and `validate_scenario_config`. `none` is success,
-- `some` holds the message.
pub mod Contract
pub mod Tests
use cppload_workflow.Prelude.{
  ℕ, zero, suc, ◌+◌, Bool, true, false, not, ◌&&◌, ◌||◌, Option, none, some, List, [], ◌∷◌, ◌++◌,
  ltb, ◌==◌, if◌then◌else◌, Bytes, bytes, eqb, is_empty, is_alnum, to_string,
}
use cppload_workflow.Scenario.Config.{HttpStep, Stage, Scenario, ScenarioConfig}
use cppload_workflow.Scenario.Assertions.{span, is_space}

abbrev pub is_name : ℕ → Bool
is_name c = is_alnum c || c == b'_'

abbrev pub is_sign : ℕ → Bool
is_sign c = c == b'=' || c == b'!' || c == b'<' || c == b'>'

-- The bytes of the operator's run that are not spaces.
unfoldable pub drop_spaces : Bytes → Bytes
drop_spaces [] = []
drop_spaces (c ∷ s) = if is_space c then drop_spaces s else c ∷ drop_spaces s

unfoldable pub is_operator : Bytes → Bool
is_operator t =
    eqb t (bytes "==")
    || eqb t (bytes "!=")
    || eqb t (bytes ">=")
    || eqb t (bytes "<=")
    || eqb t (bytes ">")
    || eqb t (bytes "<")

unfoldable pub check_assertion_format : Bytes → Option Bytes
check_assertion_format expr =
    let (name, s) = span is_name expr in
    let (run, rest) = span (λ c. is_sign c || is_space c) (span is_space s).1 in
    let op_token = drop_spaces run in
    if is_empty expr
    then some (bytes "empty assertion")
    else if is_empty name
    then some (bytes "missing left-hand side identifier")
    else if is_empty run
    then some (bytes "missing operator (==, !=, >=, <=, >, <)")
    else if is_operator op_token
    then none
    else some (
        bytes "invalid operator '" ++ (op_token ++ bytes "', expected one of ==, !=, >=, <=, >, <"))

-- `then_check a b`: the message of `a`, or else that of `b`.
abbrev pub or_else : Option Bytes → Option Bytes → Option Bytes
or_else none b = b
or_else (some m) b = some m

abbrev pub reject : Bool → Bytes → Option Bytes
reject true m = some m
reject false m = none

-- The place of a step in the messages.
pub at_step : ℕ → ℕ → Bytes
at_step si sti =
    bytes "field 'scenarios["
    ++ (to_string si ++ (bytes "].steps[" ++ (to_string sti ++ bytes "].")))

unfoldable pub in_assertion : ℕ → ℕ → ℕ → Option Bytes → Option Bytes
in_assertion si sti ai none = none
in_assertion si sti ai (some aerr) = some (
    at_step si sti
    ++ (bytes "assertions["
        ++ (to_string ai ++ (bytes "] " ++ (aerr ++ bytes ". Example: status_code == 201")))))

unfoldable pub check_assertions : ℕ → ℕ → ℕ → List Bytes → Option Bytes
check_assertions si sti ai [] = none
check_assertions si sti ai (a ∷ as') =
    or_else (in_assertion si sti ai (check_assertion_format a))
      (check_assertions si sti (suc ai) as')

unfoldable pub check_step : ℕ → ℕ → HttpStep → Option Bytes
check_step si sti step =
    or_else
      (reject (is_empty step.method)
        (at_step si sti ++ bytes "http.method' is required. Example: method: GET"))
      (or_else
        (reject (is_empty step.path)
          (at_step si sti ++ bytes "http.path' is required. Example: path: \"/api/v1/health\""))
        (check_assertions si sti 0 step.assertions))

unfoldable pub check_steps : ℕ → ℕ → List HttpStep → Option Bytes
check_steps si sti [] = none
check_steps si sti (step ∷ steps) =
    or_else (check_step si sti step) (check_steps si (suc sti) steps)

unfoldable pub check_scenario : ℕ → Scenario → Option Bytes
check_scenario si s =
    or_else
      (reject (ltb 1000 s.weight) (
        bytes "field 'scenarios["
        ++ (to_string si
            ++ (bytes "].weight' out of range: "
                ++ (to_string s.weight ++ bytes " expected 0..1000. Example: weight: 70")))))
      (or_else
        (reject (is_empty s.steps) (
          bytes "scenario '"
          ++ (s.name
              ++ (bytes "' (index "
                  ++ (to_string si ++ bytes ") has no steps; add at least one http step")))))
        (check_steps si 0 s.steps))

unfoldable pub check_scenarios : ℕ → List Scenario → Option Bytes
check_scenarios si [] = none
check_scenarios si (s ∷ ss) = or_else (check_scenario si s) (check_scenarios (suc si) ss)

unfoldable pub check_stage : ℕ → Stage → Option Bytes
check_stage li st =
    or_else
      (reject (ltb 1_000_000 st.target_rps) (
        bytes "field 'load_profile["
        ++ (to_string li
            ++ (bytes "].target_rps' out of range: "
                ++ (to_string st.target_rps ++ bytes " expected 0..1000000")))))
      (reject (ltb 100_000 st.concurrent_users) (
        bytes "field 'load_profile["
        ++ (to_string li
            ++ (bytes "].concurrent_users' out of range: "
                ++ (to_string st.concurrent_users ++ bytes " expected 0..100000")))))

unfoldable pub check_stages : ℕ → List Stage → Option Bytes
check_stages li [] = none
check_stages li (st ∷ sts) = or_else (check_stage li st) (check_stages (suc li) sts)

unfoldable pub validate_scenario_config : ScenarioConfig → Option Bytes
validate_scenario_config cfg =
    or_else
      (reject (is_empty cfg.test_id)
        (bytes "field 'test_id' is required (string). Example: test_id: \"my-load-test-2026\""))
      (or_else
        (reject (is_empty cfg.base_url) (
          bytes
            "field 'target.base_url' is required (string). Example: base_url: \"http://localhost:8080\""))
        (or_else
          (reject (is_empty cfg.scenarios)
            (bytes "field 'scenarios' must contain at least one scenario"))
          (or_else (check_scenarios 0 cfg.scenarios) (check_stages 0 cfg.stages))))
