-- ===== src/Scenario/Validation/Tests.antt =====
-- core/scenario/yaml_parser.cpp at concrete inputs.
use cppload_workflow.Prelude.{◌≡◌, ◌↔◌, refl, false, none, some, [], ◌∷◌, bytes, eqb}
use cppload_workflow.Scenario.Config.{HttpStep, ScenarioConfig}
use cppload_workflow.Scenario.Assertions.{span, is_space}
use cppload_workflow.Scenario.Validation.{
  check_assertion_format, drop_spaces, is_operator, validate_scenario_config,
}
use cppload_workflow.Scenario.Validation.Contract.{ConfigOk, validate_iff}

abbrev creation : HttpStep
creation = record {
  method = 7 ∷ [];
  path = 8 ∷ [];
  body = [];
  headers = [];
  use_tls = false;
  assertions = bytes "status_code == 201" ∷ [];
}

abbrev config : ScenarioConfig
config = record {
  test_id = 1 ∷ [];
  base_url = 2 ∷ [];
  stages = record { name = []; duration = 1000; target_rps = 50; concurrent_users = 5 } ∷ [];
  scenarios = record { name = []; weight = 70; steps = creation ∷ [] } ∷ [];
}

-- The format accepts an operator without spaces around it.
unspaced_accepted : check_assertion_format (bytes "status_code==200") ≡ none
unfolding check_assertion_format span is_space drop_spaces is_operator eqb bytes
unspaced_accepted = refl

no_operator :
    check_assertion_format (bytes "status_code 200")
    ≡ some (bytes "missing operator (==, !=, >=, <=, >, <)")
unfolding check_assertion_format span is_space drop_spaces is_operator eqb bytes
no_operator = refl

validate_iff_example : (validate_scenario_config config ≡ none) ↔ ConfigOk config
validate_iff_example = validate_iff config
