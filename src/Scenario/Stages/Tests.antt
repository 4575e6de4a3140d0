-- ===== src/Scenario/Stages/Tests.antt =====
-- core/scenario/engine.cpp, `ScenarioEngine::Impl::run` at concrete inputs.
use cppload_workflow.Prelude.{
  ℕ, ◌*◌, ◌≤◌, ◌≡◌, refl, true, false, some, [], ◌∷◌, length, bytes, negative,
}
use cppload_workflow.Core.TokenBucket.{one, second_ns}
use cppload_workflow.Scenario.Config.{Stage}
use cppload_workflow.Scenario.Engine.{Settings}
use cppload_workflow.Scenario.Stages.{
  Happening, run, run_stages, stages_of, global_end, stage_end, end_of, clamp_end, after_wait,
  next_stopped,
}
use cppload_workflow.Scenario.Stages.Order.{
  IsContinued, stages_started, run_stages_quiet, run_stages-IsContinued, unended_continues,
}

abbrev idle : Settings
idle = record {
  bucket = record { rate = 100 * second_ns; burst = 100 * one; tokens = 0; last_refill = 0 };
  target_rps = 100;
  max_duration_ms = 0;
}

abbrev warm_up : Stage
warm_up = record { name = bytes "warm-up"; duration = 10; target_rps = 50; concurrent_users = 2 }

abbrev steady_load : Stage
steady_load = record { name = bytes "steady"; duration = 20; target_rps = 0; concurrent_users = 0 }

abbrev forever : Stage
forever = record { name = bytes "forever"; duration = 0; target_rps = 0; concurrent_users = 4 }

-- A clock that is at 7 when every stage starts.
abbrev quiet : ℕ → Happening
quiet i = record {
  now = 7;
  stopped_early = false;
  stopped_waiting = false;
  stopped_joining = false;
  failures = 0;
}

abbrev stopped_by_user : ℕ → Happening
stopped_by_user i = record (quiet i) { stopped_waiting = true }

abbrev failing : ℕ → Happening
failing i = record (quiet i) { failures = 1 }

both_stages :
    stages_started (run quiet 7 (warm_up ∷ steady_load ∷ []) idle) ≡ warm_up ∷ steady_load ∷ []
unfolding run run_stages stages_of global_end next_stopped after_wait stage_end
both_stages = refl

stopped_in_first :
    stages_started (run stopped_by_user 7 (warm_up ∷ steady_load ∷ []) idle) ≡ warm_up ∷ []
unfolding run run_stages stages_of global_end next_stopped after_wait stage_end
stopped_in_first = refl

failed_in_first : stages_started (run failing 7 (warm_up ∷ steady_load ∷ []) idle) ≡ warm_up ∷ []
unfolding run run_stages stages_of global_end next_stopped after_wait stage_end
failed_in_first = refl

-- A stage without an end forgets that it was stopped.
stop_forgotten :
    stages_started (run stopped_by_user 7 (forever ∷ steady_load ∷ []) idle)
    ≡ forever ∷ steady_load ∷ []
unfolding run run_stages stages_of global_end next_stopped after_wait stage_end
stop_forgotten = refl

-- The longest duration that a configuration can have ends before it starts.
longest_wraps : stage_end 9223372036854775807 7 9223372036854775807 ≡ some negative
unfolding stage_end clamp_end end_of
longest_wraps = refl

run_stages_quiet_example :
    stages_started
      (run_stages quiet 2 9223372036854775807 0 (warm_up ∷ steady_load ∷ []) idle false)
    ≡ warm_up ∷ steady_load ∷ []
run_stages_quiet_example =
    run_stages_quiet quiet 2 9223372036854775807 0 (warm_up ∷ steady_load ∷ []) idle
      (λ j. (refl, refl, refl, refl))

run_stages-IsContinued_example :
    IsContinued failing 0
      (run_stages failing 2 9223372036854775807 0 (warm_up ∷ steady_load ∷ []) idle false)
run_stages-IsContinued_example =
    run_stages-IsContinued failing 2 9223372036854775807 0 (warm_up ∷ steady_load ∷ []) idle false

unended_continues_example :
    2 ≤ length (run_stages failing 2 9223372036854775807 0 (forever ∷ steady_load ∷ []) idle false)
unfolding stage_end
unended_continues_example =
    unended_continues failing 2 9223372036854775807 0 forever steady_load [] idle refl refl refl
      refl refl
