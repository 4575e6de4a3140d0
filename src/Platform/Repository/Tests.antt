-- ===== src/Platform/Repository/Tests.antt =====
-- core/platform/in_memory_repo.cpp at concrete inputs.
use cppload_workflow.Prelude.{
  ℕ, ◌≡◌, refl, true, none, List, [], ◌∷◌, ◌||◌, Bytes, bytes, eqb, ok, err, is_empty, lookup,
}
use cppload_workflow.Platform.Models.{running, Project, Scenario, RunResult, Run, not_found}
use cppload_workflow.Platform.Repository.{
  Env, Repo, empty, delete_project, find_owner, insert_scenario, get_project, get_scenario, get_run,
  get_policy,
}
use cppload_workflow.Platform.Repository.Integrity.{
  Call, creates_project, deletes_project, creates_scenario, creates_run, run_calls, Integrity,
  run_calls-Integrity,
}
use cppload_workflow.Platform.Repository.Contract.{
  Gone, Spared, delete_project_cascade, create_scenario_race,
}

abbrev at : ℕ → Env
at n = record { now = n; steady_ns = n; random = n }

abbrev project_id : Bytes
unfolding bytes
project_id = bytes "0000000100000001"

abbrev other_id : Bytes
other_id = 9 ∷ []

abbrev no_requests : RunResult ℕ
no_requests = record {
  total_requests = 0;
  successful_requests = 0;
  failed_requests = 0;
  error_rate_pct = 0;
  throughput_rps = 0;
  p50_latency_ms = 0;
  p95_latency_ms = 0;
  p99_latency_ms = 0;
}

abbrev checkout : Project
checkout = record { id = project_id; name = 7 ∷ []; description = []; created_at = 1 }

abbrev first_run : Run ℕ
first_run = record {
  id = 5 ∷ [];
  project_id = project_id;
  scenario_id = 6 ∷ [];
  environment = [];
  status = running;
  started_at = 3;
  finished_at = none;
  result = none;
}

abbrev stocked : Repo ℕ
stocked = record {
  projects = (project_id, checkout) ∷ [];
  scenarios = [];
  runs = (5 ∷ [], first_run) ∷ [];
  policies = [];
  counter = 2;
}

abbrev history : List (Env × Call ℕ)
history =
    (at 1, creates_project (7 ∷ []) [])
    ∷ (at 2, creates_scenario project_id (8 ∷ []) [] [])
    ∷ (at 3, deletes_project project_id)
    ∷ (at 4, creates_run project_id [] [])
    ∷ []

delete_project_cascade_example :
    ((delete_project stocked project_id).0 ≡ ok true)
    × (get_project (delete_project stocked project_id).1 project_id ≡ err not_found)
    × Gone (λ s. s.project_id) project_id (delete_project stocked project_id).1.scenarios
    × Gone (λ u. u.project_id) project_id (delete_project stocked project_id).1.runs
    × Gone (λ q. q.project_id) project_id (delete_project stocked project_id).1.policies
    × Spared
        (λ s. s.project_id)
        project_id
        (get_scenario stocked)
        (get_scenario (delete_project stocked project_id).1)
    × Spared
        (λ u. u.project_id)
        project_id
        (get_run stocked)
        (get_run (delete_project stocked project_id).1)
    × Spared
        (λ q. q.project_id)
        project_id
        (get_policy stocked)
        (get_policy (delete_project stocked project_id).1)
unfolding get_project lookup eqb project_id bytes
delete_project_cascade_example = delete_project_cascade stocked project_id checkout refl

create_scenario_race_example :
    let r' = (delete_project stocked project_id).1 in
    let (reply, r'') = insert_scenario r' project_id (8 ∷ []) [] [] (at 9) in
    (find_owner stocked project_id (is_empty project_id || is_empty {A = ℕ} (8 ∷ [])) ≡ none)
    × ((s : Scenario) × (reply ≡ ok s)
        × (get_scenario r'' s.id ≡ ok s)
        × (s.project_id ≡ project_id))
    × (get_project r'' project_id ≡ err not_found)
    × ¬ Integrity r''
unfolding get_project lookup eqb project_id bytes
create_scenario_race_example =
    create_scenario_race stocked project_id (8 ∷ []) [] [] (at 9) checkout refl refl refl

run_calls-Integrity_example : Integrity (run_calls empty history)
unfolding empty
run_calls-Integrity_example =
    run_calls-Integrity empty history
      (record { scenarios_owned = tt; runs_owned = tt; policies_owned = tt })
