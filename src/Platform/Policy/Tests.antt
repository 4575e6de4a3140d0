-- ===== src/Platform/Policy/Tests.antt =====
-- core/platform/policy.cpp at concrete inputs.
use cppload_workflow.Prelude.{
  ℕ, ◌≡◌, ◌↔◌, refl, true, false, some, List, [], ◌∷◌, Bytes, bytes, eqb, lookup, whole,
}
use cppload_workflow.Platform.Models.{RunResult, completed, PolicyRule}
use cppload_workflow.Platform.Repository.{Repo, get_run, get_policy}
use cppload_workflow.Platform.Policy.{
  evaluate, check_threshold, check_rules, check_rule, get_metric_value,
}
use cppload_workflow.Platform.Policy.Verdict.{Passes, only_warnings, evaluate_iff}

abbrev measured : RunResult ℕ
measured = record {
  total_requests = 100;
  successful_requests = 98;
  failed_requests = 2;
  error_rate_pct = 2;
  throughput_rps = 50;
  p50_latency_ms = 10;
  p95_latency_ms = 40;
  p99_latency_ms = 90;
}

abbrev rule : Bytes → Bytes → ℕ → PolicyRule ℕ
rule metric op threshold = record { metric = metric; op = op; threshold = threshold }

abbrev with_rules : List (PolicyRule ℕ) → Repo ℕ
with_rules rules = record {
  projects = [];
  scenarios = [];
  runs =
      (
        1 ∷ [],
        record {
          id = 1 ∷ [];
          project_id = [];
          scenario_id = [];
          environment = [];
          status = completed;
          started_at = 1;
          finished_at = some 2;
          result = some measured;
        },
      )
      ∷ [];
  policies =
      (2 ∷ [], record { id = 2 ∷ []; project_id = []; name = []; rules = rules; created_at = 1 })
      ∷ [];
  counter = 0;
}

-- Met thresholds, with a metric that is not known.
passes :
    (evaluate whole
      (with_rules
        (rule (bytes "p95_latency_ms") (bytes "<") 50 ∷ rule (bytes "p42") (bytes "<") 1 ∷ []))
      (1 ∷ [])
      (2 ∷ [])).passed
    ≡ true
unfolding evaluate get_run get_policy lookup eqb check_rules check_rule get_metric_value
    check_threshold bytes
passes = refl

fails :
    (evaluate whole
      (with_rules (rule (bytes "failed_requests") (bytes "==") 0 ∷ []))
      (1 ∷ [])
      (2 ∷ [])).passed
    ≡ false
unfolding evaluate get_run get_policy lookup eqb check_rules check_rule get_metric_value
    check_threshold bytes
fails = refl

abbrev strict : Repo ℕ
strict = with_rules (rule (bytes "error_rate_pct") (bytes "<=") 2 ∷ [])

evaluate_iff_example :
    (((evaluate whole strict (1 ∷ []) (2 ∷ [])).passed ≡ true)
      ↔ Passes whole strict (1 ∷ []) (2 ∷ []))
    × ((evaluate whole strict (1 ∷ []) (2 ∷ [])).passed
        ≡ only_warnings (evaluate whole strict (1 ∷ []) (2 ∷ [])).violations)
evaluate_iff_example = evaluate_iff whole strict (1 ∷ []) (2 ∷ [])
