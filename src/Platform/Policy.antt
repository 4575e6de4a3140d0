-- ===== src/Platform/Policy.antt =====
-- core/platform/policy.cpp: `PolicyEvaluator`, over the operations of `double`.
pub mod Verdict
pub mod Tests
use cppload_workflow.Prelude.{
  ℕ, Bool, true, false, not, Option, none, some, List, [], ◌∷◌, ◌++◌, if◌then◌else◌, Bytes, bytes,
  eqb, Result, ok, err, Double,
}
use cppload_workflow.Platform.Models.{
  RunResult, Run, PolicyRule, Policy, PolicyViolation, PolicyEvaluation, PolicySeverity, warning,
  error,
}
use cppload_workflow.Platform.Repository.{Repo, get_run, get_policy}

-- The names of metrics.
abbrev pub error_rate_pct : Bytes
error_rate_pct = bytes "error_rate_pct"

abbrev pub throughput_rps : Bytes
throughput_rps = bytes "throughput_rps"

abbrev pub p50_latency_ms : Bytes
p50_latency_ms = bytes "p50_latency_ms"

abbrev pub p95_latency_ms : Bytes
p95_latency_ms = bytes "p95_latency_ms"

abbrev pub p99_latency_ms : Bytes
p99_latency_ms = bytes "p99_latency_ms"

abbrev pub total_requests : Bytes
total_requests = bytes "total_requests"

abbrev pub failed_requests : Bytes
failed_requests = bytes "failed_requests"

module _ {F : Type 0} (D : Double F) where
  unfoldable pub get_metric_value : RunResult F → Bytes → Option F
  get_metric_value r metric =
      if eqb metric error_rate_pct
      then some r.error_rate_pct
      else if eqb metric throughput_rps
      then some r.throughput_rps
      else if eqb metric p50_latency_ms
      then some r.p50_latency_ms
      else if eqb metric p95_latency_ms
      then some r.p95_latency_ms
      else if eqb metric p99_latency_ms
      then some r.p99_latency_ms
      else if eqb metric total_requests
      then some (D.of_nat r.total_requests)
      else if eqb metric failed_requests
      then some (D.of_nat r.failed_requests)
      else none

  -- Whether the threshold is violated.
  unfoldable pub check_threshold : F → Bytes → F → Bool
  unfolding bytes
  check_threshold actual op threshold =
      if eqb op (bytes "<")
      then not (D.lt actual threshold)
      else if eqb op (bytes "<=")
      then not (D.le actual threshold)
      else if eqb op (bytes ">")
      then not (D.lt threshold actual)
      else if eqb op (bytes ">=")
      then not (D.le threshold actual)
      else if eqb op (bytes "==")
      then D.lt (D.ratio 1 1_000_000_000) (D.fabs (D.sub actual threshold))
      else if eqb op (bytes "!=")
      then D.le (D.fabs (D.sub actual threshold)) (D.ratio 1 1_000_000_000)
      else true

  pub format_violation : Bytes → Bytes → F → F → Bytes
  format_violation metric op threshold actual =
      metric
      ++ (bytes " expected "
          ++ (op ++ (bytes " " ++ (D.text threshold ++ (bytes " but got " ++ D.text actual)))))

  abbrev pub push : PolicyEvaluation → Bool → PolicyViolation → PolicyEvaluation
  push e passed v = record e { passed = passed; violations = e.violations ++ (v ∷ []) }

  -- One pass of the loop over the rules.
  unfoldable pub check_rule : RunResult F → PolicyRule F → PolicyEvaluation → PolicyEvaluation
  check_rule result rule e = elim (get_metric_value result rule.metric) [
    | none ↦ push e e.passed (record {
      rule_metric = rule.metric;
      message = bytes "unknown metric: " ++ rule.metric;
      severity = warning;
    })
    | some actual ↦
        if check_threshold actual rule.op rule.threshold
        then push e false (record {
          rule_metric = rule.metric;
          message = format_violation rule.metric rule.op rule.threshold actual;
          severity = error;
        })
        else e
  ]

  unfoldable pub check_rules :
      RunResult F → List (PolicyRule F) → PolicyEvaluation → PolicyEvaluation
  check_rules result [] e = e
  check_rules result (rule ∷ rules) e = check_rules result rules (check_rule result rule e)

  unfoldable pub evaluate : Repo F → Bytes → Bytes → PolicyEvaluation
  evaluate repo run_id policy_id = elim (get_run repo run_id) [
    | err _ ↦ push evaluation false (record {
      rule_metric = bytes "run";
      message = bytes "run not found: " ++ run_id;
      severity = error;
    })
    | ok run ↦ elim (get_policy repo policy_id) [
      | err _ ↦ push evaluation false (record {
        rule_metric = bytes "policy";
        message = bytes "policy not found: " ++ policy_id;
        severity = error;
      })
      | ok policy ↦ elim run.result [
        | none ↦ push evaluation false (record {
          rule_metric = bytes "result";
          message = bytes "run has no result yet";
          severity = error;
        })
        | some result ↦ check_rules result policy.rules evaluation
      ]
    ]
  ]
    where
      evaluation : PolicyEvaluation
      evaluation = record { run_id = run_id; policy_id = policy_id; passed = true; violations = [] }
