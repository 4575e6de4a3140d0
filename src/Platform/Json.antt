-- ===== src/Platform/Json.antt =====
-- core/platform/http_server.cpp: `to_json` and `from_json_policy_rule`, over the calls the server makes of
-- the JSON library, which is a parameter.
use cppload_workflow.Prelude.{
  ℕ, ◌/◌, Bool, Option, none, some, List, [], ◌∷◌, ◌++◌, map, Bytes, bytes, to_string, Result, ok,
  ◌>>=◌,
}
use cppload_workflow.Platform.Models.{
  Project, Scenario, RunResult, Run, PolicyRule, Policy, PolicyViolation, PolicyEvaluation,
  status_text, severity_text,
}

-- An exception of the library.
pub data Thrown : Type 0 where
  thrown : Thrown

pub record JsonLibrary (F J : Type 0) : Type 0 where
  -- `parse(text, nullptr, false)`: `none` for a value that is discarded.
  pub parse : Bytes → Option J
  -- `j.value(key, "")`
  pub value : J → Bytes → Result Bytes Thrown
  -- `j.contains(key)`, then `j[key].is_array()` and its elements: `none` where one of the tests fails.
  pub array_at : J → Bytes → Option (List J)
  -- `j.at(key).get<std::string>()` and `j.at(key).get<double>()`
  pub text_at : J → Bytes → Result Bytes Thrown
  pub number_at : J → Bytes → Result F Thrown
  pub string : Bytes → J
  pub number : ℕ → J
  pub floating : F → J
  pub boolean : Bool → J
  pub array : List J → J
  pub object : List (Bytes × J) → J
  -- `dump()` throws on text that is not UTF-8.
  pub dump : J → Result Bytes Thrown

-- `std::to_string(std::chrono::system_clock::to_time_t(t))`
pub time_text : ℕ → Bytes
time_text t = to_string (t / 1_000_000_000)

module _ {F J : Type 0} (L : JsonLibrary F J) where
  pub project_to_json : Project → J
  project_to_json p = L.object (
      (bytes "id", L.string p.id)
      ∷ (bytes "name", L.string p.name)
      ∷ (bytes "description", L.string p.description)
      ∷ (bytes "created_at", L.string (time_text p.created_at))
      ∷ [])

  pub scenario_to_json : Scenario → J
  scenario_to_json s = L.object (
      (bytes "id", L.string s.id)
      ∷ (bytes "project_id", L.string s.project_id)
      ∷ (bytes "name", L.string s.name)
      ∷ (bytes "version", L.string s.version)
      ∷ (bytes "yaml", L.string s.yaml_content)
      ∷ (bytes "created_at", L.string (time_text s.created_at))
      ∷ [])

  pub result_to_json : RunResult F → J
  result_to_json r = L.object (
      (bytes "total_requests", L.number r.total_requests)
      ∷ (bytes "successful_requests", L.number r.successful_requests)
      ∷ (bytes "failed_requests", L.number r.failed_requests)
      ∷ (bytes "error_rate_pct", L.floating r.error_rate_pct)
      ∷ (bytes "throughput_rps", L.floating r.throughput_rps)
      ∷ (bytes "p50_latency_ms", L.floating r.p50_latency_ms)
      ∷ (bytes "p95_latency_ms", L.floating r.p95_latency_ms)
      ∷ (bytes "p99_latency_ms", L.floating r.p99_latency_ms)
      ∷ [])

  finished_fields : Option ℕ → List (Bytes × J)
  finished_fields none = []
  finished_fields (some t) = (bytes "finished_at", L.string (time_text t)) ∷ []

  result_fields : Option (RunResult F) → List (Bytes × J)
  result_fields none = []
  result_fields (some r) = (bytes "result", result_to_json r) ∷ []

  pub run_to_json : Run F → J
  run_to_json r = L.object (
      (bytes "id", L.string r.id)
      ∷ (bytes "project_id", L.string r.project_id)
      ∷ (bytes "scenario_id", L.string r.scenario_id)
      ∷ (bytes "environment", L.string r.environment)
      ∷ (bytes "status", L.string (status_text r.status))
      ∷ (bytes "started_at", L.string (time_text r.started_at))
      ∷ (finished_fields r.finished_at ++ result_fields r.result))

  pub rule_to_json : PolicyRule F → J
  rule_to_json r = L.object (
      (bytes "metric", L.string r.metric)
      ∷ (bytes "op", L.string r.op)
      ∷ (bytes "threshold", L.floating r.threshold)
      ∷ [])

  pub policy_to_json : Policy F → J
  policy_to_json p = L.object (
      (bytes "id", L.string p.id)
      ∷ (bytes "project_id", L.string p.project_id)
      ∷ (bytes "name", L.string p.name)
      ∷ (bytes "rules", L.array (map rule_to_json p.rules))
      ∷ (bytes "created_at", L.string (time_text p.created_at))
      ∷ [])

  pub violation_to_json : PolicyViolation → J
  violation_to_json v = L.object (
      (bytes "metric", L.string v.rule_metric)
      ∷ (bytes "message", L.string v.message)
      ∷ (bytes "severity", L.string (severity_text v.severity))
      ∷ [])

  pub evaluation_to_json : PolicyEvaluation → J
  evaluation_to_json e = L.object (
      (bytes "run_id", L.string e.run_id)
      ∷ (bytes "policy_id", L.string e.policy_id)
      ∷ (bytes "passed", L.boolean e.passed)
      ∷ (bytes "violations", L.array (map violation_to_json e.violations))
      ∷ [])

  unfoldable pub from_json_policy_rule : J → Result (PolicyRule F) Thrown
  from_json_policy_rule j = do
    metric ← L.text_at j (bytes "metric")
    op ← L.text_at j (bytes "op")
    threshold ← L.number_at j (bytes "threshold")
    ok (record { metric = metric; op = op; threshold = threshold })

  unfoldable pub from_json_rules : List J → Result (List (PolicyRule F)) Thrown
  from_json_rules [] = ok []
  from_json_rules (j ∷ js) = do
    rule ← from_json_policy_rule j
    rules ← from_json_rules js
    ok (rule ∷ rules)
