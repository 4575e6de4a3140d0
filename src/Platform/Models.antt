-- ===== src/Platform/Models.antt =====
-- include/cppload/platform/models.hpp, over a type of floating-point numbers. Times are nanoseconds since the epoch.
use cppload_workflow.Prelude.{ℕ, Bool, true, false, List, Option, Bytes, bytes}

pub data RunStatus : Type 0 where
  pending running completed failed : RunStatus

pub data PolicySeverity : Type 0 where
  warning error : PolicySeverity

pub record Project : Type 0 where
  pub id : Bytes
  pub name : Bytes
  pub description : Bytes
  pub created_at : ℕ

pub record Scenario : Type 0 where
  pub id : Bytes
  pub project_id : Bytes
  pub name : Bytes
  pub version : Bytes
  pub yaml_content : Bytes
  pub created_at : ℕ

pub record RunResult (F : Type 0) : Type 0 where
  pub total_requests : ℕ
  pub successful_requests : ℕ
  pub failed_requests : ℕ
  pub error_rate_pct : F
  pub throughput_rps : F
  pub p50_latency_ms : F
  pub p95_latency_ms : F
  pub p99_latency_ms : F

pub record Run (F : Type 0) : Type 0 where
  pub id : Bytes
  pub project_id : Bytes
  pub scenario_id : Bytes
  pub environment : Bytes
  pub status : RunStatus
  pub started_at : ℕ
  pub finished_at : Option ℕ
  pub result : Option (RunResult F)

pub record PolicyRule (F : Type 0) : Type 0 where
  pub metric : Bytes
  pub op : Bytes
  pub threshold : F

pub record Policy (F : Type 0) : Type 0 where
  pub id : Bytes
  pub project_id : Bytes
  pub name : Bytes
  pub rules : List (PolicyRule F)
  pub created_at : ℕ

pub record PolicyViolation : Type 0 where
  pub rule_metric : Bytes
  pub message : Bytes
  pub severity : PolicySeverity

pub record PolicyEvaluation : Type 0 where
  pub run_id : Bytes
  pub policy_id : Bytes
  pub passed : Bool
  pub violations : List PolicyViolation

unfoldable pub status_text : RunStatus → Bytes
unfolding bytes
status_text pending = bytes "pending"
status_text running = bytes "running"
status_text completed = bytes "completed"
status_text failed = bytes "failed"

unfoldable pub severity_text : PolicySeverity → Bytes
unfolding bytes
severity_text warning = bytes "warning"
severity_text error = bytes "error"

-- A run that `finish_run` refuses to finish again.
abbrev pub is_finished : RunStatus → Bool
is_finished pending = false
is_finished running = false
is_finished completed = true
is_finished failed = true

pub data PlatformError : Type 0 where
  not_found already_exists invalid_input invalid_state : PlatformError
