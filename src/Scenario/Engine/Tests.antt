-- ===== src/Scenario/Engine/Tests.antt =====
-- core/scenario/engine.cpp, the engine, at concrete inputs.
use cppload_workflow.Prelude.{
  ℕ, ◌*◌, ◌≤◌, ◌≡◌, refl, true, false, none, Bytes, bytes, to_string, ltb,
}
use cppload_workflow.Core.Url.{parse_url}
use cppload_workflow.Core.TokenBucket.{one, second_ns}
use cppload_workflow.Scenario.Engine.{Settings, resolve_url, check_sla}
use cppload_workflow.Scenario.Engine.Targets.{resolve_url_port}

abbrev site : Bytes
site = bytes "https://h:8443/x"

abbrev settings : Settings
settings = record {
  bucket = record { rate = 100 * second_ns; burst = 100 * one; tokens = 0; last_refill = 7 };
  target_rps = 100;
  max_duration_ms = 0;
}

resolve_url_port_example :
    (1 ≤ (resolve_url site false).port)
    × ((resolve_url site false).port ≤ 65535)
    × ((p : ℕ)
        → 1 ≤ p
        → p ≤ 65535
        → (parse_url site).port ≡ to_string p
        → ((resolve_url site false).port ≡ p) × ((resolve_url site false).error ≡ none))
resolve_url_port_example = resolve_url_port site false

within : check_sla ltb 2 400_000 10 500 ≡ true
unfolding check_sla
within = refl
