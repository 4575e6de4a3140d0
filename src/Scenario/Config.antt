-- ===== src/Scenario/Config.antt =====
-- include/cppload/scenario/engine.hpp: the parts of a scenario that the engine and its validation read.
-- Durations are milliseconds; the other fields are in `ConfigFile` of Load.antt.
use cppload_workflow.Prelude.{ℕ, List, Bytes, Dict, Bool}

pub record HttpStep : Type 0 where
  pub method : Bytes
  pub path : Bytes
  pub body : Bytes
  pub headers : Dict Bytes
  pub use_tls : Bool
  pub assertions : List Bytes

pub record Stage : Type 0 where
  pub name : Bytes
  pub duration : ℕ
  pub target_rps : ℕ
  pub concurrent_users : ℕ

pub record Scenario : Type 0 where
  pub name : Bytes
  pub weight : ℕ
  pub steps : List HttpStep

pub record ScenarioConfig : Type 0 where
  pub test_id : Bytes
  pub base_url : Bytes
  pub stages : List Stage
  pub scenarios : List Scenario
