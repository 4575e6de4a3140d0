-- ===== src/Scenario/Load.antt =====
-- include/cppload/scenario/engine.hpp and core/scenario/yaml_parser.cpp: `parse_config_file`. The file is
-- given by its text, none where it cannot be opened.
mod Reader
pub mod Frames
pub mod Targets
pub mod Tests
unfoldable pub use Reader.*
use cppload_workflow.Prelude.{
  ℕ, Bool, true, false, not, ◌&&◌, Option, none, some, List, [], ◌∷◌, ◌++◌, Bytes, bytes, is_empty,
  if◌then◌else◌, Dict, insert, Result, ok, err, Double,
}
use cppload_workflow.Scenario.Config.{HttpStep, Stage, Scenario, ScenarioConfig}
use cppload_workflow.Scenario.Units.{
  parse_duration, parse_bytesize, parse_error_rate, parse_latency,
}
use cppload_workflow.Scenario.Yaml.{
  Node, null, scalar, sequence, mapping, Nodes, Entries, no_entries, entry_cons, substitute_env,
}

-- `ScenarioConfig` of the source: what validation and the engine read of it is the field `scenario`.
pub record ConfigFile (F : Type 0) : Type 0 where
  pub version : Bytes
  pub scenario : ScenarioConfig
  pub protocol : Bytes
  pub verify : Bool
  pub max_body_bytes : ℕ
  pub auth_type : Bytes
  pub token_endpoint : Bytes
  pub client_id : Bytes
  pub client_secret : Bytes
  pub prometheus_enabled : Bool
  pub prometheus_port : ℕ
  pub otlp_endpoint : Bytes
  pub sample_rate : F
  pub log_level : Bytes
  pub log_format : Bytes
  pub max_error_rate : F
  pub max_p99_latency : ℕ

abbrev pub default_step : HttpStep
default_step = record {
  method = bytes "GET";
  path = [];
  body = [];
  headers = [];
  use_tls = false;
  assertions = [];
}

abbrev pub default_stage : Stage
default_stage = record { name = []; duration = 0; target_rps = 0; concurrent_users = 10 }

abbrev pub default_scenario : Scenario
default_scenario = record { name = []; weight = 100; steps = [] }

-- An object of its own is filled and then added to another.
unfoldable pub build : {S A : Type 0} → A → Writer A → (A → S → S) → Writer S
build a fill add s =
    let (r, a') = fill a in elim r [ err e ↦ (err e, s) | ok _ ↦ (ok tt, add a' s) ]

abbrev pub is_map : Node → Bool
is_map null = false
is_map (scalar s) = false
is_map (sequence nodes) = false
is_map (mapping fields) = true

abbrev pub is_scalar : Node → Bool
is_scalar null = false
is_scalar (scalar s) = true
is_scalar (sequence nodes) = false
is_scalar (mapping fields) = false

-- What the function returns, or the exception that leaves it.
pub data Outcome : Type 0 where
  loaded : Outcome
  refused : Bytes → Outcome
  escaped : Bytes → Outcome

abbrev pub push_stage : {F : Type 0} → Stage → ConfigFile F → ConfigFile F
push_stage stage c = record c {
  scenario = record c.scenario { stages = c.scenario.stages ++ (stage ∷ []) };
}

abbrev pub push_scenario : {F : Type 0} → Scenario → ConfigFile F → ConfigFile F
push_scenario sc c = record c {
  scenario = record c.scenario { scenarios = c.scenario.scenarios ++ (sc ∷ []) };
}

unfoldable pub missing_message : Bytes → Bytes
missing_message missing =
    bytes "target.base_url is empty; environment variable \"${"
    ++ missing
    ++ bytes "}\" is not set and has no default"

module _ {F : Type 0} (Y : YamlLibrary F) (D : Double F) (stod : Bytes → Option F) where
  unfoldable pub stage_fields : Node → Writer Stage
  stage_fields st =
      read Y st (bytes "stage") Y.as_text (λ v s. record s { name = v })
      >> read Y st (bytes "duration") Y.as_text
          (λ v s. record s { duration = parse_duration D stod v })
      >> read Y st (bytes "target_rps") Y.as_uint32 (λ v s. record s { target_rps = v })
      >> read Y st (bytes "concurrent_users") Y.as_uint32 (λ v s. record s { concurrent_users = v })

  -- A body that is no scalar is written out.
  unfoldable pub read_body : Node → Writer HttpStep
  read_body body s =
      if is_scalar body
      then elim (Y.as_text body) [ err e ↦ (err e, s) | ok v ↦ (ok tt, record s { body = v }) ]
      else (ok tt, record s { body = Y.emit body })

  -- The value is converted before the key.
  unfoldable pub read_header : Node → Node → Writer HttpStep
  read_header k v s = elim (Y.as_text v) [
    | err e ↦ (err e, s)
    | ok value ↦ elim (Y.as_text k) [
      | err e ↦ (err e, s)
      | ok name ↦ (ok tt, record s { headers = insert name value s.headers })
    ]
  ]

  unfoldable pub read_headers : Entries → Writer HttpStep
  read_headers no_entries = skip
  read_headers (entry_cons k v fields) = read_header k v >> read_headers fields

  unfoldable pub read_assertion : Node → Writer HttpStep
  read_assertion a s =
      if is_scalar a
      then elim (Y.as_text a) [
        | err e ↦ (err e, s)
        | ok v ↦ (ok tt, record s { assertions = s.assertions ++ (v ∷ []) })
      ]
      else (ok tt, s)

  unfoldable pub http_fields : Node → Writer HttpStep
  http_fields http =
      read Y http (bytes "method") Y.as_text (λ v s. record s { method = v })
      >> read Y http (bytes "path") Y.as_text (λ v s. record s { path = v })
      >> when_at Y http (bytes "body") read_body
      >> when_at Y http (bytes "headers") (λ h. elim h [
        | null ↦ skip
        | scalar s ↦ skip
        | sequence nodes ↦ skip
        | mapping fields ↦ read_headers fields
      ])
      >> for_sequence Y http (bytes "assertions") read_assertion

  unfoldable pub read_step : Node → Writer Scenario
  read_step step_node = when_at Y step_node (bytes "http") λ http.
      build default_step (http_fields http) (λ step s. record s { steps = s.steps ++ (step ∷ []) })

  unfoldable pub scenario_fields : Node → Writer Scenario
  scenario_fields sc =
      read Y sc (bytes "name") Y.as_text (λ v s. record s { name = v })
      >> read Y sc (bytes "weight") Y.as_uint32 (λ v s. record s { weight = v })
      >> for_sequence Y sc (bytes "steps") read_step

  unfoldable pub read_target : Node → Node → Writer (ConfigFile F)
  read_target root target =
      read Y root (bytes "version") Y.as_text (λ v c. record c { version = v })
      >> read Y root (bytes "test_id") Y.as_text
          (λ v c. record c { scenario = record c.scenario { test_id = v } })
      >> read Y target (bytes "base_url") Y.as_text
          (λ v c. record c { scenario = record c.scenario { base_url = v } })
      >> read Y target (bytes "protocol") Y.as_text (λ v c. record c { protocol = v })
      >> when_at Y target (bytes "tls")
          (λ tls. read Y tls (bytes "verify") Y.as_bool (λ v c. record c { verify = v }))
      >> read Y target (bytes "max_body_bytes") Y.as_text
          (λ v c. record c { max_body_bytes = parse_bytesize D stod v })

  unfoldable pub read_profile : Node → Writer (ConfigFile F)
  read_profile root =
      for_sequence Y root (bytes "load_profile")
        (λ st. build default_stage (stage_fields st) push_stage)

  unfoldable pub read_scenarios : Node → Writer (ConfigFile F)
  read_scenarios root =
      for_sequence Y root (bytes "scenarios")
        (λ sc. build default_scenario (scenario_fields sc) push_scenario)

  unfoldable pub read_authentication : Node → Writer (ConfigFile F)
  read_authentication root = when_at Y root (bytes "authentication") λ auth.
      read Y auth (bytes "type") Y.as_text (λ v c. record c { auth_type = v })
      >> read Y auth (bytes "token_endpoint") Y.as_text (λ v c. record c { token_endpoint = v })
      >> when_at Y auth (bytes "client_credentials") (λ cc.
        read Y cc (bytes "client_id") Y.as_text (λ v c. record c { client_id = v })
        >> read Y cc (bytes "client_secret") Y.as_text (λ v c. record c { client_secret = v }))

  unfoldable pub read_observability : Node → Writer (ConfigFile F)
  read_observability root = when_at Y root (bytes "observability") λ obs.
      when_at Y obs (bytes "metrics") (λ m. when_at Y m (bytes "prometheus") (λ pm.
        read Y pm (bytes "enabled") Y.as_bool (λ v c. record c { prometheus_enabled = v })
        >> read Y pm (bytes "port") Y.as_uint16 (λ v c. record c { prometheus_port = v })))
      >> when_at Y obs (bytes "tracing") (λ tr.
        read Y tr (bytes "otlp_endpoint") Y.as_text (λ v c. record c { otlp_endpoint = v })
        >> read Y tr (bytes "sample_rate") Y.as_double (λ v c. record c { sample_rate = v }))
      >> when_at Y obs (bytes "logging") (λ lg.
        read Y lg (bytes "level") Y.as_text (λ v c. record c { log_level = v })
        >> read Y lg (bytes "format") Y.as_text (λ v c. record c { log_format = v }))

  unfoldable pub read_sla : Node → Writer (ConfigFile F)
  read_sla root = when_at Y root (bytes "sla") λ sla.
      read Y sla (bytes "error_rate") Y.as_text
        (λ v c. record c { max_error_rate = parse_error_rate D stod v })
      >> read Y sla (bytes "p99_latency") Y.as_text
          (λ v c. record c { max_p99_latency = parse_latency D stod v })

  -- The sections behind the target, outside the `try`.
  unfoldable pub read_sections : Node → Writer (ConfigFile F)
  read_sections root =
      read_profile root
      >> read_scenarios root
      >> read_authentication root
      >> read_observability root
      >> read_sla root

  unfoldable pub parse_sections : Node → ConfigFile F → Outcome × ConfigFile F
  parse_sections root c =
      let (r, c') = read_sections root c in (elim r [ ok _ ↦ loaded | err e ↦ escaped e ], c')

  unfoldable pub parse_target : Node → Node → Bytes → ConfigFile F → Outcome × ConfigFile F
  parse_target root target missing c =
      if not (is_map target)
      then (refused (bytes "target must be a mapping"), c)
      else (let (r, c') = read_target root target c in
          elim r [
            | err e ↦ (refused (bytes "YAML target parse error: " ++ e), c')
            | ok _ ↦
                if not (is_empty missing) && is_empty c'.scenario.base_url
                then (refused (missing_message missing), c')
                else parse_sections root c'
          ])

  unfoldable pub parse_root : Node → Bytes → ConfigFile F → Outcome × ConfigFile F
  parse_root root missing c =
      if not (is_map root)
      then (refused (bytes "YAML root must be a mapping"), c)
      else elim (Y.at root (bytes "target")) [
        | err e ↦ (escaped e, c)
        | ok none ↦ (refused (bytes "target section is required"), c)
        | ok (some target) ↦ parse_target root target missing c
      ]

  unfoldable pub parse_config_file :
      (Bytes → Option Bytes) → Bytes → Option Bytes → ConfigFile F → Outcome × ConfigFile F
  parse_config_file getenv path none c = (refused (bytes "Cannot open config file: " ++ path), c)
  parse_config_file getenv path (some text) c = elim (Y.load text) [
    | err e ↦ (refused (bytes "YAML parse error: " ++ e), c)
    | ok document ↦
        let (root, missing) = substitute_env getenv document [] in parse_root root missing c
  ]
