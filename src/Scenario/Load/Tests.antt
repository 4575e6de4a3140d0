-- ===== src/Scenario/Load/Tests.antt =====
-- core/scenario/yaml_parser.cpp, `parse_config_file` at concrete inputs.
use cppload_workflow.Prelude.{
  ℕ, ◌≡◌, refl, true, false, Option, none, some, [], ◌∷◌, Bytes, bytes, eqb, Result, ok, err, whole,
  find_word, starts_with, if◌then◌else◌, read_digits, is_empty,
}
use cppload_workflow.Scenario.Assertions.{span}
use cppload_workflow.Scenario.Yaml.{
  Node, null, scalar, sequence, mapping, no_nodes, node_cons, Entries, no_entries, entry_cons,
  substitute_env, substitute_text, substitute_loop,
}
use cppload_workflow.Scenario.Load.{
  YamlLibrary, ConfigFile, loaded, escaped, parse_config_file, parse_root, parse_target,
  parse_sections, read_target, read_sections, read_profile, read_scenarios, read_authentication,
  read_observability, read_sla, stage_fields, build, when_at, read, for_each, for_nodes,
  for_sequence, ◌>>◌,
}
use cppload_workflow.Scenario.Load.Targets.{IsMapping, IsResolved, parse_config_file_loaded}

entry_at : Bytes → Entries → Option Node
unfolding eqb
entry_at key no_entries = none
entry_at key (entry_cons (scalar k) v fields) = if eqb k key then some v else entry_at key fields
entry_at key (entry_cons null v fields) = entry_at key fields
entry_at key (entry_cons (sequence nodes) v fields) = entry_at key fields
entry_at key (entry_cons (mapping inner) v fields) = entry_at key fields

node_at : Node → Bytes → Result (Option Node) Bytes
node_at null key = ok none
node_at (scalar s) key = err (bytes "bad subscript")
node_at (sequence nodes) key = ok none
node_at (mapping fields) key = ok (entry_at key fields)

text_of : Node → Result Bytes Bytes
text_of null = err (bytes "bad conversion")
text_of (scalar s) = ok s
text_of (sequence nodes) = err (bytes "bad conversion")
text_of (mapping fields) = err (bytes "bad conversion")

number_of : Node → Result ℕ Bytes
unfolding read_digits
number_of null = err (bytes "bad conversion")
number_of (scalar s) =
    if is_empty (span (λ c. if eqb (c ∷ []) (bytes "x") then false else true) s).1
    then ok (read_digits 0 s)
    else err (bytes "bad conversion")
number_of (sequence nodes) = err (bytes "bad conversion")
number_of (mapping fields) = err (bytes "bad conversion")

abbrev library : Node → YamlLibrary ℕ
library document = record {
  load = λ text. ok document;
  at = node_at;
  as_text = text_of;
  as_bool = λ v. ok true;
  as_uint32 = number_of;
  as_uint16 = number_of;
  as_double = number_of;
  emit = λ v. [];
}

abbrev no_env : Bytes → Option Bytes
no_env name = none

abbrev number : Bytes → Option ℕ
number s = none

abbrev empty_config : ConfigFile ℕ
empty_config = record {
  version = [];
  scenario = record { test_id = []; base_url = []; stages = []; scenarios = [] };
  protocol = bytes "http1.1";
  verify = true;
  max_body_bytes = 0;
  auth_type = [];
  token_endpoint = [];
  client_id = [];
  client_secret = [];
  prometheus_enabled = false;
  prometheus_port = 9090;
  otlp_endpoint = [];
  sample_rate = 0;
  log_level = bytes "info";
  log_format = bytes "json";
  max_error_rate = 10;
  max_p99_latency = 500;
}

abbrev target : Node
target = mapping (entry_cons (scalar (bytes "base_url")) (scalar (bytes "h")) no_entries)

abbrev document : Node
document = mapping (entry_cons (scalar (bytes "target")) target no_entries)

document_loaded :
    (parse_config_file (library document) whole number no_env [] (some []) empty_config).0 ≡ loaded
unfolding parse_config_file parse_root parse_target parse_sections read_target read_sections
    read_profile read_scenarios read_authentication read_observability read_sla when_at read
    for_sequence ◌>>◌ node_at entry_at text_of substitute_env substitute_text substitute_loop eqb
    bytes find_word starts_with
document_loaded = refl

parse_config_file_loaded_example :
    (text : Bytes) × (d : Node) × (t : Node) × (some [] ≡ some text)
    × ((library document).load text ≡ ok d)
    × (let (root, missing) = substitute_env no_env d [] in
        IsMapping root
        × ((library document).at root (bytes "target") ≡ ok (some t))
        × IsMapping t
        × IsResolved missing
            (parse_config_file (library document) whole number no_env [] (some []) empty_config).1)
parse_config_file_loaded_example =
    parse_config_file_loaded (library document) whole number no_env [] (some []) empty_config
      document_loaded

-- A number of users that is no number: the exception of the conversion leaves the function.
abbrev stage : Node
stage = mapping (entry_cons (scalar (bytes "concurrent_users")) (scalar (bytes "x")) no_entries)

abbrev bad_profile : Node
bad_profile = mapping (
    entry_cons (scalar (bytes "target")) target
      (entry_cons (scalar (bytes "load_profile")) (sequence (node_cons stage no_nodes)) no_entries))

profile_escapes :
    (parse_config_file (library bad_profile) whole number no_env [] (some []) empty_config).0
    ≡ escaped (bytes "bad conversion")
unfolding parse_config_file parse_root parse_target parse_sections read_target read_sections
    read_profile when_at read for_each for_nodes for_sequence build stage_fields ◌>>◌ node_at
    entry_at text_of number_of substitute_env substitute_text substitute_loop eqb bytes find_word
    starts_with span
profile_escapes = refl
