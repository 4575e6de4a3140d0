-- ===== src/Lib.antt =====
-- volley (namespace cppload): a verification library for the load generator.
--
-- A scenario engine reads a YAML scenario, drives worker threads at a rate that a token bucket limits, sends
-- requests through a pool of keep-alive clients and records each response in a metrics collector; a control
-- plane keeps projects, runs and policies and evaluates policies on the results of runs.
--
-- Core.TokenBucket models core/token_bucket.cpp and include/cppload/core/token_bucket.hpp: `refill`,
-- `try_consume`, `consume`, `try_consume_for`, `set_rate`, `set_burst`, `tokens_available`. Times are
-- nanoseconds, rates are billionths of a token a second and tokens are counted in 10^-18, so a rate below one
-- token a second is covered, and exact products stand for the rounded `double` values. The calls that wait
-- are split where they give up the mutex. `consume` takes rounds as fuel; one more than the seconds in which
-- the rate yields a token is enough.
-- Core.Url models include/cppload/core/url_parse.hpp and url_encode.hpp over lists of bytes. The loop of
-- `sanitize_path` takes one more round than its text has bytes, which is enough.
-- Net.Pool models core/net/connection_pool.cpp; Net.Pool.Ownership adds the borrowers that
-- core/scenario/engine.cpp makes of its worker threads (`ClientGuard`).
-- Platform.Models and Platform.Repository model include/cppload/platform/models.hpp, repository.hpp and
-- core/platform/in_memory_repo.cpp; Platform.Policy models core/platform/policy.cpp. Times are numbers, the
-- clocks and the random generator are given to each call (`Env`), and `double` is any type with the
-- operations of Prelude.Floating.
-- Platform.Json and Platform.Server model core/platform/http_server.cpp. The JSON library is the parameter
-- `JsonLibrary`; a handler is a function from the repository to what it throws or answers and the repository
-- it leaves. Platform.Server.Interface says which calls of the repository a request asks for. Sockets, the
-- start and the stop of the server are left out.
-- Scenario.Assertions and Scenario.Choice model the helpers of core/scenario/engine.cpp that read durations,
-- evaluate assertions and pick a scenario; Scenario.Validation models `validate_scenario_config` of
-- core/scenario/yaml_parser.cpp, and Scenario.Config what they read of include/cppload/scenario/engine.hpp.
-- Metrics.Sharded models core/metrics/sharded_collector.cpp, one call after another: the interleavings of its
-- relaxed atomics are not modelled. Counters are modulo 2^64.
-- Metrics.Collector models the ring of core/metrics/collector.cpp, one call after another; its loop takes rounds
-- as fuel, of which two are enough.
-- Scenario.Engine models `resolve_url`, the settings, `validate` and `check_sla` of core/scenario/engine.cpp.
-- Scenario.Stages models the stages of its `run`; what happens while the workers of a stage run is an argument.
-- Scenario.Units models the durations, rates and sizes of core/scenario/yaml_parser.cpp; `std::stod` is an
-- argument.
--
--
-- Core.Errors models include/cppload/error.hpp. Net.Network holds the calls of Boost.Asio and Boost.Beast as a
-- parameter: a world that each call may change, with nothing assumed of it; deadlines are part of that world.
-- Net.Network.Writes counts the requests that are sent. Net.Protocol, Net.HttpMessage, Net.Http, Net.Raw and
-- Net.WebSocket model include/cppload/net/protocol.hpp and utils.hpp, core/net/http_client.cpp,
-- tcp_raw_client.cpp and ws_client.cpp, one request of a client after another; a callback is the rest of the
-- function that starts it. Security.Post and Security.Auth model core/security/auth_provider.cpp, Vault.Requests,
-- Vault.Answers and Vault.Client core/vault/vault_client.cpp, over the JSON library as the parameter `Json`.
--
-- Scenario.Yaml and Scenario.Load model the rest of core/scenario/yaml_parser.cpp: `substitute_env` over nodes, and
-- `parse_config_file` with yaml-cpp as the parameter `YamlLibrary`, whose exceptions are texts. The loop of
-- `substitute_env` takes one round more than its text has bytes, which is enough. Otel.Tracer models
-- core/otel/otlp_exporter.cpp; a call of the program and a round of the exporting thread are steps, and the loop of
-- the thread is followed from the moment that it is told to stop, with rounds as fuel.
--
-- Core.Redact models include/cppload/core/redact.hpp; its loop takes one more round than the text has bytes, which
-- is enough.
-- Scenario.Worker models a worker thread of core/scenario/engine.cpp, round by round: the clock, the answers and what
-- the other threads do to the bucket are arguments of a round, the provider of tokens and its network are composed.
-- Net.Factory, Security.TlsContext, Core.ContextPool and Metrics.Exporter model core/net/protocol_factory.cpp,
-- core/security/tls_context.cpp, core/io_context_pool.cpp and core/metrics/prometheus_exporter.cpp.
-- Metrics.Embedded models core/metrics/prometheus_exporter_embedded.cpp.
-- Tools.CommandLine models the arguments that tools/main.cpp reads.
-- Not modelled: the worker programs and what tools/main.cpp does with its arguments. Sockets, TLS handshakes and
-- threads belong to Boost and OpenSSL.
pub mod Prelude
pub mod Core
pub mod Metrics
pub mod Net
pub mod Otel
pub mod Platform
pub mod Scenario
pub mod Security
pub mod Tools
pub mod Vault
