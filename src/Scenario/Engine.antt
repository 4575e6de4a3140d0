-- ===== src/Scenario/Engine.antt =====
-- core/scenario/engine.cpp: `resolve_url`, the settings of `ScenarioEngine::Impl`, `validate` and
-- `check_sla`.
pub mod Targets
pub mod Tests
use cppload_workflow.Prelude.{
  ℕ, zero, suc, ◌+◌, ◌-◌, ◌*◌, ◌%◌, Bool, true, false, not, ◌&&◌, ◌||◌, Option, none, some, List,
  [], ◌∷◌, ◌++◌, ltb, leb, ◌==◌, if◌then◌else◌, Bytes, bytes, is_empty, is_digit, read_digits,
  Signed, nonneg, negative, max, Double,
}
use cppload_workflow.Core.TokenBucket.{TokenBucket, one, second_ns, set_rate, set_burst, keep}
use cppload_workflow.Core.Url.{UrlParts, parse_url}
use cppload_workflow.Scenario.Config.{ScenarioConfig}
use cppload_workflow.Scenario.Assertions.{span, is_space}

abbrev pub max_ulong : ℕ
max_ulong = 18446744073709551615

unfoldable pub stoul_digits : Bool → Bytes → Option ℕ
stoul_digits is_negative s =
    let digits = (span is_digit s).0 in
    let n = read_digits 0 digits in
    if is_empty digits
    then none
    else if ltb max_ulong n
    then none
    else if is_negative
    then some ((max_ulong + 1 - n) % (max_ulong + 1))
    else some n

-- `std::stoul`: `none` is its exception; a negative number wraps around.
unfoldable pub stoul_sign : Bytes → Option ℕ
stoul_sign [] = none
stoul_sign (c ∷ s) =
    if c == b'-'
    then stoul_digits true s
    else if c == b'+'
    then stoul_digits false s
    else stoul_digits false (c ∷ s)

unfoldable pub stoul : Bytes → Option ℕ
stoul s = stoul_sign (span is_space s).1

-- What `resolve_url` writes: the target, and the error that it leaves, if any.
pub record Target : Type 0 where
  pub host : Bytes
  pub port : ℕ
  pub use_tls : Bool
  pub error : Option Bytes

abbrev pub plain_port : Bool → ℕ
plain_port use_tls = if use_tls then 443 else 80

-- The port that is given as text, and the error.
unfoldable pub port_of : Bytes → Bool → ℕ × Option Bytes
port_of port use_tls = elim (stoul port) [
  | none ↦ (plain_port use_tls, some (bytes "invalid port: " ++ port))
  | some p ↦
      if p == 0 || ltb 65535 p
      then (plain_port use_tls, some (bytes "port out of range: " ++ port))
      else (p, none)
]

unfoldable pub resolve_url : Bytes → Bool → Target
resolve_url url step_tls =
    let parts = parse_url url in
    let use_tls = parts.tls || step_tls in
    let (port, error) =
      if is_empty parts.port then (plain_port use_tls, none) else port_of parts.port use_tls in
    record { host = parts.host; port = port; use_tls = use_tls; error = error }

pub record Settings : Type 0 where
  pub bucket : TokenBucket
  pub target_rps : ℕ
  pub max_duration_ms : ℕ

abbrev pub effective_rps : ℕ → ℕ
effective_rps rps = if ltb 0 rps then rps else 100

-- The bucket holds a second of tokens, and 100 at least.
unfoldable pub set_target_rps : Settings → ℕ → ℕ → Settings
set_target_rps e rps now =
    let rate = effective_rps rps in
    let b = keep e.bucket (set_rate e.bucket (nonneg (rate * second_ns)) now) in
    let b' = keep b (set_burst b (nonneg (max (100 * one) (rate * one))) now) in
    record e { bucket = b'; target_rps = rate }

unfoldable pub set_max_duration : Settings → Signed → Settings
set_max_duration e (nonneg n) = record e { max_duration_ms = n }
set_max_duration e negative = record e { max_duration_ms = 0 }

-- `none` is success, `some` holds the message.
unfoldable pub validate : ScenarioConfig → Option Bytes
validate cfg =
    if is_empty cfg.test_id
    then some (bytes "test_id is required")
    else if is_empty cfg.base_url
    then some (bytes "target.base_url is required")
    else none

-- The error rate and the p99 of a run against the limits; milliseconds are scaled modulo 2^64.
unfoldable pub check_sla {ℓ} : {F : Type ℓ} → (F → F → Bool) → F → ℕ → F → ℕ → Bool
check_sla lt error_rate p99_latency_us max_error_rate max_p99_latency =
    if lt max_error_rate error_rate
    then false
    else if ltb (max_p99_latency * 1000 % (max_ulong + 1)) p99_latency_us
    then false
    else true
