-- ===== src/Prelude/Json.antt =====
-- What core/security/auth_provider.cpp, core/vault/vault_client.cpp and core/otel/otlp_exporter.cpp call of
-- nlohmann::json, a parameter.
use cppload_workflow.Prelude.Text.{Bytes}
use cppload_workflow.Prelude.Outcome.{Result, Signed}
use Prim.Native.Nat.{ℕ}
use mathlib.Core.Bool.{Bool}
use mathlib.Core.List.{List}

-- A `json::exception`.
pub data JsonException : Type 0 where
  json_exception : JsonException

pub record Json (J : Type 0) : Type 0 where
  pub parse : Bytes → Result J JsonException
  -- `j.value(key, "")`
  pub value : J → Bytes → Result Bytes JsonException
  -- `j.value(key, core::kDefaultTokenExpirySec)`
  pub expiry_value : J → Bytes → Result Signed JsonException
  pub contains : J → Bytes → Bool
  -- `j[key]`
  pub field : J → Bytes → Result J JsonException
  pub is_object : J → Bool
  pub get_text : J → Result Bytes JsonException
  -- The keys and the values of an object, in order.
  pub items : J → List (Bytes × J)
  pub text_json : Bytes → J
  pub number_json : ℕ → J
  pub array : List J → J
  pub object : List (Bytes × J) → J
  -- The value of a `json` to which nothing was written.
  pub null : J
  pub dump : J → Result Bytes JsonException
