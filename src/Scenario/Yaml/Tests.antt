-- ===== src/Scenario/Yaml/Tests.antt =====
-- core/scenario/yaml_parser.cpp, `substitute_env` at concrete inputs.
use cppload_workflow.Prelude.{
  ◌≡◌, refl, Option, none, some, [], ◌∷◌, Bytes, bytes, eqb, find, find_word, starts_with,
  if◌then◌else◌, List,
}
use cppload_workflow.Scenario.Yaml.{
  substitute_text, substitute_loop, substitute_expr, substitute_var, split_expr, env_value,
  valid_name,
}
use cppload_workflow.Scenario.Yaml.Templates.{
  Piece, literal, variable, format, substitute_text-format,
}
use cppload_workflow.Scenario.Yaml.Rounds.{substitute_text_returns}

abbrev env : Bytes → Option Bytes
unfolding eqb bytes
env name = if eqb name (bytes "HOST") then some (bytes "h1") else none

abbrev pieces : List Piece
pieces =
    literal (b'a' ∷ b'/' ∷ [])
    ∷ variable (b'X' ∷ []) none
    ∷ variable (b'Y' ∷ []) (some (b'$' ∷ b'y' ∷ []))
    ∷ variable (b'Z' ∷ []) none
    ∷ []

replaced :
    substitute_text env (bytes "http://${HOST}:${PORT:-80}/${KEY}") []
    ≡ some (bytes "http://h1:80/", bytes "KEY")
unfolding substitute_text substitute_loop substitute_expr substitute_var split_expr env_value
    valid_name bytes find find_word starts_with eqb
replaced = refl

substitute_text-format_example :
    substitute_text env (format pieces) [] ≡ some (b'a' ∷ b'/' ∷ b'$' ∷ b'y' ∷ [], b'X' ∷ [])
unfolding eqb env
substitute_text-format_example = substitute_text-format env pieces [] (
  (refl, (refl, tt)),
  (((refl, tt), tt), (((refl, tt), (refl, (refl, tt))), (((refl, tt), tt), tt))),
)

substitute_text_returns_example :
    (r : Bytes × Bytes) × (substitute_text env (bytes "${") [] ≡ some r)
substitute_text_returns_example = substitute_text_returns env (bytes "${") []
