-- ===== src/Scenario/Yaml.antt =====
-- core/scenario/yaml_parser.cpp: the nodes of a document and `substitute_env`. `std::getenv` is an argument.
pub mod Rounds
pub mod Templates
pub mod Tests
use cppload_workflow.Prelude.{
  ℕ, zero, suc, ◌+◌, Bool, true, false, not, ◌&&◌, ◌||◌, Option, none, some, List, [], ◌∷◌, ◌++◌,
  ◌==◌, if◌then◌else◌, length, take, drop, Bytes, bytes, is_empty, find, find_word, is_alnum,
}

-- A node of yaml-cpp; the keys of a map are nodes too.
mutual
  pub data Node : Type 0 where
    null : Node
    scalar : Bytes → Node
    sequence : Nodes → Node
    mapping : Entries → Node

  pub data Nodes : Type 0 where
    no_nodes : Nodes
    node_cons : Node → Nodes → Nodes

  pub data Entries : Type 0 where
    no_entries : Entries
    entry_cons : Node → Node → Entries → Entries

-- `isalnum(c) || c == '_'`
abbrev pub is_name_byte : ℕ → Bool
is_name_byte c = is_alnum c || c == b'_'

abbrev pub all_name_bytes : Bytes → Bool
all_name_bytes [] = true
all_name_bytes (c ∷ s) = is_name_byte c && all_name_bytes s

unfoldable pub valid_name : Bytes → Bool
valid_name name = not (is_empty name) && all_name_bytes name

abbrev pub text_or_empty : Option Bytes → Bytes
text_or_empty none = []
text_or_empty (some s) = s

-- The name of the variable and the default, which stands behind `:-`.
unfoldable pub split_expr : Bytes → Bytes × Option Bytes
unfolding bytes
split_expr expr = elim (find_word (bytes ":-") expr) [
  | none ↦ (expr, none)
  | some colon ↦ (take colon expr, some (drop (colon + 2) expr))
]

module _ (getenv : Bytes → Option Bytes) where
  unfoldable pub env_value : Bytes → Bytes
  env_value var_name = if valid_name var_name then text_or_empty (getenv var_name) else []

  -- What stands for an expression, and the first variable that is missing after it.
  unfoldable pub substitute_var : Bytes → Option Bytes → Bytes → Bytes × Bytes
  substitute_var var_name default missing =
      let env_val = env_value var_name in
      let no_default = elim default as (λ _. Bool) [ none ↦ true | some _ ↦ false ] in
      (
        if is_empty env_val then text_or_empty default else env_val,
        if valid_name var_name && is_empty env_val && no_default && is_empty missing
            then var_name
            else missing,
      )

  unfoldable pub substitute_expr : Bytes → Bytes → Bytes × Bytes
  substitute_expr expr missing =
      let (var_name, default) = split_expr expr in substitute_var var_name default missing

  -- The loop, on the text from `pos` on; `none` is a run without enough rounds.
  unfoldable pub substitute_loop : ℕ → Bytes → Bytes → Option (Bytes × Bytes)
  unfolding bytes
  substitute_loop zero rest missing = none
  substitute_loop (suc fuel) rest missing =
      if is_empty rest then some ([], missing) else elim (find_word (bytes "${") rest) [
        | none ↦ some (rest, missing)
        | some dollar ↦
            let after = drop 2 (drop dollar rest) in
            elim (find b'}' after) [
              | none ↦ some (rest, missing)
              | some end' ↦
                  let (value, missing') = substitute_expr (take end' after) missing in
                  elim (substitute_loop fuel (drop (end' + 1) after) missing') [
                    | none ↦ none
                    | some (result, missing'') ↦
                        some (take dollar rest ++ value ++ result, missing'')
                  ]
            ]
      ]

  unfoldable pub substitute_text : Bytes → Bytes → Option (Bytes × Bytes)
  substitute_text val missing = substitute_loop (suc (length val)) val missing

  -- The rounds are always enough, so the text that is left as it is does not occur.
  abbrev pub substituted : Bytes → Bytes → Bytes × Bytes
  substituted val missing = elim (substitute_text val missing) [
    | none ↦ (val, missing)
    | some r ↦ r
  ]

  -- The values of a map are substituted, its keys are not.
  unfoldable mutual
    pub substitute_env : Node → Bytes → Node × Bytes
    substitute_env null missing = (null, missing)
    substitute_env (scalar val) missing =
        let (result, missing') = substituted val missing in (scalar result, missing')
    substitute_env (sequence nodes) missing =
        let (nodes', missing') = substitute_nodes nodes missing in (sequence nodes', missing')
    substitute_env (mapping fields) missing =
        let (fields', missing') = substitute_entries fields missing in (mapping fields', missing')

    pub substitute_nodes : Nodes → Bytes → Nodes × Bytes
    substitute_nodes no_nodes missing = (no_nodes, missing)
    substitute_nodes (node_cons node nodes) missing =
        let (node', missing') = substitute_env node missing in
        let (nodes', missing'') = substitute_nodes nodes missing' in
        (node_cons node' nodes', missing'')

    pub substitute_entries : Entries → Bytes → Entries × Bytes
    substitute_entries no_entries missing = (no_entries, missing)
    substitute_entries (entry_cons k v fields) missing =
        let (v', missing') = substitute_env v missing in
        let (fields', missing'') = substitute_entries fields missing' in
        (entry_cons k v' fields', missing'')
