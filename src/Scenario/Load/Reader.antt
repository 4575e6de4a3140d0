-- ===== src/Scenario/Load/Reader.antt =====
-- core/scenario/yaml_parser.cpp: the calls of yaml-cpp, a parameter, and the writes that are made of values
-- that are there. An exception is its text.
use cppload_workflow.Prelude.{ℕ, Bool, Option, none, some, Bytes, Result, ok, err}
use cppload_workflow.Scenario.Yaml.{
  Node, null, scalar, sequence, mapping, Nodes, no_nodes, node_cons,
}

pub record YamlLibrary (F : Type 0) : Type 0 where
  pub load : Bytes → Result Node Bytes
  -- `node[key]`, with none for a node that is not defined.
  pub at : Node → Bytes → Result (Option Node) Bytes
  pub as_text : Node → Result Bytes Bytes
  pub as_bool : Node → Result Bool Bytes
  -- `as<uint32_t>` and `as<uint16_t>`
  pub as_uint32 : Node → Result ℕ Bytes
  pub as_uint16 : Node → Result ℕ Bytes
  pub as_double : Node → Result F Bytes
  -- `ss << node`
  pub emit : Node → Bytes

-- A part of the function that writes to an object, and may throw.
abbrev pub Writer : Type 0 → Type 0
Writer S = S → Result (Unit {0}) Bytes × S

infixl 5 ◌>>◌
unfoldable pub ◌>>◌ : {S : Type 0} → Writer S → Writer S → Writer S
◌>>◌ m k s = let (r, s') = m s in elim r [ ok _ ↦ k s' | err e ↦ (err e, s') ]

abbrev pub skip : {S : Type 0} → Writer S
skip s = (ok tt, s)

abbrev pub raise : {S : Type 0} → Bytes → Writer S
raise e s = (err e, s)

module _ {F : Type 0} (Y : YamlLibrary F) where
  -- `if (node[key])` and what is done with the node that is there.
  unfoldable pub when_at : {S : Type 0} → Node → Bytes → (Node → Writer S) → Writer S
  when_at node key f = elim (Y.at node key) [ err e ↦ raise e | ok none ↦ skip | ok (some v) ↦ f v ]

  -- `if (node[key]) field = node[key].as<A>()`
  unfoldable pub read :
      {S A : Type 0} → Node → Bytes → (Node → Result A Bytes) → (A → S → S) → Writer S
  read node key as_value write =
      when_at node key λ v s. elim (as_value v) [ err e ↦ (err e, s) | ok a ↦ (ok tt, write a s) ]

  -- A loop over the nodes of a sequence.
  unfoldable pub for_each : {S : Type 0} → (Node → Writer S) → Nodes → Writer S
  for_each f no_nodes = skip
  for_each f (node_cons node nodes) = f node >> for_each f nodes

  -- `if (v.IsSequence())` and its loop.
  unfoldable pub for_nodes : {S : Type 0} → (Node → Writer S) → Node → Writer S
  for_nodes f null = skip
  for_nodes f (scalar s) = skip
  for_nodes f (sequence nodes) = for_each f nodes
  for_nodes f (mapping fields) = skip

  -- `if (node[key] && node[key].IsSequence())` and its loop.
  unfoldable pub for_sequence : {S : Type 0} → Node → Bytes → (Node → Writer S) → Writer S
  for_sequence node key f = when_at node key (for_nodes f)
