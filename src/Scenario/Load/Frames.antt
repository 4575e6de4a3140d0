-- ===== src/Scenario/Load/Frames.antt =====
-- core/scenario/yaml_parser.cpp: the parts of a configuration that a part of the parser leaves alone.
use cppload_workflow.Prelude.{◌≡◌, refl, ◌∙◌, inl, inr, none, some, Bytes, Result, Result-cases}
use cppload_workflow.Scenario.Yaml.{
  Node, null, scalar, sequence, mapping, Nodes, no_nodes, node_cons,
}
use cppload_workflow.Scenario.Load.Reader.{
  YamlLibrary, Writer, ◌>>◌, when_at, read, for_each, for_nodes, for_sequence,
}
use cppload_workflow.Scenario.Load.{build}

-- `g` is the same after as before.
abbrev pub Frame {ℓ} : {S : Type 0} {A : Type ℓ} → (S → A) → Writer S → Type ℓ
Frame g m = (s : _) → g (m s).1 ≡ g s

module _ {ℓ} {S : Type 0} {B : Type ℓ} (g : S → B) where
  pub >>-Frame : (m k : Writer S) → Frame g m → Frame g k → Frame g (m >> k)
  unfolding ◌>>◌
  >>-Frame m k h h' s = elim (Result-cases (m s).0) [
    | inl (e, p) ↦ rw (p, ◌>>◌) (h s)
    | inr (x, p) ↦ rw (p, ◌>>◌) (h' (m s).1 ∙ h s)
  ]

  pub build-Frame :
      {A : Type 0} (a : A) (fill : Writer A) (add : A → S → S)
      → ((b : A) (s : S) → g (add b s) ≡ g s)
      → Frame g (build a fill add)
  unfolding build
  build-Frame a fill add h s = elim (Result-cases (fill a).0) [
    | inl (e, p) ↦ rw (p, build) refl
    | inr (x, p) ↦ rw (p, build) (h (fill a).1 s)
  ]

  module _ {F : Type 0} (Y : YamlLibrary F) where
    pub when_at-Frame :
        (node : Node) (key : Bytes) (f : Node → Writer S)
        → ((v : Node) → Frame g (f v))
        → Frame g (when_at Y node key f)
    unfolding when_at
    when_at-Frame node key f h s = elim (Result-cases (Y.at node key)) [
      | inl (e, p) ↦ rw (p, when_at) refl
      | inr (none, p) ↦ rw (p, when_at) refl
      | inr (some v, p) ↦ rw (p, when_at) (h v s)
    ]

    pub read-Frame :
        {A : Type 0} (node : Node) (key : Bytes) (as_value : Node → Result A Bytes)
        (write : A → S → S)
        → ((a : A) (s : S) → g (write a s) ≡ g s)
        → Frame g (read Y node key as_value write)
    unfolding read
    read-Frame node key as_value write h = when_at-Frame node key _ λ v s.
        elim (Result-cases (as_value v)) [ inl (e, p) ↦ rw p refl | inr (a, p) ↦ rw p (h a s) ]

    pub for_each-Frame :
        (f : Node → Writer S) (nodes : Nodes)
        → ((v : Node) → Frame g (f v))
        → Frame g (for_each Y f nodes)
    unfolding for_each
    for_each-Frame f no_nodes h = λ s. refl
    for_each-Frame f (node_cons node nodes) h =
        >>-Frame (f node) (for_each Y f nodes) (h node) (for_each-Frame f nodes h)

    for_nodes-Frame :
        (f : Node → Writer S)
        → ((v : Node) → Frame g (f v))
        → (v : Node) → Frame g (for_nodes Y f v)
    unfolding for_nodes
    for_nodes-Frame f h null = λ s. refl
    for_nodes-Frame f h (scalar t) = λ s. refl
    for_nodes-Frame f h (sequence nodes) = for_each-Frame f nodes h
    for_nodes-Frame f h (mapping fields) = λ s. refl

    pub for_sequence-Frame :
        (node : Node) (key : Bytes) (f : Node → Writer S)
        → ((v : Node) → Frame g (f v))
        → Frame g (for_sequence Y node key f)
    unfolding for_sequence
    for_sequence-Frame node key f h = when_at-Frame node key (for_nodes Y f) (for_nodes-Frame f h)
