-- ===== src/Scenario/Load/Targets.antt =====
-- core/scenario/yaml_parser.cpp, `parse_config_file`: what holds of a configuration that was loaded.
use cppload_workflow.Prelude.{
  ◌≡◌, refl, ap, ◌∙◌, ◌⊎◌, inl, inr, false, not, Option, none, some, ◌∷◌, [], Bytes, bytes,
  is_empty, ok, Double, Bool-cases, Result-cases,
}
use cppload_workflow.Scenario.Yaml.{Node, null, scalar, sequence, mapping, Entries, substitute_env}
use cppload_workflow.Scenario.Load.{
  YamlLibrary, ConfigFile, loaded, is_map, read_profile, read_scenarios, read_authentication,
  read_observability, read_sla, read_sections, parse_sections, parse_target, parse_root,
  parse_config_file, read_target,
}
use cppload_workflow.Scenario.Load.Frames.{
  Frame, >>-Frame, build-Frame, when_at-Frame, read-Frame, for_sequence-Frame,
}

base_url_of : {F : Type 0} → ConfigFile F → Bytes
base_url_of c = c.scenario.base_url

-- A base URL, or nothing missing.
abbrev pub IsResolved : {F : Type 0} → Bytes → ConfigFile F → Type 0
IsResolved missing c = (missing ≡ []) ⊎ (is_empty c.scenario.base_url ≡ false)

-- A node that is a map.
abbrev pub IsMapping : Node → Type 0
IsMapping node = (fields : Entries) × (node ≡ mapping fields)

is_map-IsMapping : (node : Node) → not (is_map node) ≡ false → IsMapping node
is_map-IsMapping null e = cc
is_map-IsMapping (scalar s) e = cc
is_map-IsMapping (sequence nodes) e = cc
is_map-IsMapping (mapping fields) e = (fields, refl)

module _ {F : Type 0} (Y : YamlLibrary F) (D : Double F) (stod : Bytes → Option F) where
  profile-Frame : (root : Node) → Frame (base_url_of {F = F}) (read_profile Y D stod root)
  unfolding read_profile base_url_of
  profile-Frame root =
      for_sequence-Frame base_url_of Y root _ _ λ st. build-Frame base_url_of _ _ _ λ s c. refl

  scenarios-Frame : (root : Node) → Frame (base_url_of {F = F}) (read_scenarios Y D stod root)
  unfolding read_scenarios base_url_of
  scenarios-Frame root =
      for_sequence-Frame base_url_of Y root _ _ λ sc. build-Frame base_url_of _ _ _ λ s c. refl

  authentication-Frame :
      (root : Node) → Frame (base_url_of {F = F}) (read_authentication Y D stod root)
  unfolding read_authentication base_url_of
  authentication-Frame root = when_at-Frame base_url_of Y root _ _ λ auth.
      >>-Frame base_url_of _ _
        (>>-Frame base_url_of _ _ (read-Frame base_url_of Y auth _ _ _ λ v c. refl)
          (read-Frame base_url_of Y auth _ _ _ λ v c. refl))
        (when_at-Frame base_url_of Y auth _ _ λ cc.
          >>-Frame base_url_of _ _ (read-Frame base_url_of Y cc _ _ _ λ v c. refl)
            (read-Frame base_url_of Y cc _ _ _ λ v c. refl))

  observability-Frame :
      (root : Node) → Frame (base_url_of {F = F}) (read_observability Y D stod root)
  unfolding read_observability base_url_of
  observability-Frame root = when_at-Frame base_url_of Y root _ _ λ obs.
      >>-Frame base_url_of _ _
        (>>-Frame base_url_of _ _
          (when_at-Frame base_url_of Y obs _ _ λ m. when_at-Frame base_url_of Y m _ _ λ pm.
            >>-Frame base_url_of _ _ (read-Frame base_url_of Y pm _ _ _ λ v c. refl)
              (read-Frame base_url_of Y pm _ _ _ λ v c. refl))
          (when_at-Frame base_url_of Y obs _ _ λ tr.
            >>-Frame base_url_of _ _ (read-Frame base_url_of Y tr _ _ _ λ v c. refl)
              (read-Frame base_url_of Y tr _ _ _ λ v c. refl)))
        (when_at-Frame base_url_of Y obs _ _ λ lg.
          >>-Frame base_url_of _ _ (read-Frame base_url_of Y lg _ _ _ λ v c. refl)
            (read-Frame base_url_of Y lg _ _ _ λ v c. refl))

  sla-Frame : (root : Node) → Frame (base_url_of {F = F}) (read_sla Y D stod root)
  unfolding read_sla base_url_of
  sla-Frame root = when_at-Frame base_url_of Y root _ _ λ sla.
      >>-Frame base_url_of _ _ (read-Frame base_url_of Y sla _ _ _ λ v c. refl)
        (read-Frame base_url_of Y sla _ _ _ λ v c. refl)

  -- The sections behind the target leave the base URL alone.
  sections-Frame : (root : Node) → Frame (base_url_of {F = F}) (read_sections Y D stod root)
  unfolding read_sections
  sections-Frame root =
      >>-Frame base_url_of _ _
        (>>-Frame base_url_of _ _
          (>>-Frame base_url_of _ _
            (>>-Frame base_url_of _ _ (profile-Frame root) (scenarios-Frame root))
            (authentication-Frame root))
          (observability-Frame root))
        (sla-Frame root)

  parse_target-IsMapping :
      (root target : Node) (missing : Bytes) (c : ConfigFile F)
      → (parse_target Y D stod root target missing c).0 ≡ loaded
      → IsMapping target
  unfolding parse_target
  parse_target-IsMapping root target missing c e = elim (Bool-cases (not (is_map target))) [
    | inl t ↦ let f = rw t at e in cc
    | inr t ↦ is_map-IsMapping target t
  ]

  parse_target-IsResolved :
      (root target : Node) (missing : Bytes) (c : ConfigFile F)
      → (parse_target Y D stod root target missing c).0 ≡ loaded
      → IsResolved missing (parse_target Y D stod root target missing c).1
  unfolding parse_target parse_sections base_url_of
  parse_target-IsResolved root target [] c e = inl refl
  parse_target-IsResolved root target (m ∷ ms) c e = elim (Bool-cases (not (is_map target))) [
    | inl t ↦ let f = rw t at e in cc
    | inr t ↦
        let (r, c') = read_target Y D stod root target c in
        elim (Result-cases r) [
          | inl (x, p) ↦ let f = rw (t, p) at e in cc
          | inr (x, p) ↦ elim (Bool-cases (is_empty c'.scenario.base_url)) [
            | inl q ↦ let f = rw (t, p, q) at e in cc
            | inr q ↦ inr (rw (t, p, q) (ap (λ b. is_empty b) (sections-Frame root c') ∙ q))
          ]
        ]
  ]

  -- A file that was loaded: its text is a document, the document is, after the substitution, a map with a map as
  -- target, and a base URL was found or no variable is missing.
  pub parse_config_file_loaded :
      (getenv : Bytes → Option Bytes) (path : Bytes) (file : Option Bytes) (c : ConfigFile F)
      → (parse_config_file Y D stod getenv path file c).0 ≡ loaded
      → (text : Bytes) × (document : Node) × (target : Node) × (file ≡ some text)
        × (Y.load text ≡ ok document)
        × (let (root, missing) = substitute_env getenv document [] in
            IsMapping root
            × (Y.at root (bytes "target") ≡ ok (some target))
            × IsMapping target
            × IsResolved missing (parse_config_file Y D stod getenv path file c).1)
  unfolding parse_config_file parse_root
  parse_config_file_loaded getenv path none c e = cc
  parse_config_file_loaded getenv path (some text) c e = elim (Result-cases (Y.load text)) [
    | inl (x, p) ↦ let f = rw (p, parse_config_file) at e in cc
    | inr (document, p) ↦
        let (root, missing) = substitute_env getenv document [] in
        elim (Bool-cases (not (is_map root))) [
          | inl t ↦ let f = rw (p, parse_config_file, t) at e in cc
          | inr t ↦ elim (Result-cases (Y.at root (bytes "target"))) [
            | inl (x, q) ↦ let f = rw (p, parse_config_file, t, q) at e in cc
            | inr (none, q) ↦ let f = rw (p, parse_config_file, t, q) at e in cc
            | inr (some target, q) ↦
                let f = rw (p, parse_config_file, t, q) at e in
                (
                  text,
                  document,
                  target,
                  refl,
                  p,
                  (
                    is_map-IsMapping root t,
                    q,
                    parse_target-IsMapping root target missing c f,
                    rw (p, parse_config_file, t, q)
                        (parse_target-IsResolved root target missing c f),
                  ),
                )
          ]
        ]
  ]
