-- ===== src/Platform/Server/Dispatch.antt =====
-- core/platform/http_server.cpp: which calls of the repository a request comes to.
use cppload_workflow.Prelude.{
  ◌≡◌, refl, sym, ap, ◌∙◌, inl, inr, true, [], ◌∷◌, ◌++◌, Bytes, bytes, eqb, eqb_iff, starts_with,
  ◌==◌, ==_iff, arith, Double, Bool-cases,
}
use mathlib.Core.Path.{subst}
use cppload_workflow.Core.Url.Segments.{slash_cases}
use cppload_workflow.Platform.Repository.{Env, Repo}
use cppload_workflow.Platform.Json.{JsonLibrary}
use cppload_workflow.Platform.Server.{Verb, route_sub, route, projects_path, project_prefix}
use cppload_workflow.Platform.Server.Refinement.{route_other-repo}
use cppload_workflow.Platform.Server.Routing.{route-handlers, route-prefix, route_project-slash}
use cppload_workflow.Platform.Server.Interface.{
  Part, scenarios, runs, policies, Place, all_projects, project, part, elsewhere, part_path,
  path_of, IsPlace, performed, calls_at, handle_projects-performed, handle_scenarios-performed,
  handle_runs-performed, handle_policies-performed, handle_project-performed, elsewhere-performed,
}

starts_with_split : (p s : Bytes) → starts_with p s ≡ true → (t : Bytes) × (s ≡ p ++ t)
unfolding starts_with
starts_with_split [] s h = (s, refl)
starts_with_split (c ∷ p) [] h = ground arith
starts_with_split (c ∷ p) (x ∷ s) h = elim (Bool-cases (c == x)) [
  | inl a ↦
      let (t, e) = starts_with_split p s (ground arith) in (t, rw (e, sym ((==_iff c x).0 a)) refl)
  | inr a ↦ ground arith
]

module _ {F J : Type 0} (L : JsonLibrary F J) (D : Double F) (v : Verb) (e : Env) (r : Repo F) where
  -- Behind an identifier, any rest but those of the three parts changes nothing.
  route_sub-other :
      (path id sub body : Bytes)
      → ((p : Part) → ¬ (sub ≡ part_path p))
      → (route_sub L D v path id sub body e r).1 ≡ r
  unfolding route_sub
  route_sub-other path id sub body n = elim (Bool-cases (eqb sub (bytes "/scenarios"))) [
    | inl a ↦ elim (n scenarios ((eqb_iff _ _).0 a)) [ ]
    | inr a ↦ rw a (elim (Bool-cases (eqb sub (bytes "/runs"))) [
      | inl b ↦ elim (n runs ((eqb_iff _ _).0 b)) [ ]
      | inr b ↦ rw b (elim (Bool-cases (eqb sub (bytes "/policies"))) [
        | inl c ↦ elim (n policies ((eqb_iff _ _).0 c)) [ ]
        | inr c ↦ rw c (route_other-repo L D v path body r)
      ])
    ])
  ]

  route_below-elsewhere :
      (rest body : Bytes)
      → IsPlace (elsewhere (project_prefix ++ rest))
      → (route L D v (project_prefix ++ rest) body e r).1 ≡ r
  unfolding IsPlace path_of
  route_below-elsewhere rest body (_, no_project, no_part) = elim (slash_cases rest) [
    | inl a ↦ elim (no_project rest a refl) [ ]
    | inr (id, sub, p, a) ↦
        rw
          (
            route-prefix L D v rest body e r,
            p,
            route_project-slash L D v (project_prefix ++ (id ++ (b'/' ∷ sub))) id sub body e r a,
          )
          (route_sub-other _ id (b'/' ∷ sub) body
            (λ q h. no_part id q a (rw p (ap (λ x. project_prefix ++ (id ++ x)) h))))
  ]

  route-elsewhere :
      (path body : Bytes) → IsPlace (elsewhere path) → (route L D v path body e r).1 ≡ r
  unfolding route IsPlace path_of
  route-elsewhere path body w = elim (Bool-cases (eqb path projects_path)) [
    | inl a ↦ elim (w.0 ((eqb_iff _ _).0 a)) [ ]
    | inr a ↦ elim (Bool-cases (starts_with project_prefix path)) [
      | inl b ↦
          let (rest, same) = starts_with_split project_prefix path b in
          subst (λ p. (route L D v p body e r).1 ≡ r) (sym same)
            (route_below-elsewhere rest body (subst (λ p. IsPlace (elsewhere p)) same w))
      | inr b ↦ rw (a, b, route) (route_other-repo L D v path body r)
    ]
  ]

  -- A request, whether it is answered or ends in an exception, leaves the repository as the calls leave it that
  -- its verb, the place its path names and its body ask for: one creation or deletion with the arguments of the
  -- request, or none. The identifier in the path holds no slash.
  pub route-run_calls :
      (place : Place) (body : Bytes)
      → IsPlace place
      → (route L D v (path_of place) body e r).1 ≡ performed L e r (calls_at L v place body)
  unfolding IsPlace path_of
  route-run_calls all_projects body w =
      ap (λ a. a.1) (route-handlers L D v [] body e r tt).0 ∙ handle_projects-performed L e r v body
  route-run_calls (project id) body w =
      ap (λ a. a.1) (route-handlers L D v id body e r w).1
      ∙ handle_project-performed L e r v id body
  route-run_calls (part id scenarios) body w =
      ap (λ a. a.1) (route-handlers L D v id body e r w).2
      ∙ handle_scenarios-performed L e r v id body
  route-run_calls (part id runs) body w =
      ap (λ a. a.1) (route-handlers L D v id body e r w).3 ∙ handle_runs-performed L e r v id body
  route-run_calls (part id policies) body w =
      ap (λ a. a.1) (route-handlers L D v id body e r w).4
      ∙ handle_policies-performed L e r v id body
  route-run_calls (elsewhere path) body w =
      route-elsewhere path body w ∙ sym (elsewhere-performed L e r v path body)
