-- ===== src/Platform/Server/Refinement.antt =====
-- core/platform/http_server.cpp: what a request does to the repository.
use cppload_workflow.Prelude.{
  ◌≤◌, ◌≡◌, refl, inl, inr, Bool, ◌||◌, List, [], ◌∷◌, Bytes, bytes, eqb, arith, find, starts_with,
  drop, take, is_empty, length, Result, ok, err, ◌>>=◌, Double, Bool-cases, Option-cases,
  Result-cases,
}
use cppload_workflow.Platform.Models.{PlatformError}
use cppload_workflow.Platform.Repository.{
  Env, Repo, get_project, delete_project, create_project, create_scenario, create_run,
  create_policy,
}
use cppload_workflow.Platform.Repository.Integrity.{
  Call, creates_project, deletes_project, creates_scenario, creates_run, creates_policy, step,
  run_calls, Integrity, run_calls-Integrity,
}
use cppload_workflow.Platform.Json.{JsonLibrary, Thrown}
use cppload_workflow.Platform.Server.{
  Verb, get, post, delete_, other_verb, Request, Answer, answer_created, answer_deleted, with_json,
  with_read, handle_projects, handle_project, handle_scenarios, handle_runs, handle_policies,
  handle_evaluate, route_other, route_project, route_sub, answer_evaluation, route, handle_session,
  accept_loop, projects_path, project_prefix, extract_path,
}

module _ {F : Type 0} where
  -- The repository is left as it was, or as one member leaves it.
  abbrev pub Served : Repo F → Repo F → Type 0
  Served r r' = (cs : List (Env × Call F)) × (length cs ≤ 1) × (r' ≡ run_calls r cs)

  unchanged : (r : Repo F) → Served r r
  unfolding run_calls
  unchanged r = ([], omega arith, refl)

  one_call : (r r' : Repo F) (e : Env) (c : Call F) → r' ≡ step r (e, c) → Served r r'
  unfolding run_calls
  one_call r r' e c h = ((e, c) ∷ [], omega arith, h)

module _ {F J : Type 0} (L : JsonLibrary F J) where
  pub answer_created-repo :
      {A : Type 0} (m : Bytes) (f : A → J) (q : Result A PlatformError × Repo F)
      → (answer_created L m f q).1 ≡ q.1
  answer_created-repo m f (err x, r) = refl
  answer_created-repo m f (ok a, r) = refl

  pub answer_deleted-repo : (q : Result Bool PlatformError × Repo F) → (answer_deleted L q).1 ≡ q.1
  answer_deleted-repo (err x, r) = refl
  answer_deleted-repo (ok b, r) = refl

  answer_evaluation-repo :
      (D : Double F) (run_id policy_id : Bytes) (r : Repo F)
      → (answer_evaluation L D run_id policy_id r).1 ≡ r
  answer_evaluation-repo D run_id policy_id r =
      elim (Bool-cases (is_empty run_id || is_empty policy_id)) [
        | inl t ↦ rw t refl
        | inr t ↦ rw t refl
      ]

  -- A property of the repository that the continuation keeps is kept on every way out.
  module _ (Q : Repo F → Type 0) (r : Repo F) (q : Q r) where
    with_json-keeps :
        (body : Bytes) (k : J → Answer L) → ((j : J) → Q (k j).1) → Q (with_json L body r k).1
    unfolding with_json
    with_json-keeps body k h = elim (Option-cases (L.parse body)) [
      | inl e ↦ rw (e, with_json) q
      | inr (j, e) ↦ rw (e, with_json) (h j)
    ]

    with_read-keeps :
        {A : Type 0} (a : Result A Thrown) (k : A → Answer L)
        → ((a : A) → Q (k a).1)
        → Q (with_read L a r k).1
    with_read-keeps (err x) k h = q
    with_read-keeps (ok a) k h = h a

  handle_projects-Served :
      (v : Verb) (body : Bytes) (e : Env) (r : Repo F) → Served r (handle_projects L v body e r).1
  unfolding handle_projects step
  handle_projects-Served get body e r = unchanged r
  handle_projects-Served post body e r = with_json-keeps (Served r) r (unchanged r) body _ (λ j.
      with_read-keeps (Served r) r (unchanged r) _ _ (λ (name, desc).
        one_call r _ e (creates_project name desc)
          (answer_created-repo _ _ (create_project r name desc e))))
  handle_projects-Served delete_ body e r = unchanged r
  handle_projects-Served other_verb body e r = unchanged r

  handle_scenarios-Served :
      (v : Verb) (id body : Bytes) (e : Env) (r : Repo F)
      → Served r (handle_scenarios L v id body e r).1
  unfolding handle_scenarios step
  handle_scenarios-Served get id body e r = unchanged r
  handle_scenarios-Served post id body e r = with_json-keeps (Served r) r (unchanged r) body _ (λ j.
      with_read-keeps (Served r) r (unchanged r) _ _ (λ (name, version, yaml).
        one_call r _ e (creates_scenario id name version yaml)
          (answer_created-repo _ _ (create_scenario r id name version yaml e))))
  handle_scenarios-Served delete_ id body e r = unchanged r
  handle_scenarios-Served other_verb id body e r = unchanged r

  handle_runs-Served :
      (v : Verb) (id body : Bytes) (e : Env) (r : Repo F) → Served r (handle_runs L v id body e r).1
  unfolding handle_runs step
  handle_runs-Served get id body e r = unchanged r
  handle_runs-Served post id body e r = with_json-keeps (Served r) r (unchanged r) body _ (λ j.
      with_read-keeps (Served r) r (unchanged r) _ _ (λ (scenario, environment).
        one_call r _ e (creates_run id scenario environment)
          (answer_created-repo _ _ (create_run r id scenario environment e))))
  handle_runs-Served delete_ id body e r = unchanged r
  handle_runs-Served other_verb id body e r = unchanged r

  handle_policies-Served :
      (v : Verb) (id body : Bytes) (e : Env) (r : Repo F)
      → Served r (handle_policies L v id body e r).1
  unfolding handle_policies step
  handle_policies-Served get id body e r = unchanged r
  handle_policies-Served post id body e r = with_json-keeps (Served r) r (unchanged r) body _ (λ j.
      with_read-keeps (Served r) r (unchanged r) _ _ (λ (rules, name).
        one_call r _ e (creates_policy id name rules)
          (answer_created-repo _ _ (create_policy r id name rules e))))
  handle_policies-Served delete_ id body e r = unchanged r
  handle_policies-Served other_verb id body e r = unchanged r

  handle_project-Served :
      (v : Verb) (id : Bytes) (e : Env) (r : Repo F) → Served r (handle_project L v id r).1
  unfolding handle_project step
  handle_project-Served get id e r = elim (Result-cases (get_project r id)) [
    | inl (x, h) ↦ rw (h, handle_project) (unchanged r)
    | inr (p, h) ↦ rw (h, handle_project) (unchanged r)
  ]
  handle_project-Served post id e r = unchanged r
  handle_project-Served delete_ id e r =
      one_call r _ e (deletes_project id) (answer_deleted-repo (delete_project r id))
  handle_project-Served other_verb id e r = unchanged r

  handle_evaluate-repo :
      (D : Double F) (v : Verb) (body : Bytes) (r : Repo F) → (handle_evaluate L D v body r).1 ≡ r
  unfolding handle_evaluate
  handle_evaluate-repo D get body r = refl
  handle_evaluate-repo D post body r =
      with_json-keeps (λ s. s ≡ r) r refl body _
        (λ j.
          with_read-keeps (λ s. s ≡ r) r refl
            (do
              run_id ← L.value j (bytes "run_id")
              policy_id ← L.value j (bytes "policy_id")
              ok (run_id, policy_id))
            (λ (run_id, policy_id). answer_evaluation L D run_id policy_id r)
            (λ (run_id, policy_id). answer_evaluation-repo D run_id policy_id r))
  handle_evaluate-repo D delete_ body r = refl
  handle_evaluate-repo D other_verb body r = refl

  pub route_other-repo :
      (D : Double F) (v : Verb) (path body : Bytes) (r : Repo F)
      → (route_other L D v path body r).1 ≡ r
  unfolding route_other
  route_other-repo D v path body r = ground (arith, handle_evaluate-repo D v body r)

  route_other-Served :
      (D : Double F) (v : Verb) (path body : Bytes) (r : Repo F)
      → Served r (route_other L D v path body r).1
  route_other-Served D v path body r = rw (route_other-repo D v path body r) (unchanged r)

  route_sub-Served :
      (D : Double F) (v : Verb) (path id sub body : Bytes) (e : Env) (r : Repo F)
      → Served r (route_sub L D v path id sub body e r).1
  unfolding route_sub
  route_sub-Served D v path id sub body e r = elim (Bool-cases (eqb sub (bytes "/scenarios"))) [
    | inl a ↦ rw a (handle_scenarios-Served v id body e r)
    | inr a ↦ rw a (elim (Bool-cases (eqb sub (bytes "/runs"))) [
      | inl b ↦ rw b (handle_runs-Served v id body e r)
      | inr b ↦ rw b (elim (Bool-cases (eqb sub (bytes "/policies"))) [
        | inl c ↦ rw c (handle_policies-Served v id body e r)
        | inr c ↦ rw c (route_other-Served D v path body r)
      ])
    ])
  ]

  route_project-Served :
      (D : Double F) (v : Verb) (path rest body : Bytes) (e : Env) (r : Repo F)
      → Served r (route_project L D v path rest body e r).1
  unfolding route_project
  route_project-Served D v path rest body e r = elim (Option-cases (find b'/' rest)) [
    | inl n ↦ rw (n, route_project) (handle_project-Served v rest e r)
    | inr (i, n) ↦
        rw (n, route_project) (route_sub-Served D v path (take i rest) (drop i rest) body e r)
  ]

  -- Every request, whether it is answered or ends in an exception, leaves the repository as it was or as
  -- one member of it does.
  pub route-Served :
      (D : Double F) (v : Verb) (path body : Bytes) (e : Env) (r : Repo F)
      → Served r (route L D v path body e r).1
  unfolding route
  route-Served D v path body e r = elim (Bool-cases (eqb path projects_path)) [
    | inl a ↦ rw a (handle_projects-Served v body e r)
    | inr a ↦ rw a (elim (Bool-cases (starts_with project_prefix path)) [
      | inl b ↦ rw b (route_project-Served D v path (drop 17 path) body e r)
      | inr b ↦ rw b (route_other-Served D v path body r)
    ])
  ]

  -- From a repository in which every scenario, run and policy belongs to a project that exists, the
  -- server leaves none without its project, whatever requests come in.
  pub accept_loop-Integrity :
      (D : Double F) (qs : List (Env × Request)) (r : Repo F)
      → Integrity r
      → Integrity (accept_loop L D qs r).1.1
  unfolding accept_loop handle_session
  accept_loop-Integrity D [] r v = v
  accept_loop-Integrity D ((e, q) ∷ qs) r v =
      let (cs, _, same) = route-Served D q.verb (extract_path q.target) q.body e r in
      let kept : Integrity (handle_session L D q e r).1 = rw same (run_calls-Integrity r cs v) in
      elim (Result-cases (handle_session L D q e r).0) [
        | inl (x, h) ↦ rw (h, accept_loop) kept
        | inr (a, h) ↦ rw (h, accept_loop) (accept_loop-Integrity D qs _ kept)
      ]

  pub handle_project-get : (id : Bytes) (r : Repo F) → (handle_project L get id r).1 ≡ r
  unfolding handle_project
  handle_project-get id r = ground arith

  -- A GET changes nothing, whatever its path.
  pub route-get :
      (D : Double F) (path body : Bytes) (e : Env) (r : Repo F)
      → (route L D get path body e r).1 ≡ r
  unfolding route route_project route_sub handle_projects handle_scenarios handle_runs
      handle_policies
  route-get D path body e r =
      ground (arith, route_other-repo D get path body r, handle_project-get (drop 17 path) r)
