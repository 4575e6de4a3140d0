-- ===== src/Platform/Server/Interface.antt =====
-- core/platform/http_server.cpp: the interface of the server, and which members of the repository it calls.
use cppload_workflow.Prelude.{
  ◌≡◌, refl, inl, inr, Option, none, some, List, [], ◌∷◌, ◌++◌, map, Bytes, bytes, Result, ok, err,
  ◌>>=◌, Option-cases, Result-cases,
}
use cppload_workflow.Core.Url.Find.{Absent}
use cppload_workflow.Platform.Repository.{
  Env, Repo, delete_project, create_project, create_scenario, create_run, create_policy,
}
use cppload_workflow.Platform.Repository.Integrity.{
  Call, creates_project, deletes_project, creates_scenario, creates_run, creates_policy, step,
  run_calls,
}
use cppload_workflow.Platform.Json.{JsonLibrary, Thrown, from_json_rules}
use cppload_workflow.Platform.Server.{
  Verb, get, post, delete_, other_verb, Answer, with_json, with_read, handle_projects,
  handle_project, handle_scenarios, handle_runs, handle_policies,
}
use cppload_workflow.Platform.Server.Refinement.{
  answer_created-repo, answer_deleted-repo, handle_project-get,
}

pub data Part : Type 0 where
  scenarios runs policies : Part

-- What a path names.
pub data Place : Type 0 where
  all_projects : Place
  project : Bytes → Place
  part : Bytes → Part → Place
  elsewhere : Bytes → Place

abbrev pub part_path : Part → Bytes
part_path scenarios = bytes "/scenarios"
part_path runs = bytes "/runs"
part_path policies = bytes "/policies"

unfoldable pub path_of : Place → Bytes
path_of all_projects = bytes "/api/v1/projects"
path_of (project id) = bytes "/api/v1/projects/" ++ id
path_of (part id p) = bytes "/api/v1/projects/" ++ (id ++ part_path p)
path_of (elsewhere path) = path

-- An identifier holds no slash, and what is elsewhere is the path of no other place.
unfoldable pub IsPlace : Place → Type 0
IsPlace all_projects = Unit
IsPlace (project id) = Absent b'/' id
IsPlace (part id p) = Absent b'/' id
IsPlace (elsewhere path) =
    (¬ (path ≡ path_of all_projects))
    × ((id : Bytes) → Absent b'/' id → ¬ (path ≡ path_of (project id)))
    × ((id : Bytes) (p : Part) → Absent b'/' id → ¬ (path ≡ path_of (part id p)))

module _ {F J : Type 0} (L : JsonLibrary F J) where
  abbrev pub called {ℓ} : {A : Type ℓ} → Result A Thrown → (A → Call F) → List (Call F)
  called (err x) call = []
  called (ok a) call = call a ∷ []

  -- The call with the arguments that are read from a body; none if it is not JSON or reading it throws.
  abbrev pub asked {ℓ} :
      {A : Type ℓ} → Option J → (J → Result A Thrown) → (A → Call F) → List (Call F)
  asked none read call = []
  asked (some j) read call = called (read j) call

  -- What a request asks of the repository.
  unfoldable pub calls_at : Verb → Place → Bytes → List (Call F)
  calls_at post all_projects body =
      asked (L.parse body)
        (λ j. do
          name ← L.value j (bytes "name")
          description ← L.value j (bytes "description")
          ok (name, description))
        (λ (name, description). creates_project name description)
  calls_at post (part id scenarios) body =
      asked (L.parse body)
        (λ j. do
          name ← L.value j (bytes "name")
          version ← L.value j (bytes "version")
          yaml ← L.value j (bytes "yaml")
          ok (name, version, yaml))
        (λ (name, version, yaml). creates_scenario id name version yaml)
  calls_at post (part id runs) body =
      asked (L.parse body)
        (λ j. do
          scenario ← L.value j (bytes "scenario_id")
          environment ← L.value j (bytes "environment")
          ok (scenario, environment))
        (λ (scenario, environment). creates_run id scenario environment)
  calls_at post (part id policies) body =
      asked (L.parse body)
        (λ j. do
          rules ← elim (L.array_at j (bytes "rules")) [
            | none ↦ ok []
            | some js ↦ from_json_rules L js
          ]
          name ← L.value j (bytes "name")
          ok (rules, name))
        (λ (rules, name). creates_policy id name rules)
  calls_at delete_ (project id) body = deletes_project id ∷ []
  calls_at post (project id) body = []
  calls_at post (elsewhere path) body = []
  calls_at delete_ all_projects body = []
  calls_at delete_ (part id p) body = []
  calls_at delete_ (elsewhere path) body = []
  calls_at get place body = []
  calls_at other_verb place body = []

  -- The calls, made in one environment.
  abbrev pub performed : Env → Repo F → List (Call F) → Repo F
  performed e r cs = run_calls r (map (λ c. (e, c)) cs)

  module _ (e : Env) (r : Repo F) where
    with_json-performed :
        {A : Type 0} (body : Bytes) (read : J → Result A Thrown) (k : A → Answer L)
        (call : A → Call F)
        → ((a : A) → (k a).1 ≡ step r (e, call a))
        → (with_json L body r (λ j. with_read L (read j) r k)).1
          ≡ performed e r (asked (L.parse body) read call)
    unfolding with_json run_calls
    with_json-performed body read k call h = elim (Option-cases (L.parse body)) [
      | inl p ↦ rw (p, with_json) refl
      | inr (j, p) ↦ elim (Result-cases (read j)) [
        | inl (x, q) ↦ rw (p, q, with_json) refl
        | inr (a, q) ↦ rw (p, q, with_json) (h a)
      ]
    ]

    pub handle_projects-performed :
        (v : Verb) (body : Bytes)
        → (handle_projects L v body e r).1 ≡ performed e r (calls_at v all_projects body)
    unfolding handle_projects calls_at step run_calls
    handle_projects-performed get body = refl
    handle_projects-performed post body =
        with_json-performed body _ _ _
          (λ (name, description). answer_created-repo L _ _ (create_project r name description e))
    handle_projects-performed delete_ body = refl
    handle_projects-performed other_verb body = refl

    pub handle_scenarios-performed :
        (v : Verb) (id body : Bytes)
        → (handle_scenarios L v id body e r).1 ≡ performed e r (calls_at v (part id scenarios) body)
    unfolding handle_scenarios calls_at step run_calls
    handle_scenarios-performed get id body = refl
    handle_scenarios-performed post id body =
        with_json-performed body _ _ _ (λ (name, version, yaml).
          answer_created-repo L _ _ (create_scenario r id name version yaml e))
    handle_scenarios-performed delete_ id body = refl
    handle_scenarios-performed other_verb id body = refl

    pub handle_runs-performed :
        (v : Verb) (id body : Bytes)
        → (handle_runs L v id body e r).1 ≡ performed e r (calls_at v (part id runs) body)
    unfolding handle_runs calls_at step run_calls
    handle_runs-performed get id body = refl
    handle_runs-performed post id body = with_json-performed body _ _ _ (λ (scenario, environment).
        answer_created-repo L _ _ (create_run r id scenario environment e))
    handle_runs-performed delete_ id body = refl
    handle_runs-performed other_verb id body = refl

    pub handle_policies-performed :
        (v : Verb) (id body : Bytes)
        → (handle_policies L v id body e r).1 ≡ performed e r (calls_at v (part id policies) body)
    unfolding handle_policies calls_at step run_calls
    handle_policies-performed get id body = refl
    handle_policies-performed post id body =
        with_json-performed body _ _ _
          (λ (rules, name). answer_created-repo L _ _ (create_policy r id name rules e))
    handle_policies-performed delete_ id body = refl
    handle_policies-performed other_verb id body = refl

    pub handle_project-performed :
        (v : Verb) (id body : Bytes)
        → (handle_project L v id r).1 ≡ performed e r (calls_at v (project id) body)
    unfolding handle_project calls_at step run_calls
    handle_project-performed get id body = handle_project-get L id r
    handle_project-performed post id body = refl
    handle_project-performed delete_ id body = answer_deleted-repo L (delete_project r id)
    handle_project-performed other_verb id body = refl

    pub elsewhere-performed :
        (v : Verb) (path body : Bytes) → performed e r (calls_at v (elsewhere path) body) ≡ r
    unfolding calls_at run_calls
    elsewhere-performed get path body = refl
    elsewhere-performed post path body = refl
    elsewhere-performed delete_ path body = refl
    elsewhere-performed other_verb path body = refl
