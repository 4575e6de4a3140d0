-- ===== src/Platform/Server.antt =====
-- core/platform/http_server.cpp: `HttpServer`. A handler returns what it throws or answers, with the
-- repository that it leaves. Sockets are left out; a request is its method, target and body.
pub mod Routing
pub mod Refinement
pub mod Interface
pub mod Dispatch
pub mod Tests
use cppload_workflow.Prelude.{
  ℕ, Bool, true, false, ◌||◌, Option, none, some, List, [], ◌∷◌, ◌++◌, map, Bytes, bytes, eqb, find,
  starts_with, take, drop, is_empty, if◌then◌else◌, Result, ok, err, ◌>>=◌, Double,
}
use cppload_workflow.Platform.Models.{
  PlatformError, not_found, already_exists, invalid_input, invalid_state, PolicyRule,
}
use cppload_workflow.Platform.Repository.{
  Env, Repo, Reply, create_project, list_projects, get_project, delete_project, create_scenario,
  list_scenarios, create_run, list_runs, create_policy, list_policies,
}
use cppload_workflow.Platform.Policy.{evaluate}
use cppload_workflow.Platform.Json.{
  JsonLibrary, Thrown, project_to_json, scenario_to_json, run_to_json, policy_to_json,
  evaluation_to_json, from_json_rules,
}

pub data Verb : Type 0 where
  get post delete_ other_verb : Verb

pub record Request : Type 0 where
  pub verb : Verb
  pub target : Bytes
  pub body : Bytes

pub record Response : Type 0 where
  pub status : ℕ
  pub body : Bytes

unfoldable pub extract_path : Bytes → Bytes
extract_path target = elim (find b'?' target) [
  | some pos ↦ take pos target
  | none ↦ elim (find b'#' target) [ some pos ↦ take pos target | none ↦ target ]
]

unfoldable pub status_to_http : PlatformError → ℕ
status_to_http not_found = 404
status_to_http already_exists = 409
status_to_http invalid_input = 400
status_to_http invalid_state = 409

abbrev pub projects_path : Bytes
projects_path = bytes "/api/v1/projects"

abbrev pub project_prefix : Bytes
project_prefix = bytes "/api/v1/projects/"

module _ {F J : Type 0} (L : JsonLibrary F J) where
  abbrev pub Answer : Type 0
  Answer = Result Response Thrown × Repo F

  abbrev pub json_response : ℕ → J → Result Response Thrown
  json_response status j = do body ← L.dump j; ok (record { status = status; body = body })

  unfoldable pub error_response : ℕ → Bytes → Result Response Thrown
  error_response status message =
      json_response status (L.object ((bytes "error", L.string message) ∷ []))

  unfoldable pub ok_response : J → Result Response Thrown
  ok_response = json_response 200

  unfoldable pub created_response : J → Result Response Thrown
  created_response = json_response 201

  -- What a handler makes of the reply to a member that creates.
  abbrev pub answer_created {ℓ} :
      {A : Type ℓ} → Bytes → (A → J) → Result A PlatformError × Repo F → Answer
  answer_created message to_json (err x, r) = (error_response (status_to_http x) message, r)
  answer_created message to_json (ok a, r) = (created_response (to_json a), r)

  -- The body of a POST, and the arguments read from it.
  unfoldable pub with_json : Bytes → Repo F → (J → Answer) → Answer
  with_json body r k = elim (L.parse body) [
    | none ↦ (error_response 400 (bytes "invalid JSON"), r)
    | some j ↦ k j
  ]

  abbrev pub with_read {ℓ} : {A : Type ℓ} → Result A Thrown → Repo F → (A → Answer) → Answer
  with_read (err x) r k = (err x, r)
  with_read (ok a) r k = k a

  unfoldable pub method_not_allowed_response : Result Response Thrown
  method_not_allowed_response = error_response 405 (bytes "method not allowed")

  unfoldable pub not_found_response : Result Response Thrown
  not_found_response = error_response 404 (bytes "not found")

  unfoldable pub handle_projects : Verb → Bytes → Env → Repo F → Answer
  handle_projects get body e r =
      (ok_response (L.array (map (project_to_json L) (list_projects r))), r)
  handle_projects post body e r = with_json body r (λ j.
      with_read
        (do
          name ← L.value j (bytes "name")
          desc ← L.value j (bytes "description")
          ok (name, desc))
        r
        (λ (name, desc).
          answer_created (bytes "invalid input") (project_to_json L)
            (create_project r name desc e)))
  handle_projects delete_ body e r = (method_not_allowed_response, r)
  handle_projects other_verb body e r = (method_not_allowed_response, r)

  abbrev pub answer_deleted : Reply F Bool → Answer
  answer_deleted (err x, r) = (error_response (status_to_http x) (bytes "not found"), r)
  answer_deleted (ok b, r) = (ok_response (L.object ((bytes "deleted", L.boolean true) ∷ [])), r)

  unfoldable pub handle_project : Verb → Bytes → Repo F → Answer
  handle_project get id r = elim (get_project r id) [
    | err x ↦ (error_response (status_to_http x) (bytes "error"), r)
    | ok p ↦ (ok_response (project_to_json L p), r)
  ]
  handle_project delete_ id r = answer_deleted (delete_project r id)
  handle_project post id r = (method_not_allowed_response, r)
  handle_project other_verb id r = (method_not_allowed_response, r)

  unfoldable pub handle_scenarios : Verb → Bytes → Bytes → Env → Repo F → Answer
  handle_scenarios get project_id body e r =
      (ok_response (L.array (map (scenario_to_json L) (list_scenarios r project_id))), r)
  handle_scenarios post project_id body e r = with_json body r (λ j.
      with_read
        (do
          name ← L.value j (bytes "name")
          version ← L.value j (bytes "version")
          yaml ← L.value j (bytes "yaml")
          ok (name, version, yaml))
        r
        (λ (name, version, yaml).
          answer_created (bytes "error") (scenario_to_json L)
            (create_scenario r project_id name version yaml e)))
  handle_scenarios delete_ project_id body e r = (method_not_allowed_response, r)
  handle_scenarios other_verb project_id body e r = (method_not_allowed_response, r)

  unfoldable pub handle_runs : Verb → Bytes → Bytes → Env → Repo F → Answer
  handle_runs get project_id body e r =
      (ok_response (L.array (map (run_to_json L) (list_runs r project_id))), r)
  handle_runs post project_id body e r = with_json body r (λ j.
      with_read
        (do
          scenario ← L.value j (bytes "scenario_id")
          environment ← L.value j (bytes "environment")
          ok (scenario, environment))
        r
        (λ (scenario, environment).
          answer_created (bytes "error") (run_to_json L)
            (create_run r project_id scenario environment e)))
  handle_runs delete_ project_id body e r = (method_not_allowed_response, r)
  handle_runs other_verb project_id body e r = (method_not_allowed_response, r)

  abbrev pub read_rules : Option (List J) → Result (List (PolicyRule F)) Thrown
  read_rules none = ok []
  read_rules (some js) = from_json_rules L js

  unfoldable pub handle_policies : Verb → Bytes → Bytes → Env → Repo F → Answer
  handle_policies get project_id body e r =
      (ok_response (L.array (map (policy_to_json L) (list_policies r project_id))), r)
  handle_policies post project_id body e r = with_json body r (λ j.
      with_read
        (do
          rules ← read_rules (L.array_at j (bytes "rules"))
          name ← L.value j (bytes "name")
          ok (rules, name))
        r
        (λ (rules, name).
          answer_created (bytes "error") (policy_to_json L)
            (create_policy r project_id name rules e)))
  handle_policies delete_ project_id body e r = (method_not_allowed_response, r)
  handle_policies other_verb project_id body e r = (method_not_allowed_response, r)

  abbrev pub answer_evaluation : Double F → Bytes → Bytes → Repo F → Answer
  answer_evaluation D run_id policy_id r =
      if is_empty run_id || is_empty policy_id
      then (error_response 400 (bytes "run_id and policy_id required"), r)
      else (ok_response (evaluation_to_json L (evaluate D r run_id policy_id)), r)

  unfoldable pub handle_evaluate : Double F → Verb → Bytes → Repo F → Answer
  handle_evaluate D post body r = with_json body r (λ j.
      with_read
        (do
          run_id ← L.value j (bytes "run_id")
          policy_id ← L.value j (bytes "policy_id")
          ok (run_id, policy_id))
        r (λ (run_id, policy_id). answer_evaluation D run_id policy_id r))
  handle_evaluate D get body r = (method_not_allowed_response, r)
  handle_evaluate D delete_ body r = (method_not_allowed_response, r)
  handle_evaluate D other_verb body r = (method_not_allowed_response, r)

  unfoldable pub route_other : Double F → Verb → Bytes → Bytes → Repo F → Answer
  route_other D verb path body r =
      if eqb path (bytes "/api/v1/evaluate")
      then handle_evaluate D verb body r
      else if eqb path (bytes "/health")
      then (ok_response (L.object ((bytes "status", L.string (bytes "ok")) ∷ [])), r)
      else (not_found_response, r)

  -- The parts of a project by the rest of the path behind its identifier.
  unfoldable pub route_sub : Double F → Verb → Bytes → Bytes → Bytes → Bytes → Env → Repo F → Answer
  route_sub D verb path project_id sub body e r =
      if eqb sub (bytes "/scenarios")
      then handle_scenarios verb project_id body e r
      else if eqb sub (bytes "/runs")
      then handle_runs verb project_id body e r
      else if eqb sub (bytes "/policies")
      then handle_policies verb project_id body e r
      else route_other D verb path body r

  -- Below a project: the path behind its prefix.
  unfoldable pub route_project : Double F → Verb → Bytes → Bytes → Bytes → Env → Repo F → Answer
  route_project D verb path rest body e r = elim (find b'/' rest) [
    | none ↦ handle_project verb rest r
    | some slash ↦ route_sub D verb path (take slash rest) (drop slash rest) body e r
  ]

  unfoldable pub route : Double F → Verb → Bytes → Bytes → Env → Repo F → Answer
  route D verb path body e r =
      if eqb path projects_path
      then handle_projects verb body e r
      else if starts_with project_prefix path
      then route_project D verb path (drop 17 path) body e r
      else route_other D verb path body r

  -- `handle_session` behind the read of the request.
  unfoldable pub handle_session : Double F → Request → Env → Repo F → Answer
  handle_session D q e r = route D q.verb (extract_path q.target) q.body e r

  -- `accept_loop` serves one request after the other and catches nothing: an exception leaves the thread,
  -- which ends the process. The flag tells whether the server still runs.
  unfoldable pub accept_loop :
      Double F → List (Env × Request) → Repo F → List Response × (Bool × Repo F)
  accept_loop D [] r = ([], (true, r))
  accept_loop D ((e, q) ∷ qs) r =
      let (answer, r') = handle_session D q e r in
      elim answer [
        | err x ↦ ([], (false, r'))
        | ok a ↦ let (answers, rest) = accept_loop D qs r' in (a ∷ answers, rest)
      ]
