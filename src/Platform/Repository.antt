-- ===== src/Platform/Repository.antt =====
-- include/cppload/platform/repository.hpp and core/platform/in_memory_repo.cpp. Each member locks the
-- mutex once, but the `create_` members of a project's parts lock it twice, first to look the project
-- up and then to insert: these are the pairs `find_owner` and `insert_`.
pub mod Ids
pub mod Integrity
pub mod Listing
pub mod Contract
pub mod Tests
use cppload_workflow.Prelude.{
  ℕ, suc, ◌+◌, ◌-◌, ◌/◌, ◌%◌, ◌^◌, Bool, true, false, not, ◌||◌, Option, none, some, List, [], ◌∷◌,
  ◌++◌, ltb, if◌then◌else◌, Bytes, eqb, is_empty, Dict, lookup, insert, remove, erase_if, values,
  Result, ok, err,
}
use cppload_workflow.Platform.Models.{
  RunStatus, pending, Project, Scenario, RunResult, Run, PolicyRule, Policy, PlatformError,
  not_found, invalid_input, invalid_state, is_finished,
}

-- What the clocks and the generator of random numbers give to one call.
pub record Env : Type 0 where
  pub now : ℕ
  pub steady_ns : ℕ
  pub random : ℕ

pub record Repo (F : Type 0) : Type 0 where
  pub projects : Dict Project
  pub scenarios : Dict Scenario
  pub runs : Dict (Run F)
  pub policies : Dict (Policy F)
  pub counter : ℕ

unfoldable pub hex_digit : ℕ → ℕ
hex_digit n = if ltb n 10 then b'0' + n else b'a' + (n - 10)

-- `width` hexadecimal digits, filled with zeros.
unfoldable pub hex_field : ℕ → ℕ → Bytes
hex_field ℕ.zero n = []
hex_field (suc width) n = hex_digit (n / 16 ^ width % 16) ∷ hex_field width n

unfoldable pub generate_id : Env → ℕ → Bytes
unfolding hex_field
generate_id e seq =
    hex_field 8 (e.steady_ns % 2 ^ 32)
    ++ (hex_field 4 (seq % 2 ^ 16) ++ hex_field 4 (e.random % 2 ^ 16))

-- `std::sort` by a falling key.
module _ {ℓ} {A : Type ℓ} (key : A → ℕ) where
  unfoldable pub sort_insert : A → List A → List A
  sort_insert a [] = a ∷ []
  sort_insert a (b ∷ l) = if ltb (key b) (key a) then a ∷ b ∷ l else b ∷ sort_insert a l

  unfoldable pub sort_desc : List A → List A
  sort_desc [] = []
  sort_desc (a ∷ l) = sort_insert a (sort_desc l)

-- The entries of a project, as the `list_` members collect them.
unfoldable pub select {ℓ} : {A : Type ℓ} → (A → Bool) → List A → List A
select p [] = []
select p (a ∷ l) = if p a then a ∷ select p l else select p l

abbrev pub or_not_found {ℓ} : {A : Type ℓ} → Option A → Result A PlatformError
or_not_found none = err not_found
or_not_found (some a) = ok a

-- What a member returns, with the repository that it leaves.
abbrev pub Reply : Type 0 → Type 0 → Type 0
Reply F A = Result A PlatformError × Repo F

module _ {F : Type 0} where
  unfoldable pub empty : Repo F
  empty = record { projects = []; scenarios = []; runs = []; policies = []; counter = 0 }

  unfoldable pub create_project : Repo F → Bytes → Bytes → Env → Reply F Project
  create_project r name description e = if is_empty name then (err invalid_input, r) else (
    ok project,
    record r { projects = insert project.id project r.projects; counter = suc r.counter },
  )
    where
      project : Project
      project = record {
        id = generate_id e r.counter;
        name = name;
        description = description;
        created_at = e.now;
      }

  unfoldable pub get_project : Repo F → Bytes → Result Project PlatformError
  get_project r id = or_not_found (lookup id r.projects)

  unfoldable pub list_projects : Repo F → List Project
  list_projects r = sort_desc (λ p. p.created_at) (values r.projects)

  unfoldable pub delete_project : Repo F → Bytes → Reply F Bool
  delete_project r id = elim (lookup id r.projects) [
    | none ↦ (err not_found, r)
    | some _ ↦ (
      ok true,
      record r {
        projects = remove id r.projects;
        scenarios = erase_if (λ s. eqb s.project_id id) r.scenarios;
        runs = erase_if (λ u. eqb u.project_id id) r.runs;
        policies = erase_if (λ p. eqb p.project_id id) r.policies;
      },
    )
  ]

  -- The first locked section of a `create_` member.
  unfoldable pub find_owner : Repo F → Bytes → Bool → Option PlatformError
  find_owner r project_id is_invalid =
      if is_invalid
      then some invalid_input
      else elim (lookup project_id r.projects) [ none ↦ some not_found | some _ ↦ none ]

  -- What stands behind the first section: the object is made and inserted.
  unfoldable pub insert_scenario : Repo F → Bytes → Bytes → Bytes → Bytes → Env → Reply F Scenario
  insert_scenario r project_id name version yaml e = (
    ok scenario,
    record r { scenarios = insert scenario.id scenario r.scenarios; counter = suc r.counter },
  )
    where
      scenario : Scenario
      scenario = record {
        id = generate_id e r.counter;
        project_id = project_id;
        name = name;
        version = version;
        yaml_content = yaml;
        created_at = e.now;
      }

  unfoldable pub create_scenario : Repo F → Bytes → Bytes → Bytes → Bytes → Env → Reply F Scenario
  unfolding find_owner insert_scenario
  create_scenario r project_id name version yaml e =
      elim (find_owner r project_id (is_empty project_id || is_empty name)) [
        | some x ↦ (err x, r)
        | none ↦ insert_scenario r project_id name version yaml e
      ]

  unfoldable pub get_scenario : Repo F → Bytes → Result Scenario PlatformError
  get_scenario r id = or_not_found (lookup id r.scenarios)

  unfoldable pub list_scenarios : Repo F → Bytes → List Scenario
  list_scenarios r project_id =
      sort_desc (λ s. s.created_at) (select (λ s. eqb s.project_id project_id) (values r.scenarios))

  unfoldable pub insert_run : Repo F → Bytes → Bytes → Bytes → Env → Reply F (Run F)
  insert_run r project_id scenario_id environment e =
      (ok run, record r { runs = insert run.id run r.runs; counter = suc r.counter })
    where
      run : Run F
      run = record {
        id = generate_id e r.counter;
        project_id = project_id;
        scenario_id = scenario_id;
        environment = environment;
        status = pending;
        started_at = e.now;
        finished_at = none;
        result = none;
      }

  unfoldable pub create_run : Repo F → Bytes → Bytes → Bytes → Env → Reply F (Run F)
  unfolding find_owner insert_run
  create_run r project_id scenario_id environment e =
      elim (find_owner r project_id (is_empty project_id)) [
        | some x ↦ (err x, r)
        | none ↦ insert_run r project_id scenario_id environment e
      ]

  unfoldable pub get_run : Repo F → Bytes → Result (Run F) PlatformError
  get_run r id = or_not_found (lookup id r.runs)

  unfoldable pub list_runs : Repo F → Bytes → List (Run F)
  list_runs r project_id =
      sort_desc (λ u. u.started_at) (select (λ u. eqb u.project_id project_id) (values r.runs))

  abbrev pub finish : Run F → RunStatus → RunResult F → ℕ → Run F
  finish u status result now = record u {
    status = status;
    finished_at = some now;
    result = some result;
  }

  unfoldable pub finish_run : Repo F → Bytes → RunStatus → RunResult F → Env → Reply F Bool
  finish_run r id status result e = elim (lookup id r.runs) [
    | none ↦ (err not_found, r)
    | some u ↦
        if is_finished u.status
        then (err invalid_state, r)
        else (ok true, record r { runs = insert id (finish u status result e.now) r.runs })
  ]

  unfoldable pub insert_policy :
      Repo F → Bytes → Bytes → List (PolicyRule F) → Env → Reply F (Policy F)
  insert_policy r project_id name rules e = (
    ok policy,
    record r { policies = insert policy.id policy r.policies; counter = suc r.counter },
  )
    where
      policy : Policy F
      policy = record {
        id = generate_id e r.counter;
        project_id = project_id;
        name = name;
        rules = rules;
        created_at = e.now;
      }

  unfoldable pub create_policy :
      Repo F → Bytes → Bytes → List (PolicyRule F) → Env → Reply F (Policy F)
  unfolding find_owner insert_policy
  create_policy r project_id name rules e =
      elim (find_owner r project_id (is_empty project_id || is_empty name || is_empty rules)) [
        | some x ↦ (err x, r)
        | none ↦ insert_policy r project_id name rules e
      ]

  unfoldable pub get_policy : Repo F → Bytes → Result (Policy F) PlatformError
  get_policy r id = or_not_found (lookup id r.policies)

  unfoldable pub list_policies : Repo F → Bytes → List (Policy F)
  list_policies r project_id = select (λ p. eqb p.project_id project_id) (values r.policies)
