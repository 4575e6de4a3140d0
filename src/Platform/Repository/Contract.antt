-- ===== src/Platform/Repository/Contract.antt =====
-- core/platform/in_memory_repo.cpp: what a caller sees of the repository.
use cppload_workflow.Prelude.{
  ◌≡◌, ◌≢◌, refl, true, false, ◌||◌, Option, none, some, [], ◌∷◌, arith, Bytes, eqb, eqb_iff,
  eqb_refl, is_empty, Dict, lookup, insert, erase_if, Every, lookup-insert_same, Every-insert,
  lookup-remove, erase_if-Every, Every-mono, lookup-erase_if, Result, ok, err,
}
use cppload_workflow.Platform.Models.{
  RunStatus, Project, Scenario, RunResult, Run, is_finished, PlatformError, not_found,
  invalid_state,
}
use cppload_workflow.Platform.Repository.{
  Env, Repo, delete_project, find_owner, insert_scenario, finish_run, finish, get_project,
  get_scenario, get_run, get_policy, or_not_found,
}
use cppload_workflow.Platform.Repository.Integrity.{Integrity}

-- An entry of another project that is found before is found after.
abbrev pub Spared :
    {A : Type 0}
    → (A → Bytes)
    → Bytes
    → (Bytes → Result A PlatformError)
    → (Bytes → Result A PlatformError)
    → Type 0
Spared {A} owner id before after =
    (k : Bytes) (a : A) → before k ≡ ok a → owner a ≢ id → after k ≡ ok a

-- No entry of the project is left.
abbrev pub Gone : {A : Type 0} → (A → Bytes) → Bytes → Dict A → Type 0
Gone owner id m = Every (λ a. eqb (owner a) id ≡ false) m

any_entry : {A : Type 0} (m : Dict A) → Every (λ _. Unit {0}) m
any_entry [] = tt
any_entry ((k, a) ∷ m) = (tt, any_entry m)

Gone-erase_if :
    {A : Type 0} (owner : A → Bytes) (id : Bytes) (m : Dict A)
    → Gone owner id (erase_if (λ a. eqb (owner a) id) m)
Gone-erase_if owner id m =
    Every-mono _ _ (λ a h. h.1) _
      (erase_if-Every (λ _. Unit {0}) (λ a. eqb (owner a) id) m (any_entry m))

or_not_found-ok : {A : Type 0} (o : Option A) (a : A) → or_not_found o ≡ ok a → o ≡ some a
or_not_found-ok none a e = ground arith
or_not_found-ok (some b) a e = ground arith

Spared-erase_if :
    {A : Type 0} (owner : A → Bytes) (id : Bytes) (m : Dict A)
    → Spared owner id
        (λ k. or_not_found (lookup k m))
        (λ k. or_not_found (lookup k (erase_if (λ a. eqb (owner a) id) m)))
Spared-erase_if owner id m k a e n =
    let other : eqb (owner a) id ≡ false = ground (arith, eqb_iff (owner a) id) in
    rw (lookup-erase_if (λ b. eqb (owner b) id) k m a (or_not_found-ok (lookup k m) a e) other) refl

module _ {F : Type 0} where
  -- Deleting a project that exists removes it with every scenario, run and policy of it, and nothing else
  -- that `get_scenario`, `get_run` and `get_policy` find.
  pub delete_project_cascade :
      (r : Repo F) (id : Bytes) (p : Project)
      → get_project r id ≡ ok p
      → let (reply, r') = delete_project r id in
        (reply ≡ ok true)
        × (get_project r' id ≡ err not_found)
        × Gone (λ s. s.project_id) id r'.scenarios
        × Gone (λ u. u.project_id) id r'.runs
        × Gone (λ q. q.project_id) id r'.policies
        × Spared (λ s. s.project_id) id (get_scenario r) (get_scenario r')
        × Spared (λ u. u.project_id) id (get_run r) (get_run r')
        × Spared (λ q. q.project_id) id (get_policy r) (get_policy r')
  unfolding delete_project get_project get_scenario get_run get_policy
  delete_project_cascade r id p e =
      let found = or_not_found-ok (lookup id r.projects) p e in
      rw (found, delete_project)
        (
          refl,
          rw (lookup-remove id id r.projects, eqb_refl id),
          Gone-erase_if _ id r.scenarios,
          Gone-erase_if _ id r.runs,
          Gone-erase_if _ id r.policies,
          Spared-erase_if _ id r.scenarios,
          Spared-erase_if _ id r.runs,
          Spared-erase_if _ id r.policies,
        )

  finish_run-open :
      (r : Repo F) (id : Bytes) (u : Run F) (status : RunStatus) (result : RunResult F) (e : Env)
      → lookup id r.runs ≡ some u
      → is_finished u.status ≡ false
      → finish_run r id status result e
        ≡ (ok true, record r { runs = insert id (finish u status result e.now) r.runs })
  unfolding finish_run
  finish_run-open r id u status result e h o = rw (h, finish_run, o) refl

  finish_run-refused :
      (r : Repo F) (id : Bytes) (u : Run F) (status : RunStatus) (result : RunResult F) (e : Env)
      → lookup id r.runs ≡ some u
      → is_finished u.status ≡ true
      → finish_run r id status result e ≡ (err invalid_state, r)
  unfolding finish_run
  finish_run-refused r id u status result e h o = rw (h, finish_run, o) refl

  -- Where a run is found that is not finished, `finish_run` with the status completed or failed
  -- succeeds: the run holds that status, its result and the time, and every later attempt to finish
  -- it is refused with the repository unchanged.
  pub finish_run_once :
      (r : Repo F) (id : Bytes) (u : Run F) (status : RunStatus) (result : RunResult F) (e : Env)
      → get_run r id ≡ ok u
      → is_finished u.status ≡ false
      → is_finished status ≡ true
      → let (reply, r') = finish_run r id status result e in
        (reply ≡ ok true)
        × (get_run r' id ≡ ok (finish u status result e.now))
        × ((again : RunStatus) (other : RunResult F) (later : Env)
            → finish_run r' id again other later ≡ (err invalid_state, r'))
  unfolding get_run
  finish_run_once r id u status result e h open_run done =
      let found = or_not_found-ok (lookup id r.runs) u h in
      let now_holds = lookup-insert_same id (finish u status result e.now) r.runs in
      rw (finish_run-open r id u status result e found open_run) (
        refl,
        rw now_holds refl,
        λ again other later.
            finish_run-refused _ id (finish u status result e.now) again other later now_holds done,
      )

  -- The two locked sections of `create_scenario` are not one. For a project that exists and texts
  -- that are not empty: where a deletion of the project comes between them, the first finds the
  -- project, the second still inserts the scenario and reports success, and the scenario belongs to
  -- no project.
  pub create_scenario_race :
      (r : Repo F) (id name version yaml : Bytes) (e : Env) (p : Project)
      → get_project r id ≡ ok p
      → is_empty id ≡ false
      → is_empty name ≡ false
      → let r' = (delete_project r id).1 in
        let (reply, r'') = insert_scenario r' id name version yaml e in
        (find_owner r id (is_empty id || is_empty name) ≡ none)
        × ((s : Scenario) × (reply ≡ ok s) × (get_scenario r'' s.id ≡ ok s) × (s.project_id ≡ id))
        × (get_project r'' id ≡ err not_found)
        × ¬ Integrity r''
  unfolding find_owner insert_scenario delete_project get_project get_scenario
  create_scenario_race r id name version yaml e p h i n =
      let found = or_not_found-ok (lookup id r.projects) p h in
      rw (found, delete_project, find_owner, i, n)
        (
          refl,
          (_, refl, rw (lookup-insert_same _ _ _) refl, refl),
          rw (lookup-remove id id r.projects, eqb_refl id) refl,
          λ v. ground (
            arith,
            Every-insert _ _ _ _ v.scenarios_owned,
            lookup-remove id id r.projects,
            eqb_refl id,
          ),
        )
