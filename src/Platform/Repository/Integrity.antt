-- ===== src/Platform/Repository/Integrity.antt =====
-- core/platform/in_memory_repo.cpp: every scenario, run and policy belongs to a project that exists.
use cppload_workflow.Prelude.{
  ◌≡◌, inl, inr, Bool, true, false, ◌||◌, Option, none, some, List, [], ◌∷◌, arith, Bool-cases,
  Option-cases, Bytes, eqb, eqb_iff, is_empty, Dict, lookup, insert, remove, Every, lookup-insert,
  lookup-remove, insert-Every, erase_if-Every, Every-mono, lookup-Every,
}
use cppload_workflow.Platform.Models.{RunStatus, Project, RunResult, PolicyRule, is_finished}
use cppload_workflow.Platform.Repository.{
  Env, Repo, create_project, delete_project, find_owner, create_scenario, create_run, finish_run,
  create_policy,
}

-- The members that change the repository.
pub data Call (F : Type 0) : Type 0 where
  creates_project : Bytes → Bytes → Call F
  deletes_project : Bytes → Call F
  creates_scenario : Bytes → Bytes → Bytes → Bytes → Call F
  creates_run : Bytes → Bytes → Bytes → Call F
  finishes_run : Bytes → RunStatus → RunResult F → Call F
  creates_policy : Bytes → Bytes → List (PolicyRule F) → Call F

abbrev pub is_some {ℓ} : {A : Type ℓ} → Option A → Bool
is_some none = false
is_some (some a) = true

abbrev pub Owned : Dict Project → Bytes → Type 0
Owned ps id = is_some (lookup id ps) ≡ true

Owned-insert :
    (ps : Dict Project) (k : Bytes) (p : Project) (id : Bytes)
    → Owned ps id
    → Owned (insert k p ps) id
Owned-insert ps k p id h = ground (arith, lookup-insert id k p ps)

Owned-remove :
    (ps : Dict Project) (k id : Bytes) → Owned ps id × (eqb id k ≡ false) → Owned (remove k ps) id
Owned-remove ps k id (h, e) = ground (arith, lookup-remove id k ps, eqb_iff k id, eqb_iff id k)

module _ {F : Type 0} where
  -- One member at a time; a reply is not looked at.
  unfoldable pub step : Repo F → Env × Call F → Repo F
  step r (e, creates_project name description) = (create_project r name description e).1
  step r (e, deletes_project id) = (delete_project r id).1
  step r (e, creates_scenario project name version yaml) =
      (create_scenario r project name version yaml e).1
  step r (e, creates_run project scenario environment) =
      (create_run r project scenario environment e).1
  step r (e, finishes_run id status result) = (finish_run r id status result e).1
  step r (e, creates_policy project name rules) = (create_policy r project name rules e).1

  unfoldable pub run_calls : Repo F → List (Env × Call F) → Repo F
  run_calls r [] = r
  run_calls r (c ∷ cs) = run_calls (step r c) cs

  pub record Integrity (r : Repo F) : Type 0 where
    pub scenarios_owned : Every (λ s. Owned r.projects s.project_id) r.scenarios
    pub runs_owned : Every (λ u. Owned r.projects u.project_id) r.runs
    pub policies_owned : Every (λ p. Owned r.projects p.project_id) r.policies

  find_owner-Owned :
      (r : Repo F) (id : Bytes) (bad : Bool) → find_owner r id bad ≡ none → Owned r.projects id
  unfolding find_owner
  find_owner-Owned r id bad e = ground arith

  create_project-Integrity :
      (r : Repo F) (name description : Bytes) (e : Env)
      → Integrity r
      → Integrity (create_project r name description e).1
  unfolding create_project
  create_project-Integrity r name description e v = elim (Bool-cases (is_empty name)) [
    | inl t ↦ rw t v
    | inr t ↦ rw t (record {
      scenarios_owned =
          Every-mono _ _ (λ s. Owned-insert r.projects _ _ s.project_id) r.scenarios
            v.scenarios_owned;
      runs_owned =
          Every-mono _ _ (λ s. Owned-insert r.projects _ _ s.project_id) r.runs v.runs_owned;
      policies_owned =
          Every-mono _ _ (λ s. Owned-insert r.projects _ _ s.project_id) r.policies
            v.policies_owned;
    })
  ]

  delete_project-Integrity :
      (r : Repo F) (id : Bytes) → Integrity r → Integrity (delete_project r id).1
  unfolding delete_project
  delete_project-Integrity r id v = elim (Option-cases (lookup id r.projects)) [
    | inl t ↦ rw (t, delete_project) v
    | inr (p, t) ↦
        rw (t, delete_project)
          (record {
            scenarios_owned =
                Every-mono _ _ (λ s. Owned-remove r.projects id s.project_id) _
                  (erase_if-Every _ (λ s. eqb s.project_id id) r.scenarios v.scenarios_owned);
            runs_owned =
                Every-mono _ _ (λ s. Owned-remove r.projects id s.project_id) _
                  (erase_if-Every _ (λ s. eqb s.project_id id) r.runs v.runs_owned);
            policies_owned =
                Every-mono _ _ (λ s. Owned-remove r.projects id s.project_id) _
                  (erase_if-Every _ (λ s. eqb s.project_id id) r.policies v.policies_owned);
          })
  ]

  create_scenario-Integrity :
      (r : Repo F) (project name version yaml : Bytes) (e : Env)
      → Integrity r
      → Integrity (create_scenario r project name version yaml e).1
  unfolding create_scenario
  create_scenario-Integrity r project name version yaml e v =
      elim (Option-cases (find_owner r project (is_empty project || is_empty name))) [
        | inr (x, t) ↦ rw (t, create_scenario) v
        | inl t ↦
            rw (t, create_scenario)
              (record {
                scenarios_owned =
                    insert-Every _ _ _ r.scenarios (find_owner-Owned r project _ t)
                      v.scenarios_owned;
                runs_owned = v.runs_owned;
                policies_owned = v.policies_owned;
              })
      ]

  create_run-Integrity :
      (r : Repo F) (project scenario environment : Bytes) (e : Env)
      → Integrity r
      → Integrity (create_run r project scenario environment e).1
  unfolding create_run
  create_run-Integrity r project scenario environment e v =
      elim (Option-cases (find_owner r project (is_empty project))) [
        | inr (x, t) ↦ rw (t, create_run) v
        | inl t ↦
            rw (t, create_run)
              (record {
                scenarios_owned = v.scenarios_owned;
                runs_owned =
                    insert-Every _ _ _ r.runs (find_owner-Owned r project _ t) v.runs_owned;
                policies_owned = v.policies_owned;
              })
      ]

  create_policy-Integrity :
      (r : Repo F) (project name : Bytes) (rules : List (PolicyRule F)) (e : Env)
      → Integrity r
      → Integrity (create_policy r project name rules e).1
  unfolding create_policy
  create_policy-Integrity r project name rules e v =
      elim (Option-cases
        (find_owner r project (is_empty project || is_empty name || is_empty rules))) [
          | inr (x, t) ↦ rw (t, create_policy) v
          | inl t ↦
              rw (t, create_policy)
                (record {
                  scenarios_owned = v.scenarios_owned;
                  runs_owned = v.runs_owned;
                  policies_owned =
                      insert-Every _ _ _ r.policies (find_owner-Owned r project _ t)
                        v.policies_owned;
                })
        ]

  finish_run-Integrity :
      (r : Repo F) (id : Bytes) (status : RunStatus) (result : RunResult F) (e : Env)
      → Integrity r
      → Integrity (finish_run r id status result e).1
  unfolding finish_run
  finish_run-Integrity r id status result e v = elim (Option-cases (lookup id r.runs)) [
    | inl t ↦ rw (t, finish_run) v
    | inr (u, t) ↦
        rw (t, finish_run)
          (elim (Bool-cases (is_finished u.status)) [
            | inl d ↦ rw d v
            | inr d ↦ rw d (record {
              scenarios_owned = v.scenarios_owned;
              runs_owned =
                  insert-Every _ _ _ r.runs (lookup-Every _ id r.runs u v.runs_owned t)
                    v.runs_owned;
              policies_owned = v.policies_owned;
            })
          ])
  ]

  step-Integrity : (r : Repo F) (c : Env × Call F) → Integrity r → Integrity (step r c)
  unfolding step
  step-Integrity r (e, creates_project name description) v =
      create_project-Integrity r name description e v
  step-Integrity r (e, deletes_project id) v = delete_project-Integrity r id v
  step-Integrity r (e, creates_scenario project name version yaml) v =
      create_scenario-Integrity r project name version yaml e v
  step-Integrity r (e, creates_run project scenario environment) v =
      create_run-Integrity r project scenario environment e v
  step-Integrity r (e, finishes_run id status result) v =
      finish_run-Integrity r id status result e v
  step-Integrity r (e, creates_policy project name rules) v =
      create_policy-Integrity r project name rules e v

  -- From a repository in which every scenario, run and policy belongs to a project that exists, no
  -- history of members leaves one without its project, where each member runs as a whole.
  pub run_calls-Integrity :
      (r : Repo F) (cs : List (Env × Call F)) → Integrity r → Integrity (run_calls r cs)
  unfolding run_calls
  run_calls-Integrity r [] v = v
  run_calls-Integrity r (c ∷ cs) v = run_calls-Integrity (step r c) cs (step-Integrity r c v)
