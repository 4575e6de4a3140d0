-- ===== src/Platform/Server/Tests.antt =====
-- core/platform/http_server.cpp at concrete inputs, with a small JSON library: a value is its text, and
-- only a text that starts with `{` is an object.
use cppload_workflow.Prelude.{
  ℕ, ◌≡◌, refl, false, none, some, [], ◌∷◌, Bytes, eqb, starts_with, ok, err, whole, if◌then◌else◌,
}
use cppload_workflow.Platform.Repository.{Env, Repo, empty}
use cppload_workflow.Platform.Repository.Integrity.{Integrity}
use cppload_workflow.Platform.Json.{JsonLibrary, thrown}
use cppload_workflow.Platform.Server.{post, delete_, Request, route, accept_loop, projects_path}
use cppload_workflow.Platform.Server.Refinement.{accept_loop-Integrity}
use cppload_workflow.Platform.Server.Interface.{IsPlace, path_of, project, calls_at, performed}
use cppload_workflow.Platform.Server.Dispatch.{route-run_calls}
use cppload_workflow.Platform.Server.Routing.{accept_loop_dies}

abbrev texts : JsonLibrary ℕ Bytes
texts = record {
  parse = λ s. if eqb s [] then none else some s;
  value = λ j k. if starts_with (b'{' ∷ []) j then ok k else err thrown;
  array_at = λ j k. none;
  text_at = λ j k. ok k;
  number_at = λ j k. ok 0;
  string = λ s. s;
  number = λ n. n ∷ [];
  floating = λ n. n ∷ [];
  boolean = λ b. [];
  array = λ l. [];
  object = λ l. [];
  dump = λ j. ok j;
}

abbrev at_one : Env
at_one = record { now = 1; steady_ns = 1; random = 1 }

abbrev creation : Request
creation = record { verb = post; target = projects_path; body = b'{' ∷ [] }

abbrev stocked : Repo ℕ
stocked = record {
  projects =
      (b'p' ∷ [], record { id = b'p' ∷ []; name = b'n' ∷ []; description = []; created_at = 1 })
      ∷ [];
  scenarios = [];
  runs = [];
  policies = [];
  counter = 1;
}

-- The deletion of a project.
route-run_calls_example :
    (route texts whole delete_ (path_of (project (b'p' ∷ []))) [] at_one stocked).1
    ≡ performed texts at_one stocked (calls_at texts delete_ (project (b'p' ∷ [])) [])
unfolding IsPlace
route-run_calls_example =
    route-run_calls texts whole delete_ at_one stocked (project (b'p' ∷ [])) [] (refl, tt)

accept_loop-Integrity_example :
    Integrity {F = ℕ} (accept_loop texts whole ((at_one, creation) ∷ []) empty).1.1
unfolding empty
accept_loop-Integrity_example =
    accept_loop-Integrity texts whole ((at_one, creation) ∷ []) empty
      (record { scenarios_owned = tt; runs_owned = tt; policies_owned = tt })

accept_loop_dies_example :
    accept_loop texts whole
      ((at_one, record { verb = post; target = projects_path; body = b'[' ∷ [] })
        ∷ (at_one, creation)
        ∷ [])
      empty
    ≡ ([], (false, empty))
unfolding eqb starts_with
accept_loop_dies_example =
    accept_loop_dies texts whole (b'[' ∷ []) (b'[' ∷ []) thrown at_one ((at_one, creation) ∷ [])
      empty refl refl
