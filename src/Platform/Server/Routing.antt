-- ===== src/Platform/Server/Routing.antt =====
-- core/platform/http_server.cpp: which handler a target reaches, and what ends the server.
use cppload_workflow.Prelude.{
  ◌≡◌, refl, false, some, List, [], ◌∷◌, ◌++◌, Bytes, bytes, eqb, find, starts_with, err, Double,
  take-append, drop-append, ◌∙◌, ap,
}
use cppload_workflow.Core.Url.Find.{Absent, find-append_cons, find-Absent}
use cppload_workflow.Platform.Repository.{Env, Repo}
use cppload_workflow.Platform.Json.{JsonLibrary, Thrown}
use cppload_workflow.Platform.Server.{
  Verb, post, Request, with_json, handle_projects, handle_project, handle_scenarios, handle_runs,
  handle_policies, route_project, route_sub, route, handle_session, accept_loop, extract_path,
  projects_path, project_prefix,
}

module _ {F J : Type 0} (L : JsonLibrary F J) (D : Double F) (v : Verb) where
  -- Behind the prefix of projects, the path up to the next slash is the identifier.
  pub route-prefix :
      (rest body : Bytes) (e : Env) (r : Repo F)
      → route L D v (project_prefix ++ rest) body e r
        ≡ route_project L D v (project_prefix ++ rest) rest body e r
  unfolding route eqb starts_with bytes
  route-prefix rest body e r = refl

  pub route_project-slash :
      (path id sub body : Bytes) (e : Env) (r : Repo F)
      → Absent b'/' id
      → route_project L D v path (id ++ (b'/' ∷ sub)) body e r
        ≡ route_sub L D v path id (b'/' ∷ sub) body e r
  unfolding route_project
  route_project-slash path id sub body e r a =
      rw
        (
          find-append_cons b'/' id sub a,
          route_project,
          take-append id (b'/' ∷ sub),
          drop-append id (b'/' ∷ sub),
        )
        refl

  -- A path of the interface reaches its handler with the identifier that stands in it, for every
  -- identifier without a slash.
  pub route-handlers :
      (id body : Bytes) (e : Env) (r : Repo F)
      → Absent b'/' id
      → (route L D v projects_path body e r ≡ handle_projects L v body e r)
        × (route L D v (project_prefix ++ id) body e r ≡ handle_project L v id r)
        × (route L D v (project_prefix ++ (id ++ bytes "/scenarios")) body e r
            ≡ handle_scenarios L v id body e r)
        × (route L D v (project_prefix ++ (id ++ bytes "/runs")) body e r
            ≡ handle_runs L v id body e r)
        × (route L D v (project_prefix ++ (id ++ bytes "/policies")) body e r
            ≡ handle_policies L v id body e r)
  unfolding route route_project route_sub bytes eqb starts_with
  route-handlers id body e r a = (
    refl,
    route-prefix id body e r ∙ rw (find-Absent b'/' id a, route_project) refl,
    route-prefix (id ++ bytes "/scenarios") body e r
        ∙ route_project-slash _ id (bytes "scenarios") body e r a,
    route-prefix (id ++ bytes "/runs") body e r
        ∙ route_project-slash _ id (bytes "runs") body e r a,
    route-prefix (id ++ bytes "/policies") body e r
        ∙ route_project-slash _ id (bytes "policies") body e r a,
  )

module _ {F J : Type 0} (L : JsonLibrary F J) (D : Double F) where
  projects_throw :
      (body : Bytes) (j : J) (x : Thrown) (e : Env) (r : Repo F)
      → L.parse body ≡ some j
      → L.value j (bytes "name") ≡ err x
      → handle_projects L post body e r ≡ (err x, r)
  unfolding handle_projects with_json
  projects_throw body j x e r p t = rw (p, t, with_json, handle_projects) refl

  projects-session :
      (body : Bytes) (e : Env) (r : Repo F)
      → handle_session L D (record { verb = post; target = projects_path; body = body }) e r
        ≡ handle_projects L post body e r
  unfolding handle_session extract_path route find bytes eqb
  projects-session body e r = refl

  -- A POST to the projects whose body parses to a value on which `value` throws, such as an array, ends
  -- the server: it is not answered, and no request behind it is.
  pub accept_loop_dies :
      (body : Bytes) (j : J) (x : Thrown) (e : Env) (qs : List (Env × Request)) (r : Repo F)
      → L.parse body ≡ some j
      → L.value j (bytes "name") ≡ err x
      → accept_loop L D ((e, record { verb = post; target = projects_path; body = body }) ∷ qs) r
        ≡ ([], (false, r))
  unfolding accept_loop
  accept_loop_dies body j x e qs r p t =
      let whole = projects-session body e r ∙ projects_throw body j x e r p t in
      rw (whole, accept_loop) (ap (λ a. ([], (false, a.1))) whole)
