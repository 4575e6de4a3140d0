-- ===== src/Scenario/Stages/Limits.antt =====
-- core/scenario/engine.cpp, `ScenarioEngine::Impl::run`: the cap of the pool and the ends of the stages.
use cppload_workflow.Prelude.{ℕ, ◌≤◌, List, [], ◌∷◌, arith, max, All}
use cppload_workflow.Scenario.Config.{Stage}
use cppload_workflow.Scenario.Stages.{users_of, stage_concurrency, pool_max, concurrency_of}

pool_max-grows : (c cap : ℕ) (ss : List Stage) → cap ≤ pool_max c cap ss
unfolding pool_max
pool_max-grows c cap [] = omega arith
pool_max-grows c cap (s ∷ ss) = omega (arith, pool_max-grows c (max cap (users_of c s)) ss)

pool_max-All :
    (c cap : ℕ) (ss : List Stage)
    → 1 ≤ cap
    → All (λ s. stage_concurrency c s ≤ pool_max c cap ss) ss
unfolding pool_max stage_concurrency
pool_max-All c cap [] h = tt
pool_max-All c cap (s ∷ ss) h =
    let cap' = max cap (users_of c s) in
    (omega (arith, h, pool_max-grows c cap' ss), pool_max-All c cap' ss (omega (arith, h)))

concurrency_positive : (ss : List Stage) → 1 ≤ concurrency_of ss
unfolding concurrency_of
concurrency_positive [] = ground arith
concurrency_positive (s ∷ ss) = ground arith

-- The cap of the pool that `run` makes is no less than the number of workers of any of its stages.
pub pool_max_covers :
    (ss : List Stage)
    → All
        (λ s.
          stage_concurrency (concurrency_of ss) s
          ≤ pool_max (concurrency_of ss) (concurrency_of ss) ss)
        ss
pool_max_covers ss =
    pool_max-All (concurrency_of ss) (concurrency_of ss) ss (concurrency_positive ss)
