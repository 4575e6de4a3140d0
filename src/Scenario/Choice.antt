-- ===== src/Scenario/Choice.antt =====
-- core/scenario/engine.cpp: `pick_weighted_scenario`. The number that the generator draws below the total
-- is an argument; a scenario is given by its weight and named by its position.
pub mod Weights
pub mod Tests
use cppload_workflow.Prelude.{
  ℕ, zero, suc, ◌+◌, ◌-◌, Option, none, some, List, [], ◌∷◌, ltb, if◌then◌else◌,
}
use cppload_workflow.Scenario.Config.{Scenario}

unfoldable pub total_weight : List Scenario → ℕ
total_weight [] = 0
total_weight (s ∷ ss) = (if ltb 0 s.weight then s.weight else 1) + total_weight ss

-- The loop, from position `i`; past the end it is the last scenario.
unfoldable pub pick_from : List Scenario → ℕ → ℕ → ℕ
pick_from [] pick i = i - 1
pick_from (s ∷ ss) pick i =
    let w = if ltb 0 s.weight then s.weight else 1 in
    let rest = pick_from ss (pick - w) (suc i) in if ltb pick w then i else rest

unfoldable pub pick_weighted_scenario : List Scenario → ℕ → Option ℕ
unfolding pick_from
pick_weighted_scenario [] pick = none
pick_weighted_scenario (s ∷ ss) pick = some (pick_from (s ∷ ss) pick 0)
