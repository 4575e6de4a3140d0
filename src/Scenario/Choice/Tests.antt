-- ===== src/Scenario/Choice/Tests.antt =====
-- core/scenario/engine.cpp, `pick_weighted_scenario`, at concrete inputs.
use cppload_workflow.Prelude.{ℕ, ◌≡◌, some, List, [], ◌∷◌, arith}
use cppload_workflow.Scenario.Config.{Scenario}
use cppload_workflow.Scenario.Choice.{total_weight, pick_weighted_scenario}
use cppload_workflow.Scenario.Choice.Weights.{Between, pick_weighted-Between}

abbrev shopping : List Scenario
shopping =
    record { name = []; weight = 0; steps = [] }
    ∷ record { name = []; weight = 70; steps = [] }
    ∷ record { name = []; weight = 30; steps = [] }
    ∷ []

pick_weighted-Between_example :
    (total_weight shopping ≡ 101)
    × ((k : ℕ) × (pick_weighted_scenario shopping 71 ≡ some k) × Between shopping k 71)
pick_weighted-Between_example = pick_weighted-Between shopping 71 (omega arith)
