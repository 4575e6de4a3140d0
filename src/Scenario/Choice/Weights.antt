-- ===== src/Scenario/Choice/Weights.antt =====
-- core/scenario/engine.cpp: how often a scenario is picked.
use cppload_workflow.Prelude.{
  ℕ, zero, suc, refl, if◌then◌else◌, ◌+◌, ◌-◌, ◌≤◌, ◌<◌, ◌≡◌, ap, ◌∙◌, inl, inr, some, List, [],
  ◌∷◌, ltb, take, arith, Bool-cases,
}
use cppload_workflow.Scenario.Config.{Scenario}
use cppload_workflow.Scenario.Choice.{total_weight, pick_from, pick_weighted_scenario}

-- The numbers that a weight is worth: as many as it says, and one for a weight of 0.
abbrev pub share : ℕ → ℕ
share zero = 1
share (suc n) = suc n

abbrev pub shares : List Scenario → ℕ
shares [] = 0
shares (s ∷ ss) = share s.weight + shares ss

abbrev pub Between : List Scenario → ℕ → ℕ → Type 0
Between ss k pick = (shares (take k ss) ≤ pick) × (pick < shares (take (suc k) ss))

share_lem : (n : ℕ) → (if ltb 0 n then n else 1) ≡ share n
share_lem zero = refl
share_lem (suc n) = ground arith

total_weight_lem : (ss : List Scenario) → total_weight ss ≡ shares ss
unfolding total_weight
total_weight_lem [] = refl
total_weight_lem (s ∷ ss) = omega (arith, share_lem s.weight, total_weight_lem ss)

-- A round of the loop, in terms of the share.
pick_from_cons :
    (s : Scenario) (ss : List Scenario) (pick i : ℕ)
    → pick_from (s ∷ ss) pick i
      ≡ (if ltb pick (share s.weight) then i else pick_from ss (pick - share s.weight) (suc i))
unfolding pick_from
pick_from_cons s ss pick i =
    ap (λ w. if ltb pick w then i else pick_from ss (pick - w) (suc i)) (share_lem s.weight)

pick_from-Between :
    (ss : List Scenario) (pick i : ℕ)
    → pick < shares ss
    → (k : ℕ) × ((pick_from ss pick i ≡ i + k) × Between ss k pick)
pick_from-Between [] pick i h = elim h [ ]
pick_from-Between (s ∷ ss) pick i h = elim (Bool-cases (ltb pick (share s.weight))) [
  | inl e ↦ (0, (pick_from_cons s ss pick i ∙ rw e (omega arith), (omega arith, ground arith)))
  | inr e ↦
      let (k, (same, (low, high))) =
        pick_from-Between ss (pick - share s.weight) (suc i) (ground arith) in
      (
        suc k,
        (
          pick_from_cons s ss pick i ∙ rw e (omega (arith, same)),
          (ground (arith, low), ground (arith, high)),
        ),
      )
]

-- The total is the sum of the shares of the scenarios, a share being the weight, and one for a weight of 0.
-- Every number below it picks a scenario, and scenario `k` is picked for the numbers between the shares before
-- it and the shares up to it.
pub pick_weighted-Between :
    (ss : List Scenario) (pick : ℕ)
    → pick < shares ss
    → (total_weight ss ≡ shares ss)
      × ((k : ℕ) × (pick_weighted_scenario ss pick ≡ some k) × Between ss k pick)
unfolding pick_weighted_scenario
pick_weighted-Between [] pick h = elim h [ ]
pick_weighted-Between (s ∷ ss) pick h =
    let (k, (same, between)) = pick_from-Between (s ∷ ss) pick 0 h in
    (total_weight_lem (s ∷ ss), (k, ap some (same ∙ omega arith), between))
