-- ===== src/Metrics/Exporter/Following.antt =====
-- core/metrics/prometheus_exporter.cpp: the counters follow the collector.
use cppload_workflow.Prelude.{ℕ, ◌+◌, ◌-◌, ◌≤◌, ◌≡◌, refl, List, [], ◌∷◌, arith}
use cppload_workflow.Metrics.Exporter.{delta_or_reset}

-- A counter after some readings of the collector's.
unfoldable pub follow : ℕ → ℕ → List ℕ → ℕ
follow counter last [] = counter
follow counter last (curr ∷ cs) = follow (counter + delta_or_reset curr last) curr cs

abbrev pub IsGrowing : ℕ → List ℕ → Type 0
IsGrowing last [] = Unit
IsGrowing last (curr ∷ cs) = (last ≤ curr) × IsGrowing curr cs

abbrev pub last_of : ℕ → List ℕ → ℕ
last_of last [] = last
last_of last (curr ∷ cs) = last_of curr cs

-- While the collector is not reset, a counter has grown by as much as the collector's.
follow_growing :
    (counter last : ℕ) (cs : List ℕ)
    → IsGrowing last cs
    → follow counter last cs + last ≡ counter + last_of last cs
unfolding follow delta_or_reset
follow_growing counter last [] g = refl
follow_growing counter last (curr ∷ cs) (h, g) =
    let step : delta_or_reset curr last ≡ curr - last = ground arith in
    rw step (omega (arith, h, follow_growing (counter + (curr - last)) curr cs g))
