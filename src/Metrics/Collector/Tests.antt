-- ===== src/Metrics/Collector/Tests.antt =====
-- core/metrics/collector.cpp at concrete inputs.
use cppload_workflow.Prelude.{◌≡◌, refl, inl, some, List, [], ◌∷◌, arith}
use cppload_workflow.Metrics.Collector.{
  Ring, Call, pushes, resets, create, collect_ring_samples, run,
}
use cppload_workflow.Metrics.Collector.Samples.{Past, past_run, newest, Agrees, run-newest}

abbrev calls : List Call
calls = pushes 9 ∷ resets ∷ pushes 30 ∷ pushes 20 ∷ []

abbrev nothing : Past
nothing = record { count = 0; since = 0; value = λ i. 0 }

create-Agrees : Agrees nothing create
unfolding create
create-Agrees = record {
  holds = record {
    head_le = omega arith;
    fits = omega arith;
    published = λ i low high. absurd (omega arith);
  };
  tail_count = refl;
  since_le = omega arith;
  head_is = inl refl;
}

run-newest_example :
    (r : Ring) × ((run calls create ≡ some r)
      × (collect_ring_samples r ≡ newest (past_run nothing calls)))
run-newest_example = run-newest calls nothing create create-Agrees

-- The last two, in their order.
two_left : newest (past_run nothing calls) ≡ 30 ∷ 20 ∷ []
two_left = refl
