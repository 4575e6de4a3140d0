-- ===== src/Scenario/Assertions/Tests.antt =====
-- core/scenario/engine.cpp at concrete inputs.
use cppload_workflow.Prelude.{◌≡◌, refl, true, false, bytes, eqb, read_digits}
use cppload_workflow.Scenario.Assertions.{
  Response, span, unit_us, scale_us, parse_duration_us, compare_op, is_space, next_word,
  stol_digits, stol, test_words, evaluate_assertion,
}

abbrev created : Response
created = record { status_code = 201; latency = 1500 }

met : evaluate_assertion (bytes "status_code == 201") created ≡ true
unfolding evaluate_assertion next_word span is_space test_words stol stol_digits read_digits
    compare_op eqb bytes
met = refl

too_slow : evaluate_assertion (bytes "latency < 1ms") created ≡ false
unfolding evaluate_assertion next_word span is_space test_words parse_duration_us unit_us scale_us
    read_digits compare_op eqb bytes
too_slow = refl
