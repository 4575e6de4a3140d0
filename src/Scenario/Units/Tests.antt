-- ===== src/Scenario/Units/Tests.antt =====
-- core/scenario/yaml_parser.cpp, durations and sizes, at concrete inputs over whole numbers.
use cppload_workflow.Prelude.{
  ℕ, ◌≡◌, refl, Option, none, some, Bytes, bytes, eqb, is_empty, read_digits, read_digits-to_string,
  to_string, to_string-nonempty, whole, find, if◌then◌else◌,
}
use cppload_workflow.Scenario.Assertions.{span}
use cppload_workflow.Scenario.Units.{
  scale_to_ms, byte_multiplier, parse_number, parse_duration, parse_bytesize, parse_error_rate,
  rate_text, from_digit,
}

-- `std::stod` on whole numbers.
stod : Bytes → Option ℕ
stod s = if is_empty s then none else some (read_digits 0 s)

minutes : parse_duration whole stod (bytes "3min") ≡ 180_000
unfolding parse_duration parse_number scale_to_ms stod read_digits eqb bytes
minutes = refl

kilobytes : parse_bytesize whole stod (bytes "64KB") ≡ 65_536
unfolding parse_bytesize byte_multiplier span stod read_digits eqb bytes
kilobytes = refl

rate : parse_error_rate whole stod (bytes "< 5%") ≡ 5
unfolding parse_error_rate rate_text from_digit find stod read_digits bytes
rate = refl

stod-to_string : stod (to_string 250) ≡ some 250
unfolding stod
stod-to_string = rw (to_string-nonempty 250, read_digits-to_string 250) refl
