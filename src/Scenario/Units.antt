-- ===== src/Scenario/Units.antt =====
-- core/scenario/yaml_parser.cpp: the texts of durations, rates and sizes. `std::stod` is an argument, `none`
-- being its exception; durations are milliseconds.
pub mod Suffixes
pub mod Tests
use cppload_workflow.Prelude.{
  ℕ, zero, suc, ◌+◌, ◌-◌, ◌*◌, ◌/◌, ◌^◌, Bool, true, false, not, ◌&&◌, ◌||◌, Option, none, some,
  List, [], ◌∷◌, ◌++◌, ltb, leb, ◌==◌, map, if◌then◌else◌, Bytes, bytes, eqb, is_empty, is_digit,
  to_lower, find, find_word, take, drop, length, Double,
}
use cppload_workflow.Scenario.Assertions.{span}

abbrev pub max_ms : ℕ
max_ms = 9223372036854775807

abbrev pub max_size : ℕ
max_size = 18446744073709551615

-- `s.substr(s.size() - n)` and what stands before it, for `n <= s.size()`.
abbrev pub ends_with : Bytes → Bytes → Bool
ends_with w s = leb (length w) (length s) && eqb (drop (length s - length w) s) w

abbrev pub before_end : ℕ → Bytes → Bytes
before_end n s = take (length s - n) s

-- The text from its first digit on: `find_first_of("0123456789")`.
unfoldable pub from_digit : Bytes → Option Bytes
from_digit [] = none
from_digit (c ∷ s) = if is_digit c then some (c ∷ s) else from_digit s

-- `str.back()`; the text is not empty.
abbrev pub back : Bytes → ℕ
back [] = 0
back (c ∷ []) = c
back (c ∷ d ∷ s) = back (d ∷ s)

-- The number between the first digit and the first percent sign. Where the sign comes first, the length
-- wraps around and the text runs to the end.
unfoldable pub rate_text : Bytes → ℕ → Bytes → Bytes
rate_text str percent digits =
    let start = length str - length digits in
    if ltb percent start then digits else take (percent - start) digits

module _ {F : Type 0} (D : Double F) where
  abbrev pub zero_double : F
  zero_double = D.ratio 0 1

  unfoldable pub scale_to_ms : F → F → ℕ
  scale_to_ms value multiplier =
      let ms = D.mul value multiplier in
      if D.lt ms zero_double
      then 0
      else if D.le (D.ratio 9_000_000_000_000_000 1) ms
      then max_ms
      else D.truncate ms

  -- The unit of one letter; another letter counts as 0, with a warning.
  unfoldable pub scale_unit : ℕ → F → ℕ
  scale_unit unit value =
      if D.lt value zero_double
      then 0
      else if unit == b's'
      then scale_to_ms value (D.ratio 1_000 1)
      else if unit == b'm'
      then scale_to_ms value (D.ratio 60_000 1)
      else if unit == b'h'
      then scale_to_ms value (D.ratio 3_600_000 1)
      else 0

  unfoldable pub byte_multiplier : Bytes → F
  byte_multiplier unit =
      if eqb unit (bytes "k") || eqb unit (bytes "kb")
      then D.ratio 1024 1
      else if eqb unit (bytes "m") || eqb unit (bytes "mb")
      then D.mul (D.ratio 1024 1) (D.ratio 1024 1)
      else if eqb unit (bytes "g") || eqb unit (bytes "gb")
      then D.mul (D.mul (D.ratio 1024 1) (D.ratio 1024 1)) (D.ratio 1024 1)
      else D.ratio 1 1

module _ {F : Type 0} (D : Double F) (stod : Bytes → Option F) where
  -- -1 where `std::stod` throws.
  unfoldable pub parse_number : Bytes → F
  parse_number s = elim (stod s) [ none ↦ D.sub (zero_double D) (D.ratio 1 1) | some v ↦ v ]

  unfoldable pub parse_duration : Bytes → ℕ
  parse_duration str =
      if is_empty str
      then 0
      else if ends_with (bytes "min") str
      then scale_to_ms D (parse_number (before_end 3 str)) (D.ratio 60_000 1)
      else if ends_with (bytes "ms") str
      then scale_to_ms D (parse_number (before_end 2 str)) (D.ratio 1 1)
      else scale_unit D (back str) (parse_number (before_end 1 str))

  unfoldable pub parse_error_rate : Bytes → F
  parse_error_rate str = elim (from_digit str) [
    | none ↦ D.ratio 10 1
    | some digits ↦ elim (find b'%' str) [
      | none ↦ D.ratio 10 1
      | some percent ↦ elim (stod (rate_text str percent digits)) [
        | none ↦ D.ratio 10 1
        | some v ↦ v
      ]
    ]
  ]

  unfoldable pub parse_bytesize : Bytes → ℕ
  parse_bytesize str =
      let (digits, unit) = span is_digit str in
      if is_empty digits then 0 else elim (stod digits) [
        | none ↦ 0
        | some value ↦
            let size = D.mul value (byte_multiplier D (map to_lower unit)) in
            if D.lt value (zero_double D)
            then 0
            else if D.lt (D.of_nat max_size) size
            then max_size
            else D.truncate size
      ]

  unfoldable pub parse_latency : Bytes → ℕ
  parse_latency str = elim (from_digit str) [
    | none ↦ 500
    | some digits ↦ elim (stod (span is_digit digits).0) [
      | none ↦ 500
      | some value ↦ elim (find_word (bytes "ms") str) [
        | some _ ↦ scale_to_ms D value (D.ratio 1 1)
        | none ↦ elim (find b's' str) [
          | some _ ↦ scale_to_ms D value (D.ratio 1_000 1)
          | none ↦ scale_to_ms D value (D.ratio 1 1)
        ]
      ]
    ]
  ]
