-- ===== src/Tools/CommandLine.antt =====
-- tools/main.cpp: the arguments of the program. What is printed on the way is left out; `std::stod` is an argument,
-- `none` being its exception.
pub mod Ranges
use cppload_workflow.Prelude.{
  ℕ, zero, suc, ◌+◌, ◌-◌, ◌*◌, ◌^◌, Bool, true, false, not, ◌&&◌, ◌||◌, Option, none, some, List,
  [], ◌∷◌, ◌++◌, ltb, leb, ◌==◌, map, if◌then◌else◌, length, take, drop, Bytes, bytes, eqb,
  is_empty, is_digit, to_lower, find, read_digits, Signed, nonneg, negative, Double,
}
use cppload_workflow.Scenario.Assertions.{span, is_space}
use cppload_workflow.Scenario.Units.{back}

pub data LogLevel : Type 0 where
  trace debug info warn error_level : LogLevel

abbrev pub default_max_body_bytes : ℕ
default_max_body_bytes = 104_857_600

pub record CliArgs : Type 0 where
  pub config : Bytes
  pub target : Bytes
  pub auth_type : Bytes
  pub auth_token : Bytes
  pub client_id : Bytes
  pub client_secret : Bytes
  pub token_endpoint : Bytes
  pub vault_addr : Bytes
  pub vault_token : Bytes
  pub otlp_endpoint : Bytes
  pub json_path : Bytes
  pub init_preset : Bytes
  pub init_output : Bytes
  pub log_level_str : Bytes
  pub max_body_str : Bytes
  pub rps : ℕ
  pub duration : ℕ
  pub duration_set : Bool
  pub help : Bool
  pub version : Bool
  pub verbose : Bool
  pub error : Bool
  pub dry_run : Bool
  pub no_progress : Bool
  pub log_level : LogLevel
  pub max_body_bytes : ℕ

abbrev pub no_args : CliArgs
no_args = record {
  config = [];
  target = [];
  auth_type = [];
  auth_token = [];
  client_id = [];
  client_secret = [];
  token_endpoint = [];
  vault_addr = [];
  vault_token = [];
  otlp_endpoint = [];
  json_path = [];
  init_preset = [];
  init_output = [];
  log_level_str = [];
  max_body_str = [];
  rps = 100;
  duration = 60;
  duration_set = false;
  help = false;
  version = false;
  verbose = false;
  error = false;
  dry_run = false;
  no_progress = false;
  log_level = info;
  max_body_bytes = default_max_body_bytes;
}

unfoldable pub parse_log_level : Bytes → LogLevel
parse_log_level s =
    let low = map to_lower s in
    if eqb low (bytes "trace")
    then trace
    else if eqb low (bytes "debug")
    then debug
    else if eqb low (bytes "info")
    then info
    else if eqb low (bytes "warn") || eqb low (bytes "warning")
    then warn
    else if eqb low (bytes "err") || eqb low (bytes "error")
    then error_level
    else info

-- `std::stoi`: `none` is its exception.
unfoldable pub stoi_digits : Bool → Bytes → Option Signed
stoi_digits is_negative s =
    let digits = (span is_digit s).0 in
    let n = read_digits 0 digits in
    if is_empty digits || ltb (if is_negative then 2 ^ 31 else 2 ^ 31 - 1) n
    then none
    else if is_negative && ltb 0 n
    then some negative
    else some (nonneg n)

unfoldable pub stoi_sign : Bytes → Option Signed
stoi_sign [] = none
stoi_sign (c ∷ s) =
    if c == b'-'
    then stoi_digits true s
    else if c == b'+'
    then stoi_digits false s
    else stoi_digits false (c ∷ s)

unfoldable pub stoi : Bytes → Option Signed
stoi s = stoi_sign (span is_space s).1

-- The text without the white space at its end.
unfoldable pub trim_end : Bytes → Bytes
trim_end [] = []
trim_end (c ∷ s) = let rest = trim_end s in if is_empty rest && is_space c then [] else c ∷ rest

unfoldable pub factor_of : ℕ → ℕ
factor_of suffix =
    if suffix == b'k'
    then 1024
    else if suffix == b'm'
    then 1024 * 1024
    else if suffix == b'g'
    then 1024 * 1024 * 1024
    else 1

-- `args.rps` and `args.duration` from the text of a number.
unfoldable pub set_rps : Option Signed → CliArgs → CliArgs
set_rps none a = record a { error = true }
set_rps (some negative) a = record a { error = true }
set_rps (some (nonneg v)) a =
    if ltb v 1 || ltb 1_000_000 v then record a { error = true } else record a { rps = v }

unfoldable pub set_duration : Option Signed → CliArgs → CliArgs
set_duration none a = record a { duration_set = true; error = true }
set_duration (some negative) a = record a { duration_set = true; error = true }
set_duration (some (nonneg v)) a =
    if ltb 315_360_000 v
    then record a { duration_set = true; error = true }
    else record a { duration_set = true; duration = v }

-- What follows an argument: nothing more is read, the next is read, or it was the value.
pub data Next : Type 0 where
  stops goes_on took_value : Next

abbrev pub value_of : Bytes → Option ℕ → Option Bytes → Bytes × Next
value_of arg (some eq) following = (drop (suc eq) arg, goes_on)
value_of arg none (some value) = (value, took_value)
value_of arg none none = ([], goes_on)

abbrev pub key_of : Bytes → Option ℕ → Bytes
key_of arg none = arg
key_of arg (some eq) = take eq arg

unfoldable pub set_flag : Bytes → CliArgs → CliArgs
set_flag key a =
    if eqb key (bytes "--verbose")
    then record a { verbose = true; log_level = debug }
    else if eqb key (bytes "--dry-run") || eqb key (bytes "--validate-config")
    then record a { dry_run = true }
    else if eqb key (bytes "--no-progress")
    then record a { no_progress = true }
    else record a { error = true }

-- Where the loop goes on.
abbrev pub continued : Next → CliArgs → CliArgs → CliArgs → CliArgs
continued stops a here past = a
continued goes_on a here past = here
continued took_value a here past = past

abbrev pub after_value : Option CliArgs → Next → CliArgs → CliArgs × Next
after_value none how flagged = (flagged, goes_on)
after_value (some a) how flagged = (a, how)

module _ {F : Type 0} (D : Double F) (stod : Bytes → Option F) where
  unfoldable pub size_of : Option F → ℕ → ℕ
  size_of none suffix = default_max_body_bytes
  size_of (some base) suffix =
      let size = if factor_of suffix == 1 then base else D.mul base (D.of_nat (factor_of suffix)) in
      if D.lt size (D.of_nat 0)
      then default_max_body_bytes
      else if D.lt (D.of_nat (2 ^ 64 - 1)) size
      then 2 ^ 64 - 1
      else D.truncate size

  unfoldable pub parse_size_bytes : Bytes → ℕ
  parse_size_bytes s =
      let v = trim_end (span is_space s).1 in
      let has_suffix = not (is_digit (back v)) in
      let number = trim_end (if has_suffix then take (length v - 1) v else v) in
      if is_empty v || is_empty number
      then default_max_body_bytes
      else size_of (stod number) (if has_suffix then to_lower (back v) else 0)

  -- An option that takes a value; `none` is another argument.
  unfoldable pub set_value : Bytes → Bytes → CliArgs → Option CliArgs
  set_value key v a =
      if eqb key (bytes "--config") || eqb key (bytes "-c")
      then some (record a { config = v })
      else if eqb key (bytes "--target") || eqb key (bytes "-t")
      then some (record a { target = v })
      else if eqb key (bytes "--rps") || eqb key (bytes "-r")
      then some (set_rps (stoi v) a)
      else if eqb key (bytes "--duration") || eqb key (bytes "-d")
      then some (set_duration (stoi v) a)
      else if eqb key (bytes "--auth-type")
      then some (record a { auth_type = v })
      else if eqb key (bytes "--auth-token")
      then some (record a { auth_token = v })
      else if eqb key (bytes "--client-id")
      then some (record a { client_id = v })
      else if eqb key (bytes "--client-secret")
      then some (record a { client_secret = v })
      else if eqb key (bytes "--token-endpoint")
      then some (record a { token_endpoint = v })
      else if eqb key (bytes "--vault-addr")
      then some (record a { vault_addr = v })
      else if eqb key (bytes "--vault-token")
      then some (record a { vault_token = v })
      else if eqb key (bytes "--otlp-endpoint")
      then some (record a { otlp_endpoint = v })
      else if eqb key (bytes "--log-level")
      then some (record a { log_level_str = v; log_level = parse_log_level v })
      else if eqb key (bytes "--json")
      then some (record a { json_path = v })
      else if eqb key (bytes "--init")
      then some (record a { init_preset = v })
      else if eqb key (bytes "--output") || eqb key (bytes "-o")
      then some (record a { init_output = v })
      else if eqb key (bytes "--max-body")
      then some (record a { max_body_str = v; max_body_bytes = parse_size_bytes v })
      else none

  -- An argument, with the one that follows it.
  unfoldable pub read_arg : Bytes → Option Bytes → CliArgs → CliArgs × Next
  read_arg arg following a =
      let eq = find b'=' arg in
      let key = key_of arg eq in
      let (v, how) = value_of arg eq following in
      if eqb arg (bytes "--help") || eqb arg (bytes "-h")
      then (record a { help = true }, stops)
      else if eqb arg (bytes "--version") || eqb arg (bytes "-v")
      then (record a { version = true }, stops)
      else after_value (set_value key v a) how (set_flag key a)

  unfoldable pub parse_loop : List Bytes → CliArgs → CliArgs
  parse_loop [] a = a
  parse_loop (arg ∷ []) a = (read_arg arg none a).0
  parse_loop (arg ∷ following ∷ args) a =
      let (a', how) = read_arg arg (some following) a in
      let here = parse_loop (following ∷ args) a' in
      let past = parse_loop args a' in continued how a' here past

  -- The arguments after the name of the program.
  unfoldable pub parse_args : List Bytes → CliArgs
  parse_args args = parse_loop args no_args
