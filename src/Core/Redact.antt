-- ===== src/Core/Redact.antt =====
-- include/cppload/core/redact.hpp: masking the secrets in what is logged.
pub mod Rounds
pub mod Masked
pub mod Tests
use mathlib.Core.Option
use cppload_workflow.Prelude.{
  ℕ, zero, suc, ◌+◌, Bool, true, false, not, ◌&&◌, ◌||◌, Option, none, some, List, [], ◌∷◌, ◌++◌,
  ltb, leb, ◌==◌, if◌then◌else◌, length, take, drop, Bytes, bytes, is_alnum, to_lower,
}

unfoldable pub iequals : Bytes → Bytes → Bool
iequals [] [] = true
iequals [] (y ∷ b) = false
iequals (x ∷ a) [] = false
iequals (x ∷ a) (y ∷ b) = (to_lower x == to_lower y) && iequals a b

-- `kMask`
abbrev pub mask : Bytes
mask = bytes "******"

abbrev pub secret_keys : List Bytes
secret_keys =
    bytes "authorization"
    ∷ bytes "x-api-key"
    ∷ bytes "x-vault-token"
    ∷ bytes "client_secret"
    ∷ bytes "client-id"
    ∷ bytes "client_id"
    ∷ bytes "access_token"
    ∷ bytes "id_token"
    ∷ bytes "refresh_token"
    ∷ bytes "token"
    ∷ bytes "vault_token"
    ∷ bytes "password"
    ∷ bytes "secret"
    ∷ bytes "private_key"
    ∷ []

unfoldable pub is_one_of : List Bytes → Bytes → Bool
unfolding iequals
is_one_of [] key = false
is_one_of (k ∷ ks) key = if iequals key k then true else is_one_of ks key

unfoldable pub is_separator : ℕ → Bool
is_separator c =
    c == b':'
    || c == b'='
    || c == b' '
    || c == 9
    || c == 13
    || c == 10
    || c == b'"'
    || c == 39
    || c == b'&'
    || c == b','

-- The bytes skipped between a key and its value.
unfoldable pub is_skipped : ℕ → Bool
unfolding is_separator
is_skipped c = is_separator c && not (c == 13) && not (c == 10)

unfoldable pub is_key_byte : ℕ → Bool
is_key_byte c = is_alnum c || c == b'_' || c == b'-'

-- How far a loop that advances while the bytes pass a test gets.
unfoldable pub run_length : (ℕ → Bool) → Bytes → ℕ
run_length p [] = 0
run_length p (c ∷ s) = if p c then suc (run_length p s) else 0

-- The quote that opens the value, if it has one.
unfoldable pub quote_of : Bytes → Option ℕ
quote_of [] = none
quote_of (c ∷ s) = if c == b'"' || c == 39 then some c else none

unfoldable pub in_value : Option ℕ → ℕ → Bool
in_value (some quote) c = not (c == quote)
in_value none c = not (c == 13 || c == 10 || c == b'&' || c == b'}' || c == b']' || c == b',')

abbrev pub quote_width : Option ℕ → ℕ
quote_width none = 0
quote_width (some q) = 1

-- A round of the loop: what it passes over, which it may have replaced, and the rest of `out`.
unfoldable pub mask_value : Bytes → ℕ → ℕ → Bytes × Bytes
mask_value out value_start value_end =
    if ltb value_start value_end
    then (take value_start out ++ mask ++ take 1 (drop value_end out), drop (suc value_end) out)
    else (take (suc value_end) out, drop (suc value_end) out)

unfoldable pub mask_from : Bytes → ℕ → Bytes × Bytes
unfolding mask_value quote_of in_value
mask_from out p =
    let quote = quote_of (drop p out) in
    let value_start = p + quote_width quote in
    mask_value out value_start (value_start + run_length (in_value quote) (drop value_start out))

unfoldable pub redact_round : Bytes → Bytes × Bytes
redact_round out =
    let key_end = run_length is_key_byte out in
    let p = key_end + run_length is_skipped (drop key_end out) in
    if key_end == 0
    then (take 1 out, drop 1 out)
    else if not (is_one_of secret_keys (take key_end out))
    then (take (suc key_end) out, drop (suc key_end) out)
    else if leb (length out) p
    then (out, [])
    else mask_from out p

-- The loop, with `out` from the position that it has come to; `none` means that the rounds did not suffice.
unfoldable pub redact_loop : ℕ → Bytes → Option Bytes
redact_loop zero out = none
redact_loop (suc rounds) [] = some []
redact_loop (suc rounds) (c ∷ s) =
    let (passed, rest) = redact_round (c ∷ s) in
    Option.map (λ r. passed ++ r) (redact_loop rounds rest)

unfoldable pub redact_secrets : Bytes → Option Bytes
redact_secrets input = redact_loop (suc (length input)) input
