-- ===== src/Core/Redact/Tests.antt =====
-- include/cppload/core/redact.hpp at concrete inputs.
use mathlib.Core.Option
use cppload_workflow.Prelude.{◌≡◌, refl, some, [], ◌∷◌, ◌++◌, Bytes, bytes}
use cppload_workflow.Core.Redact.{
  mask, is_one_of, iequals, is_key_byte, is_skipped, is_separator, run_length, quote_of, in_value,
  mask_value, mask_from, redact_round, redact_loop, redact_secrets,
}
use cppload_workflow.Core.Redact.Rounds.{redact_secrets_returns}
use cppload_workflow.Core.Redact.Masked.{redact_secrets_masks}

header_line :
    redact_secrets (bytes "Authorization: Bearer x") ≡ some (bytes "Authorization: ******")
unfolding bytes redact_secrets redact_loop redact_round mask_from mask_value quote_of in_value
    run_length is_key_byte is_skipped is_separator is_one_of iequals
header_line = refl

-- The quote in front of a value is skipped with the separators, so a comma in a quoted secret ends it.
quoted_secret_leaks :
    redact_secrets (bytes "{\"password\": \"a,bc\"}") ≡ some (bytes "{\"password\": \"******,bc\"}")
unfolding bytes redact_secrets redact_loop redact_round mask_from mask_value quote_of in_value
    run_length is_key_byte is_skipped is_separator is_one_of iequals
quoted_secret_leaks = refl

redact_secrets_masks_example :
    redact_secrets (bytes "Token" ++ ((b'=' ∷ []) ++ ((b's' ∷ b'3' ∷ []) ++ (b'&' ∷ bytes "a=1"))))
    ≡ Option.map
        (λ r. bytes "Token" ++ (b'=' ∷ []) ++ mask ++ (b'&' ∷ []) ++ r)
        (redact_secrets (bytes "a=1"))
unfolding bytes is_one_of iequals is_key_byte is_skipped is_separator in_value
redact_secrets_masks_example =
    redact_secrets_masks (bytes "Token") b'=' [] b's' (b'3' ∷ []) b'&' (bytes "a=1")
      (refl, (refl, (refl, (refl, (refl, tt))))) refl (refl, tt) refl (refl, (refl, tt)) refl

redact_secrets_returns_example : (r : Bytes) × (redact_secrets (bytes "token=s3") ≡ some r)
redact_secrets_returns_example = redact_secrets_returns (bytes "token=s3")
