-- ===== src/Core/Errors/Tests.antt =====
-- include/cppload/error.hpp: the numbers that its assertions pin, and a number of no error.
use cppload_workflow.Prelude.{◌≡◌, refl, bytes}
use cppload_workflow.Core.Errors.{
  code, of_code, message, success, timeout, invalid_config, vault_not_found, auth_parse_error,
}

pinned :
    (code success ≡ 0)
    × (code timeout ≡ 14)
    × (code invalid_config ≡ 15)
    × (code vault_not_found ≡ 20)
    × (code auth_parse_error ≡ 29)
unfolding code
pinned = (refl, refl, refl, refl, refl)

past_the_end : message 30 ≡ bytes "unrecognized error"
unfolding message of_code
past_the_end = refl
