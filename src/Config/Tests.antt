-- ===== src/Config/Tests.antt =====
-- Validation and lookup in a small configuration.
use first_fork.Common.{◌≡◌, ◌↔◌, refl, ok}
use first_fork.Config.{validate}
use first_fork.Config.Fixtures.{small_config}
use first_fork.Config.Validity.{IsValid, validate_iff}

is_accepted : validate small_config ≡ ok tt
unfolding validate
is_accepted = refl

validate_iff_example : (validate small_config ≡ ok tt) ↔ IsValid small_config
validate_iff_example = validate_iff small_config
