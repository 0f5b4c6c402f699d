-- ===== src/Models/Checks.antt =====
-- The checks that the constructors share.
use ha_vacuum_planner.Base.{
  Option, Result, String, has_text, not, raise_if, str_append, value_error,
}
use ha_vacuum_planner.Models.Time.{DateTime, is_naive?}

unfoldable pub require_text : String → String → Result (Unit {0})
require_text name value =
    raise_if (not (has_text value)) (value_error (str_append name " must not be empty"))

unfoldable pub require_aware : String → Option DateTime → Result (Unit {0})
require_aware name value =
    raise_if (is_naive? value) (value_error (str_append name " must be timezone-aware"))
