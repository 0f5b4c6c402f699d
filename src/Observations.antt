-- ===== src/Observations.antt =====
-- adapters/observation.py: what a vacuum's state and attributes say of the run. A text is compared as
-- its code points, stripped and in lower case.
use ha_vacuum_planner.Base.{
  Bool, List, Option, String, [], any, code_points, false, has_text, if◌then◌else◌, int_eq,
  is_empty, list_beq, lower, map, nat_beq, nat_eq, none, not, pos, some, string_eq, strip, ℕ, ◌&&◌,
  ◌==◌, ◌||◌, ◌∷◌,
}
use ha_vacuum_planner.Models.{
  Fields, Value, block_guarantee_eq, block_kind_eq, block_state_eq, dispatch_strategy_eq, entry,
  integer, job_state_eq, mode_eq, named, preferred_mode_eq, text,
}

pub data ObservationOutcome : Type 0 where
  running completed failed uncertain no_change : ObservationOutcome

abbrev pub running_states : List String
running_states = "cleaning" ∷ "zone_cleaning" ∷ "segment_cleaning" ∷ []

abbrev pub intermediate_states : List String
intermediate_states =
    "paused" ∷ "washing" ∷ "mop_washing" ∷ "drying" ∷ "returning" ∷ "returning_home" ∷ "docking"
    ∷ []

abbrev pub failed_states : List String
failed_states = "error" ∷ "failed" ∷ []

abbrev pub uncertain_states : List String
uncertain_states = "unknown" ∷ "unavailable" ∷ []

abbrev pub completed_states : List String
completed_states = "idle" ∷ "docked" ∷ []

-- a normalized text
abbrev pub Words : Type 0
Words = List ℕ

-- `text in states`
unfoldable pub is_one_of : List String → Words → Bool
is_one_of states words = any (λ s. list_beq nat_beq words (code_points s)) states

-- `_normalized_text`; an attribute that is missing is `None`
unfoldable pub normalized_text : Option Value → Option Words
normalized_text (some (text s)) = if has_text s then some (map lower (strip s)) else none
normalized_text _ = none

-- `_normalized_text(state) or "unknown"`
unfoldable pub normalized_state : String → Words
normalized_state state = elim (normalized_text (some (text state))) [
  | none ↦ code_points "unknown"
  | some words ↦ words
]

-- the results that are not `None`
abbrev pub present_words : List (Option Words) → List Words
present_words [] = []
present_words (none ∷ ws) = present_words ws
present_words (some w ∷ ws) = w ∷ present_words ws

-- the texts among the detail attributes
unfoldable pub details_of : Fields → List Words
details_of attributes = present_words (
    map (λ key. normalized_text (entry (named key) attributes))
      ("activity" ∷ "status" ∷ "task_status" ∷ []))

-- `type(error_code) is int and error_code != 0`
abbrev pub is_error_code : Option Value → Bool
is_error_code (some (integer n)) = not (n == pos 0)
is_error_code _ = false

-- `error_text in _FAILED_STATES`
abbrev pub is_failed_text : Option Words → Bool
is_failed_text none = false
is_failed_text (some words) = is_one_of failed_states words

unfoldable pub reports_failure : String → Fields → Bool
reports_failure state attributes =
    is_one_of failed_states (normalized_state state)
    || is_failed_text (normalized_text (entry (named "error") attributes))
    || is_error_code (entry (named "error_code") attributes)

-- the state or a detail is one of these
unfoldable pub shows : List String → Words → List Words → Bool
shows states state details = is_one_of states state || any (is_one_of states) details

-- the part behind the test for a failure
unfoldable pub classify : Words → List Words → ObservationOutcome
classify state details =
    if shows uncertain_states state details
    then uncertain
    else if shows running_states state details
    then running
    else if shows intermediate_states state details
    then no_change
    else if is_one_of completed_states state && is_empty details
    then completed
    else uncertain

unfoldable pub normalize_observation : String → Fields → ObservationOutcome
normalize_observation state attributes =
    if reports_failure state attributes
    then failed
    else classify (normalized_state state) (details_of attributes)
