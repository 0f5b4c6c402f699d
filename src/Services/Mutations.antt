-- ===== src/Services/Mutations.antt =====
-- __init__.py: the actions that change the queue.
use ha_vacuum_planner.Base.{
  Bool, Error, Option, Result, String, duplicate_identity_error, err, false, if◌then◌else◌,
  key_error, lane_already_open_error, none, ok, planning_validation_error, revision_conflict_error,
  schema_version_error, some, str_append, true, validation_error, value_error, ℤ, ◌>>=◌,
}
use ha_vacuum_planner.Models.{DateTime, PlannerState, make_state}
use ha_vacuum_planner.Queue.{UncertainResolution, resolve_uncertain_job}
use ha_vacuum_planner.Actions.{TimeZones, cancel_pending_block, postpone_area, skip_area_today}

-- a call, its data behind the schema
pub data Mutation : Type 0 where
  skip_today : String → Mutation
  postpone : String → ℤ → Mutation
  cancel_block : String → Mutation
  resolve_uncertain : String → UncertainResolution → Mutation

pub record MutationResponse : Type 0 where
  pub status : String
  pub revision : Option ℤ

-- `_apply_queue_mutation`, with the name of Home Assistant's time zone and `uuid4`
unfoldable pub apply_queue_mutation :
    TimeZones
    → String
    → String
    → Mutation
    → PlannerState
    → DateTime
    → Result (PlannerState × MutationResponse)
apply_queue_mutation zones time_zone new_id (skip_today area) state now = do
  updated ← skip_area_today zones state area now time_zone new_id
  ok (updated, record { status = "skipped_today"; revision = none })
apply_queue_mutation zones time_zone new_id (postpone area days) state now = do
  updated ← postpone_area state area now days new_id
  ok (updated, record { status = "postponed"; revision = none })
apply_queue_mutation zones time_zone new_id (cancel_block id) state now = do
  updated ← cancel_pending_block state id now
  ok (updated, record { status = "cancelled"; revision = some updated.ledger.revision })
apply_queue_mutation zones time_zone new_id (resolve_uncertain id resolution) state now = do
  ledger ← resolve_uncertain_job state.ledger id resolution now
  updated ← make_state (record state { ledger = ledger })
  ok (updated, record { status = "resolved"; revision = some ledger.revision })

-- the name of the action, in its message
unfoldable pub action_name : Mutation → String
action_name (skip_today area) = "skip_area_today"
action_name (postpone area days) = "postpone_area"
action_name (cancel_block id) = "cancel_block"
action_name (resolve_uncertain id resolution) = "resolve_uncertain_run"

-- `except (KeyError, ValueError)`: the errors of the domain derive from `ValueError`
abbrev pub is_rejection : Error → Bool
is_rejection (value_error s) = true
is_rejection (key_error s) = true
is_rejection (duplicate_identity_error s) = true
is_rejection (lane_already_open_error s) = true
is_rejection revision_conflict_error = true
is_rejection (planning_validation_error errors) = true
is_rejection schema_version_error = true
is_rejection _ = false

abbrev pub as_rejection : {A : Type 0} → (Error → String) → Mutation → Result A → Result A
as_rejection print mutation (ok a) = ok a
as_rejection print mutation (err e) =
    if is_rejection e
    then err
        (validation_error (str_append (action_name mutation) (str_append " rejected: " (print e))))
    else err e

-- The nested `command` of a handler, as far as the state. `print` is `str` of an error.
unfoldable pub mutation_command :
    TimeZones
    → String
    → String
    → (Error → String)
    → Mutation
    → DateTime
    → PlannerState
    → Result PlannerState
mutation_command zones time_zone new_id print mutation now state = do
  applied ←
      as_rejection print mutation (apply_queue_mutation zones time_zone new_id mutation state now)
  ok applied.0
