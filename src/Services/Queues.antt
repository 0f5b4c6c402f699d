-- ===== src/Services/Queues.antt =====
-- __init__.py: the validators of the calls, the queue's projection, and the runtime of a call.
use ha_vacuum_planner.Base.{
  List, Option, Result, String, [], err, has_text, if◌then◌else◌, invalid, leℤ, map, none, not, ok,
  pos, raise_if, runtime_inactive_error, some, topology_not_ready_error, validation_error, ℕ, ℤ,
  ◌&&◌, ◌>>◌,
}
use ha_vacuum_planner.Models.{
  PlannerState, QueueBlock, QueueJob, Value, block_guarantee_value, block_kind_value,
  block_state_value, integer, job_state_value, mode_value, text,
}
use ha_vacuum_planner.Runtime.{VacuumPlannerRuntimeData, capture_command_generation}

-- `_non_empty_string`
unfoldable pub non_empty_string : Value → Result String
non_empty_string (text s) =
    if has_text s then ok s else err (invalid "value must be a non-empty string")
non_empty_string _ = err (invalid "value must be a non-empty string")

-- `_postpone_days`
unfoldable pub postpone_days : Value → Result ℤ
postpone_days (integer n) =
    if leℤ (pos 1) n && leℤ n (pos 365)
    then ok n
    else err (invalid "days must be an integer from 1 through 365")
postpone_days _ = err (invalid "days must be an integer from 1 through 365")

pub record BlockView : Type 0 where
  pub block_id : String
  pub kind : String
  pub state : String
  pub guarantee : String
  pub job_ids : List String

pub record JobView : Type 0 where
  pub job_id : String
  pub block_id : String
  pub area_id : String
  pub area_name : String
  pub mode : String
  pub state : String
  pub position : ℤ

pub record QueueResponse : Type 0 where
  pub revision : ℤ
  pub blocks : List BlockView
  pub jobs : List JobView

unfoldable pub block_view : QueueBlock → BlockView
block_view b = record {
  block_id = b.block_id;
  kind = block_kind_value b.kind;
  state = block_state_value b.state;
  guarantee = block_guarantee_value b.guarantee;
  job_ids = b.job_ids;
}

unfoldable pub job_view : QueueJob → JobView
job_view j = record {
  job_id = j.job_id;
  block_id = j.block_id;
  area_id = j.area_id;
  area_name = j.area_name_snapshot;
  mode = mode_value j.mode;
  state = job_state_value j.state;
  position = j.position;
}

unfoldable pub get_queue_response : Option PlannerState → QueueResponse
get_queue_response none = record { revision = pos 0; blocks = []; jobs = [] }
get_queue_response (some s) = record {
  revision = s.ledger.revision;
  blocks = map block_view s.ledger.blocks;
  jobs = map job_view s.ledger.jobs;
}

-- the loaded entries, and the runtime of one of them
unfoldable pub runtime_for_action :
    Option VacuumPlannerRuntimeData → Result VacuumPlannerRuntimeData
runtime_for_action none = err (validation_error "Vacuum Planner entry is not loaded")
runtime_for_action (some r) = do
  raise_if (not r.has_coordinator) (validation_error "Vacuum Planner state is unavailable")
  ok r

-- `except RuntimeInactiveError as err: raise _validation_error(str(err))`
abbrev pub as_validation : {A : Type 0} → Result A → Result A
as_validation (err (runtime_inactive_error s)) = err (validation_error s)
as_validation (err (topology_not_ready_error s)) = err (validation_error s)
as_validation r = r

-- `_capture_runtime_command`
unfoldable pub capture_runtime_command : VacuumPlannerRuntimeData → Result ℕ
capture_runtime_command r = as_validation (capture_command_generation r)
