-- ===== src/Models/Jobs.antt =====
-- `QueueJob` and its checks.
use ha_vacuum_planner.Base.{
  Bool, List, Option, Result, String, [], contains, int_eq, is_none, is_some, ltℤ, nat_eq, not, ok,
  pos, raise_if, some, string_eq, value_error, ℤ, ◌&&◌, ◌==◌, ◌>>=◌, ◌>>◌, ◌||◌, ◌∷◌,
}
use ha_vacuum_planner.Models.Enums.{
  JobState, Mode, block_guarantee_eq, block_kind_eq, block_state_eq, dispatch_strategy_eq,
  job_state_eq, mode_eq, preferred_mode_eq,
}
use ha_vacuum_planner.Models.Time.{DateTime, is_chronological, present}
use ha_vacuum_planner.Models.Json.{Value, freeze_json}
use ha_vacuum_planner.Models.Checks.{require_aware, require_text}

pub record QueueJob : Type 0 where
  pub job_id : String
  pub block_id : String
  pub area_id : String
  pub area_name_snapshot : String
  pub adapter_target_snapshot : Value
  pub mode : Mode
  pub position : ℤ
  pub state : JobState
  pub attempt : ℤ
  pub planned_at : DateTime
  pub adapter_token : Option String
  pub sent_at : Option DateTime
  pub started_at : Option DateTime
  pub finished_at : Option DateTime
  pub error_code : Option String
  pub error_detail : Option String

-- `_JOB_TERMINAL_STATES`
abbrev pub job_terminal_states : List JobState
job_terminal_states =
    JobState.completed ∷ JobState.failed ∷ JobState.skipped ∷ JobState.cancelled ∷ []

-- `_JOB_TRANSITIONS.get(state, frozenset())`
abbrev pub job_transitions : JobState → List JobState
job_transitions JobState.pending = JobState.dispatching ∷ JobState.skipped ∷ JobState.cancelled ∷ []
job_transitions JobState.dispatching = JobState.accepted ∷ JobState.failed ∷ []
job_transitions JobState.accepted = JobState.running ∷ JobState.uncertain ∷ JobState.cancelled ∷ []
job_transitions JobState.running =
    JobState.completed ∷ JobState.failed ∷ JobState.cancelled ∷ JobState.uncertain ∷ []
job_transitions JobState.failed = JobState.dispatching ∷ []
job_transitions _ = []

abbrev pub dispatched_job_states : List JobState
dispatched_job_states =
    JobState.dispatching ∷ JobState.accepted ∷ JobState.running ∷ JobState.completed
    ∷ JobState.uncertain ∷ []

abbrev pub is_terminal_job : QueueJob → Bool
is_terminal_job job = contains job.state job_terminal_states

abbrev pub job_timestamps : QueueJob → List DateTime
job_timestamps job =
    present (some job.planned_at ∷ job.sent_at ∷ job.started_at ∷ job.finished_at ∷ [])

unfoldable pub validate_job_lifecycle : QueueJob → Result (Unit {0})
validate_job_lifecycle job = do
  raise_if (ltℤ attempt (pos 0)) (value_error "attempt must not be negative")
  require_aware "planned_at" (some planned_at)
  require_aware "sent_at" sent_at
  require_aware "started_at" started_at
  require_aware "finished_at" finished_at
  raise_if
      (state == JobState.pending
        && (not (attempt == pos 0)
            || is_some adapter_token
            || is_some sent_at
            || is_some started_at
            || is_some finished_at))
      (value_error "pending job cannot contain dispatch data")
  raise_if (contains state dispatched_job_states && (attempt == pos 0 || is_none sent_at))
      (value_error "dispatched job requires attempt and sent_at")
  raise_if
      (contains state (JobState.failed ∷ JobState.cancelled ∷ [])
        && ltℤ (pos 0) attempt
        && is_none sent_at)
      (value_error "dispatched failure requires sent_at")
  raise_if (contains state (JobState.running ∷ JobState.completed ∷ []) && is_none started_at)
      (value_error "started_at is required for running jobs")
  raise_if (not (contains state job_terminal_states) && is_some finished_at)
      (value_error "nonterminal job cannot have finished_at")
  raise_if (contains state job_terminal_states && is_none finished_at)
      (value_error "finished_at is required for terminal jobs")
  raise_if (not (is_chronological (job_timestamps job)))
      (value_error "job lifecycle timestamps must be chronological")
  where
    open job use {state, attempt, adapter_token, planned_at, sent_at, started_at, finished_at}

-- `for name in (...): _require_text(name, getattr(self, name))`
unfoldable pub require_job_texts : QueueJob → Result (Unit {0})
require_job_texts job = do
  require_text "job_id" job.job_id
  require_text "block_id" job.block_id
  require_text "area_id" job.area_id
  require_text "area_name_snapshot" job.area_name_snapshot

unfoldable pub check_position : QueueJob → Result (Unit {0})
check_position job =
    raise_if (ltℤ job.position (pos 0)) (value_error "position must not be negative")

-- `QueueJob(...)` and `replace(job, ...)`: the fields are checked and the target is frozen.
unfoldable pub make_job : QueueJob → Result QueueJob
make_job job = do
  require_job_texts job
  target ← freeze_json job.adapter_target_snapshot
  check_position job
  validate_job_lifecycle job
  ok (record job { adapter_target_snapshot = target })
