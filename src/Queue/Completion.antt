-- ===== src/Queue/Completion.antt =====
-- domain/queue.py: `complete_job_and_advance_plan`.
use ha_vacuum_planner.Base.{
  Bool, List, Option, Result, String, [], all, any, err, false, if◌then◌else◌, int_eq, list_beq,
  map, map_result, nat_eq, none, not, ok, raise_if, some, string_eq, value_error, ◌&&◌, ◌==◌, ◌>>=◌,
  ◌>>◌, ◌∷◌,
}
use ha_vacuum_planner.Models.{
  BlockState, DateTime, JobState, Mode, PlanRevision, QueueBlock, QueueJob, QueueLedger, RoomPlan,
  block_guarantee_eq, block_kind_eq, block_state_eq, dispatch_strategy_eq, find_job,
  is_terminal_job, job_state_eq, jobs_of, make_revision, make_room, max_time, mode_eq, no_change,
  parent_of, preferred_mode_eq, present, replace_block_state, replace_job_state, room_beq,
}

pub record CompletionResult : Type 0 where
  pub ledger : QueueLedger
  pub plan_revision : PlanRevision

-- `_latest_completion`
unfoldable pub latest_completion : Option DateTime → DateTime → DateTime
latest_completion none completed_at = completed_at
latest_completion (some t) completed_at = max_time t completed_at

-- `max(item.finished_at for item in jobs if item.finished_at is not None)`, of a first value on
abbrev pub max_from : DateTime → List DateTime → DateTime
max_from t [] = t
max_from t (u ∷ us) = max_from (max_time t u) us

unfoldable pub latest_finish : List QueueJob → Result DateTime
latest_finish jobs = elim (present (map (λ j. j.finished_at) jobs)) [
  | [] ↦ err (value_error "max() iterable argument is empty")
  | t ∷ ts ↦ ok (max_from t ts)
]

-- The state in which a block ends whose jobs have all ended.
unfoldable pub final_state : List QueueJob → BlockState
final_state block_jobs =
    if all (λ j. j.state == JobState.completed) block_jobs
    then BlockState.completed
    else BlockState.partial

-- `if parent.state is COMMITTED`: the block is started before it ends.
abbrev pub start_committed : QueueBlock → QueueLedger → DateTime → Result QueueLedger
start_committed parent ledger at =
    if parent.state == BlockState.committed
    then replace_block_state ledger parent.block_id BlockState.running at none
    else ok ledger

-- `if all(item.state in _TERMINAL_JOB_STATES for item in block_jobs)`
unfoldable pub finish_block : QueueBlock → QueueLedger → Result QueueLedger
finish_block parent ledger =
    let block_jobs = jobs_of parent.block_id ledger.jobs in
    if all is_terminal_job block_jobs
    then (do
      at ← latest_finish block_jobs
      started ← start_committed parent ledger at
      replace_block_state started parent.block_id (final_state block_jobs) at none)
    else ok ledger

-- one room of the advanced plan
unfoldable pub advance_room : QueueJob → DateTime → RoomPlan → Result RoomPlan
advance_room job completed_at room =
    if room.area_id == job.area_id
    then make_room (record room {
      last_completed_vacuum_at =
          some (latest_completion room.last_completed_vacuum_at completed_at);
      last_completed_vacuum_and_mop_at =
          if job.mode == Mode.vacuum_and_mop
          then some (latest_completion room.last_completed_vacuum_and_mop_at completed_at)
          else room.last_completed_vacuum_and_mop_at;
    })
    else ok room

-- the plan with the completion of `job` recorded
unfoldable pub advance_plan : PlanRevision → QueueJob → DateTime → String → Result PlanRevision
advance_plan plan job completed_at next_revision_id =
    if not (any (λ r. r.area_id == job.area_id) plan.room_plans) then ok plan else (do
      room_plans ← map_result (advance_room job completed_at) plan.room_plans
      raise_if
          (not (list_beq room_beq room_plans plan.room_plans)
            && next_revision_id == plan.revision_id)
          (value_error "next revision ID must differ when room plan changes")
      make_revision (record {
        revision_id = next_revision_id;
        created_at = max_time plan.created_at completed_at;
        room_plans = room_plans;
      }))

abbrev pub lane_differs : PlanRevision → QueueBlock → Bool
lane_differs plan parent = elim plan.room_plans [
  | [] ↦ false
  | p ∷ ps ↦ not (p.lane_id == parent.lane_id)
]

unfoldable pub complete_job_and_advance_plan :
    QueueLedger → PlanRevision → String → DateTime → String → Result CompletionResult
complete_job_and_advance_plan ledger plan job_id completed_at next_revision_id = do
  job ← find_job ledger.jobs job_id
  parent ← parent_of ledger.blocks job.block_id
  raise_if (lane_differs plan parent) (value_error "plan lane does not match job lane")
  completed ← replace_job_state ledger job_id JobState.completed completed_at no_change
  finished ← finish_block parent completed
  advanced ← advance_plan plan job completed_at next_revision_id
  ok (record { ledger = finished; plan_revision = advanced })
