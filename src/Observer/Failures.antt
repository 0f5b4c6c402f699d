-- ===== src/Observer/Failures.antt =====
-- integration_observer.py: `_failed` and `_uncertain`.
use ha_vacuum_planner.Base.{
  Bool, List, Result, String, [], contains, if◌then◌else◌, incℤ, int_eq, is_empty, map, map_result,
  nat_eq, ok, select, some, string_eq, to_set, ◌&&◌, ◌++◌, ◌>>=◌, ◌∷◌,
}
use ha_vacuum_planner.Models.{
  BlockState, DateTime, JobState, PlannerState, QueueBlock, QueueJob, QueueLedger,
  block_guarantee_eq, block_kind_eq, block_state_eq, dispatch_strategy_eq, job_state_eq, make_block,
  make_job, make_ledger, mode_eq, preferred_mode_eq,
}
use ha_vacuum_planner.Queue.{active_job_states}
use ha_vacuum_planner.Observer.Runs.{dispatching_block_ids, with_ledger}

-- the blocks that a failure or an unclear state touches
unfoldable pub affected_block_ids : QueueLedger → DateTime → Result (List String)
affected_block_ids ledger at = do
  dispatching ← dispatching_block_ids ledger at
  ok (
      to_set (
        map (λ j. j.block_id)
          (select (λ j. contains j.state (JobState.accepted ∷ JobState.running ∷ [])) ledger.jobs)
        ++ dispatching))

abbrev pub is_affected : List String → QueueJob → Bool
is_affected affected j = contains j.block_id affected && contains j.state active_job_states

-- `_failed`
unfoldable pub fail_job : List String → DateTime → QueueJob → Result QueueJob
fail_job affected at j =
    if is_affected affected j
    then make_job (record j {
      state = JobState.failed;
      finished_at = some at;
      error_code = some "vacuum_reported_failure";
    })
    else ok j

unfoldable pub fail_block : List String → DateTime → QueueBlock → Result QueueBlock
fail_block affected at b =
    if contains b.block_id affected
    then make_block (record b { state = BlockState.failed; completed_at = some at })
    else ok b

-- a `replace(ledger, ...)` behind two rewritten tuples, the jobs first
unfoldable pub settle_ledger :
    QueueLedger
    → (QueueBlock → Result QueueBlock)
    → (QueueJob → Result QueueJob)
    → DateTime
    → Result QueueLedger
settle_ledger ledger change_block change_job at = do
  jobs ← map_result change_job ledger.jobs
  blocks ← map_result change_block ledger.blocks
  make_ledger (record ledger {
    revision = incℤ ledger.revision;
    blocks = blocks;
    jobs = jobs;
    last_reconciled_at = some at;
  })

unfoldable pub observe_failed : PlannerState → DateTime → Result PlannerState
observe_failed state at = do
  affected ← affected_block_ids state.ledger at
  let change = do
    ledger ← settle_ledger state.ledger (fail_block affected at) (fail_job affected at) at
    with_ledger state ledger
  if is_empty affected then ok state else change

-- `_uncertain`
unfoldable pub doubt_job : List String → QueueJob → Result QueueJob
doubt_job affected j =
    if is_affected affected j then make_job (record j { state = JobState.uncertain }) else ok j

unfoldable pub doubt_block : List String → QueueBlock → Result QueueBlock
doubt_block affected b =
    if contains b.block_id affected
    then make_block (record b { state = BlockState.uncertain })
    else ok b

unfoldable pub observe_uncertain : PlannerState → DateTime → Result PlannerState
observe_uncertain state at = do
  affected ← affected_block_ids state.ledger at
  let change = do
    ledger ← settle_ledger state.ledger (doubt_block affected) (doubt_job affected) at
    with_ledger state ledger
  if is_empty affected then ok state else change
