-- ===== src/Queue/Recovery.antt =====
-- domain/queue.py: the quarantine of ambiguous dispatches, and its resolution.
use ha_vacuum_planner.Base.{
  Bool, List, Result, String, [], any, contains, if◌then◌else◌, incℤ, int_eq, is_empty, is_none,
  is_some, map, map_result, nat_eq, none, not, ok, raise_if, select, some, string_eq, value_error,
  ◌&&◌, ◌++◌, ◌==◌, ◌>>=◌, ◌>>◌, ◌||◌, ◌∷◌,
}
use ha_vacuum_planner.Models.{
  BlockState, DateTime, DispatchStrategy, JobState, QueueBlock, QueueJob, QueueLedger,
  block_guarantee_eq, block_ids_of, block_kind_eq, block_state_eq, dispatch_strategy_eq, find_block,
  find_job, job_state_eq, jobs_of, make_block, make_job, make_ledger, mode_eq, parent_of,
  preferred_mode_eq, put_block, put_job,
}
use ha_vacuum_planner.Queue.Commands.{
  change_jobs_of, has_external_correlation, is_uncorrelated_active,
}

pub data UncertainResolution : Type 0 where
  retry_safe : UncertainResolution

unfoldable pub quarantine_block_dispatch : QueueLedger → String → DateTime → Result QueueLedger
quarantine_block_dispatch ledger block_id reconciled_at = do
  block ← find_block ledger.blocks block_id
  raise_if (not (block.state == BlockState.committing))
      (value_error "dispatch quarantine requires a committing block")
  raise_if (not (block.dispatch_strategy == DispatchStrategy.native_batch))
      (value_error "dispatch quarantine requires native batch strategy")
  let block_jobs = jobs_of block_id ledger.jobs
  raise_if (is_empty block_jobs || any (λ j. not (j.state == JobState.dispatching)) block_jobs)
      (value_error "dispatch quarantine requires dispatching jobs")
  uncertain ← make_block (record block { state = BlockState.uncertain })
  jobs ← change_jobs_of block_id (λ j. record j { state = JobState.uncertain }) ledger.jobs
  make_ledger (record ledger {
    revision = incℤ ledger.revision;
    blocks = put_block block_id uncertain ledger.blocks;
    jobs = jobs;
    last_reconciled_at = some reconciled_at;
  })

-- a job that keeps its block uncertain
unfoldable pub is_ambiguous : QueueJob → Bool
is_ambiguous job = job.state == JobState.uncertain || is_uncorrelated_active job

-- the state in which a released block goes on
abbrev pub resumed_state : QueueBlock → BlockState
resumed_state block =
    if is_some block.committed_at then BlockState.running else BlockState.committing

-- the block after one of its uncertain jobs is resolved; the test is `has_remaining_uncertainty`
unfoldable pub resumed_block : Bool → QueueBlock → DateTime → QueueBlock
resumed_block remaining block resolved_at =
    if remaining
    then record block { state = BlockState.uncertain }
    else if block.dispatch_strategy == DispatchStrategy.native_batch && is_none block.committed_at
    then record block { state = BlockState.failed; completed_at = some resolved_at }
    else record block { state = resumed_state block }

unfoldable pub resolve_uncertain_job :
    QueueLedger → String → UncertainResolution → DateTime → Result QueueLedger
resolve_uncertain_job ledger job_id retry_safe resolved_at = do
  job ← find_job ledger.jobs job_id
  raise_if (not (job.state == JobState.uncertain)) (value_error "job is not uncertain")
  block ← parent_of ledger.blocks job.block_id
  raise_if (not (block.state == BlockState.uncertain))
      (value_error "uncertain job requires an uncertain parent block")
  resolved_job ← make_job (record job {
    state = JobState.failed;
    finished_at = some resolved_at;
    error_code = some "recovery_retry_safe";
    error_detail = none;
  })
  let jobs = put_job job_id resolved_job ledger.jobs
  let remaining = any (λ j. j.block_id == block.block_id && is_ambiguous j) jobs
  resumed ← make_block (resumed_block remaining block resolved_at)
  make_ledger (record ledger {
    revision = incℤ ledger.revision;
    blocks = put_block block.block_id resumed ledger.blocks;
    jobs = jobs;
  })

unfoldable pub resolve_uncertain_block :
    QueueLedger → String → UncertainResolution → Result QueueLedger
resolve_uncertain_block ledger block_id retry_safe = do
  block ← find_block ledger.blocks block_id
  raise_if (not (block.state == BlockState.uncertain)) (value_error "block is not uncertain")
  raise_if (any (λ j. j.block_id == block_id && j.state == JobState.uncertain) ledger.jobs)
      (value_error "uncertain child jobs must be resolved first")
  raise_if (any (λ j. j.block_id == block_id && is_uncorrelated_active j) ledger.jobs)
      (value_error "uncorrelated active child prevents block release")
  resumed ← make_block (record block { state = resumed_state block })
  make_ledger (record ledger {
    revision = incℤ ledger.revision;
    blocks = put_block block_id resumed ledger.blocks;
  })

abbrev pub active_block_states : List BlockState
active_block_states = BlockState.committing ∷ BlockState.committed ∷ BlockState.running ∷ []

-- `ambiguous_block_ids`
unfoldable pub ambiguous_block_ids : QueueLedger → List String
ambiguous_block_ids ledger =
    block_ids_of (
      select
        (λ b.
          contains b.state active_block_states && not (has_external_correlation b.adapter_run_id))
        ledger.blocks)
    ++ map (λ j. j.block_id) (select is_uncorrelated_active ledger.jobs)

unfoldable pub quarantine_block : List String → QueueBlock → Result QueueBlock
quarantine_block ids block =
    if contains block.block_id ids && contains block.state active_block_states
    then make_block (record block { state = BlockState.uncertain })
    else ok block

unfoldable pub quarantine_job : QueueJob → Result QueueJob
quarantine_job job =
    if is_uncorrelated_active job
    then make_job (record job { state = JobState.uncertain })
    else ok job

unfoldable pub quarantine_ambiguous_dispatches : QueueLedger → DateTime → Result QueueLedger
quarantine_ambiguous_dispatches ledger reconciled_at = do
  blocks ← map_result (quarantine_block (ambiguous_block_ids ledger)) ledger.blocks
  jobs ← map_result quarantine_job ledger.jobs
  make_ledger (record ledger {
    revision = incℤ ledger.revision;
    blocks = blocks;
    jobs = jobs;
    last_reconciled_at = some reconciled_at;
  })
