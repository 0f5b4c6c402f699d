-- ===== src/Observer/Runs.antt =====
-- integration_observer.py: the dispatches in flight, `_running` and `_completed`.
use ha_vacuum_planner.Base.{
  Bool, List, Option, Result, String, [], any, contains, false, if◌then◌else◌, incℤ, int_eq,
  is_empty, map_result, nat_eq, none, ok, select, some, string_eq, to_set, true, ℕ, ◌&&◌, ◌++◌, ◌+◌,
  ◌==◌, ◌>>=◌, ◌∷◌,
}
use ha_vacuum_planner.Models.{
  BlockState, DateTime, JobState, PlannerState, QueueBlock, QueueJob, QueueLedger,
  block_guarantee_eq, block_ids_of, block_kind_eq, block_state_eq, compare_le, dispatch_strategy_eq,
  job_state_eq, make_block, make_job, make_ledger, make_state, mode_eq, no_change, parent_of,
  preferred_mode_eq, replace_block_state, replace_job_state,
}
use ha_vacuum_planner.Queue.{complete_job_and_advance_plan}

-- `job.sent_at is not None and observed_at >= job.sent_at`
unfoldable pub is_sent_before : DateTime → Option DateTime → Result Bool
is_sent_before at none = ok false
is_sent_before at (some sent) = compare_le sent at

unfoldable pub is_dispatched : List String → DateTime → QueueJob → Result Bool
is_dispatched committing at job =
    if contains job.block_id committing && job.state == JobState.dispatching
    then is_sent_before at job.sent_at
    else ok false

-- `[job.block_id for job in jobs if test(job)]`, where the test may raise
unfoldable pub block_ids_where : (QueueJob → Result Bool) → List QueueJob → Result (List String)
block_ids_where test [] = ok []
block_ids_where test (j ∷ js) = do
  chosen ← test j
  rest ← block_ids_where test js
  ok (if chosen then j.block_id ∷ rest else rest)

unfoldable pub dispatching_block_ids : QueueLedger → DateTime → Result (List String)
dispatching_block_ids ledger at = do
  let committing = block_ids_of (select (λ b. b.state == BlockState.committing) ledger.blocks)
  ids ← block_ids_where (is_dispatched committing at) ledger.jobs
  ok (to_set ids)

-- `_running`: a block and a job that a dispatch in flight has started
unfoldable pub start_block : List String → DateTime → QueueBlock → Result QueueBlock
start_block dispatching at b =
    if contains b.block_id dispatching
    then make_block (record b { state = BlockState.running; committed_at = some at })
    else ok b

unfoldable pub start_job : List String → DateTime → QueueJob → Result QueueJob
start_job dispatching at j =
    if contains j.block_id dispatching && j.state == JobState.dispatching
    then make_job (record j { state = JobState.running; started_at = some at })
    else ok j

-- a `replace(ledger, ...)` behind two rewritten tuples, the blocks first
unfoldable pub rewrite_ledger :
    QueueLedger
    → (QueueBlock → Result QueueBlock)
    → (QueueJob → Result QueueJob)
    → DateTime
    → Result QueueLedger
rewrite_ledger ledger change_block change_job at = do
  blocks ← map_result change_block ledger.blocks
  jobs ← map_result change_job ledger.jobs
  make_ledger (record ledger {
    revision = incℤ ledger.revision;
    blocks = blocks;
    jobs = jobs;
    last_reconciled_at = some at;
  })

unfoldable pub start_dispatched : List String → QueueLedger → DateTime → Result QueueLedger
start_dispatched dispatching ledger at =
    if is_empty dispatching
    then ok ledger
    else rewrite_ledger ledger (start_block dispatching at) (start_job dispatching at) at

-- the inner loop, over the jobs that `tuple(ledger.jobs)` holds
unfoldable pub run_accepted : String → DateTime → List QueueJob → QueueLedger → Result QueueLedger
run_accepted id at [] ledger = ok ledger
run_accepted id at (j ∷ js) ledger = do
  next ←
      if j.block_id == id && j.state == JobState.accepted
      then replace_job_state ledger j.job_id JobState.running at no_change
      else ok ledger
  run_accepted id at js next

unfoldable pub run_blocks : DateTime → List String → QueueLedger → Result QueueLedger
run_blocks at [] ledger = ok ledger
run_blocks at (id ∷ ids) ledger = do
  block ← parent_of ledger.blocks id
  started ←
      if block.state == BlockState.committed
      then replace_block_state ledger id BlockState.running at none
      else ok ledger
  next ← run_accepted id at started.jobs started
  run_blocks at ids next

abbrev pub is_committed_or_running : QueueBlock → Bool
is_committed_or_running b = contains b.state (BlockState.committed ∷ BlockState.running ∷ [])

abbrev pub active_block_ids : QueueLedger → List String → List String
active_block_ids ledger dispatching =
    to_set (block_ids_of (select is_committed_or_running ledger.blocks) ++ dispatching)

-- `replace(state, ledger=ledger)`
abbrev pub with_ledger : PlannerState → QueueLedger → Result PlannerState
with_ledger state ledger = make_state (record state { ledger = ledger })

unfoldable pub observe_running :
    (List String → List String) → PlannerState → DateTime → Result PlannerState
observe_running order state at = do
  dispatching ← dispatching_block_ids state.ledger at
  let ids = active_block_ids state.ledger dispatching
  let change = do
    started ← start_dispatched dispatching state.ledger at
    ledger ← run_blocks at (order ids) started
    with_ledger state ledger
  if is_empty ids then ok state else change

-- the body of the loop of `_completed`
unfoldable pub complete_one : PlannerState → String → DateTime → String → Result PlannerState
complete_one state job_id at next = do
  result ← complete_job_and_advance_plan state.ledger state.plan_revision job_id at next
  make_state (record { plan_revision = result.plan_revision; ledger = result.ledger })

-- The loop, over the jobs of the first state. `ids` is `uuid4`: its n-th result.
unfoldable pub complete_running :
    (ℕ → String) → ℕ → DateTime → List QueueJob → PlannerState → Result PlannerState
complete_running ids n at [] state = ok state
complete_running ids n at (j ∷ js) state = elim (j.state == JobState.running) [
  | true ↦ complete_one state j.job_id at (ids n) >>= complete_running ids (n + 1) at js
  | false ↦ complete_running ids n at js state
]

unfoldable pub observe_completed : (ℕ → String) → PlannerState → DateTime → Result PlannerState
observe_completed ids state at =
    if any (λ j. j.state == JobState.running) state.ledger.jobs
    then complete_running ids 0 at state.ledger.jobs state
    else ok state
