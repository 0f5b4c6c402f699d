-- ===== src/Queue/Commands.antt =====
-- domain/queue.py: `start_due_block`, `begin_native_batch_commit` and `fail_block_commit`.
use ha_vacuum_planner.Base.{
  Bool, List, Option, Result, String, [], any, contains, draw_ids, duplicate_identity_error, err,
  false, find, has_duplicates, has_text, if◌then◌else◌, incℤ, int_eq, is_empty,
  lane_already_open_error, map_result, nat_eq, none, not, ok, pos, raise_if,
  revision_conflict_error, some, string_eq, value_error, ℕ, ℤ, ◌&&◌, ◌++◌, ◌+◌, ◌==◌, ◌>>=◌, ◌>>◌,
  ◌||◌, ◌∷◌,
}
use ha_vacuum_planner.Models.{
  BlockGuarantee, BlockKind, BlockState, DateTime, DispatchStrategy, JobState, PlanSnapshot,
  QueueBlock, QueueJob, QueueLedger, SnapshotJob, block_guarantee_eq, block_ids_of, block_kind_eq,
  block_state_eq, dispatch_strategy_eq, find_block, is_terminal_block, job_ids_of, job_state_eq,
  jobs_of, le_time, make_block, make_job, make_ledger, mode_eq, preferred_mode_eq, put_block,
  require_job,
}

pub data StartStatus : Type 0 where
  created existing no_work : StartStatus

pub record StartResult : Type 0 where
  pub status : StartStatus
  pub ledger : QueueLedger
  pub block : Option QueueBlock
  pub jobs : List QueueJob

-- `value is not None and bool(value.strip())`
unfoldable pub has_external_correlation : Option String → Bool
has_external_correlation none = false
has_external_correlation (some s) = has_text s

-- `_ACTIVE_JOB_STATES`
abbrev pub active_job_states : List JobState
active_job_states = JobState.dispatching ∷ JobState.accepted ∷ JobState.running ∷ []

unfoldable pub is_uncorrelated_active : QueueJob → Bool
is_uncorrelated_active job =
    contains job.state active_job_states && not (has_external_correlation job.adapter_token)

-- `_jobs_for_block`
unfoldable pub jobs_for_block : QueueLedger → QueueBlock → Result (List QueueJob)
jobs_for_block ledger block = map_result (require_job ledger.jobs) block.job_ids

-- the arguments of `start_due_block` that the ledger and the snapshot do not hold
pub record StartRequest : Type 0 where
  pub lane_id : String
  pub idempotency_key : String
  pub now : DateTime
  pub dispatch_strategy : DispatchStrategy
  pub guarantee : BlockGuarantee
  pub atomic_device_commit : Bool
  pub expected_revision : Option ℤ

-- the test of the loop over `ledger.blocks`
unfoldable pub is_repeated : StartRequest → QueueBlock → Bool
is_repeated request block =
    block.lane_id == request.lane_id
    && block.idempotency_key == request.idempotency_key
    && not (is_terminal_block block)

unfoldable pub is_open_in : String → QueueBlock → Bool
is_open_in lane block = block.lane_id == lane && not (is_terminal_block block)

abbrev pub differs? : Option ℤ → ℤ → Bool
differs? none revision = false
differs? (some expected) revision = not (revision == expected)

-- the job of one snapshot entry, before its checks
abbrev pub planned_job : StartRequest → String → ℕ → String → SnapshotJob → QueueJob
planned_job request block_id position job_id entry = record {
  job_id = job_id;
  block_id = block_id;
  area_id = entry.area_id;
  area_name_snapshot = entry.area_name_snapshot;
  adapter_target_snapshot = entry.adapter_target_snapshot;
  mode = entry.mode;
  position = pos position;
  state = JobState.pending;
  attempt = pos 0;
  planned_at = request.now;
  adapter_token = none;
  sent_at = none;
  started_at = none;
  finished_at = none;
  error_code = none;
  error_detail = none;
}

-- The tuple of jobs, from a position on. `zip(..., strict=True)` refuses lists of two lengths.
unfoldable pub planned_jobs :
    StartRequest → String → ℕ → List String → List SnapshotJob → Result (List QueueJob)
planned_jobs request block_id i [] [] = ok []
planned_jobs request block_id i (id ∷ ids) (e ∷ es) = do
  job ← make_job (planned_job request block_id i id e)
  jobs ← planned_jobs request block_id (i + 1) ids es
  ok (job ∷ jobs)
planned_jobs request block_id i _ _ = err (value_error "zip() arguments have different lengths")

abbrev pub sealed_block : StartRequest → PlanSnapshot → String → List String → QueueBlock
sealed_block request snapshot block_id job_ids = record {
  block_id = block_id;
  kind = BlockKind.scheduled;
  lane_id = request.lane_id;
  plan_revision = snapshot.plan_revision;
  idempotency_key = request.idempotency_key;
  created_at = request.now;
  sealed_at = some request.now;
  state = BlockState.sealed;
  job_ids = job_ids;
  dispatch_strategy = request.dispatch_strategy;
  guarantee = request.guarantee;
  committed_at = none;
  completed_at = none;
  adapter_run_id = none;
}

-- The part behind the checks of the request. `block_id` and `job_ids` are what `id_factory` returns,
-- call by call: the first identity and one for each entry of the snapshot.
unfoldable pub seal_block :
    QueueLedger → PlanSnapshot → StartRequest → String → List String → Result StartResult
seal_block ledger snapshot request block_id job_ids = do
  let existing_ids = block_ids_of ledger.blocks ++ job_ids_of ledger.jobs
  raise_if
      (has_duplicates (block_id ∷ job_ids)
        || any (λ id. contains id existing_ids) (block_id ∷ job_ids))
      (duplicate_identity_error "generated queue identities must be globally unique")
  jobs ← planned_jobs request block_id 0 job_ids snapshot.jobs
  block ← make_block (sealed_block request snapshot block_id job_ids)
  updated ← make_ledger (record ledger {
    revision = incℤ ledger.revision;
    blocks = ledger.blocks ++ (block ∷ []);
    jobs = ledger.jobs ++ jobs;
  })
  ok (record { status = created; ledger = updated; block = some block; jobs = jobs })

-- The part behind the loop over the open blocks. `ids` is `id_factory`: its n-th result.
unfoldable pub start_new_block :
    QueueLedger → PlanSnapshot → StartRequest → (ℕ → String) → Result StartResult
start_new_block ledger snapshot request ids = do
  raise_if (not (snapshot.lane_id == request.lane_id))
      (value_error "snapshot lane does not match requested lane")
  raise_if
      (request.guarantee == BlockGuarantee.robot_atomic
        && not (request.dispatch_strategy == DispatchStrategy.device_queue))
      (value_error "robot_atomic requires device_queue")
  raise_if (request.guarantee == BlockGuarantee.robot_atomic && not request.atomic_device_commit)
      (value_error "robot_atomic requires atomic device commit proof")
  raise_if (differs? request.expected_revision ledger.revision) revision_conflict_error
  raise_if (any (is_open_in request.lane_id) ledger.blocks)
      (lane_already_open_error "lane already has an open block")
  if is_empty snapshot.jobs
      then ok (record { status = no_work; ledger = ledger; block = none; jobs = [] })
      else seal_block ledger snapshot request (ids 0) (draw_ids ids 1 snapshot.jobs)

unfoldable pub start_due_block :
    QueueLedger → PlanSnapshot → StartRequest → (ℕ → String) → Result StartResult
start_due_block ledger snapshot request ids = elim (find (is_repeated request) ledger.blocks) [
  | some block ↦ do
    jobs ← jobs_for_block ledger block
    ok (record { status = existing; ledger = ledger; block = some block; jobs = jobs })
  | none ↦ start_new_block ledger snapshot request ids
]

-- `{job.job_id: changed(job) for job in block_jobs}` written back by `.get(job.job_id, job)`: with the
-- distinct identities of a ledger this changes the jobs of the block and no other.
unfoldable pub change_jobs_of :
    String → (QueueJob → QueueJob) → List QueueJob → Result (List QueueJob)
change_jobs_of id change [] = ok []
change_jobs_of id change (j ∷ js) = do
  j' ← if j.block_id == id then make_job (change j) else ok j
  js' ← change_jobs_of id change js
  ok (j' ∷ js')

unfoldable pub fail_block_commit :
    QueueLedger → String → DateTime → String → Option String → Result QueueLedger
fail_block_commit ledger block_id failed_at code detail = do
  block ← find_block ledger.blocks block_id
  raise_if (not (block.state == BlockState.committing)) (value_error "block is not committing")
  raise_if (any (λ j. not (j.state == JobState.pending)) (jobs_of block_id ledger.jobs))
      (value_error "commit failure requires unsent jobs")
  jobs ←
      change_jobs_of block_id
        (λ j. record j {
          state = JobState.failed;
          finished_at = some failed_at;
          error_code = some code;
          error_detail = detail;
        })
        ledger.jobs
  failed ← make_block (record block { state = BlockState.failed })
  make_ledger (record ledger {
    revision = incℤ ledger.revision;
    blocks = put_block block_id failed ledger.blocks;
    jobs = jobs;
  })

-- an open block of the lane, other than `block`, that was created no later
unfoldable pub is_earlier_open : QueueBlock → QueueBlock → Bool
is_earlier_open block item =
    item.lane_id == block.lane_id
    && le_time item.created_at block.created_at
    && not (item.block_id == block.block_id)
    && not (is_terminal_block item)

unfoldable pub begin_native_batch_commit : QueueLedger → String → DateTime → Result QueueLedger
begin_native_batch_commit ledger block_id sent_at = do
  block ← find_block ledger.blocks block_id
  raise_if (not (block.state == BlockState.sealed))
      (value_error "native batch commit requires a sealed block")
  raise_if (not (block.dispatch_strategy == DispatchStrategy.native_batch))
      (value_error "native batch commit requires native batch strategy")
  raise_if (any (is_earlier_open block) ledger.blocks)
      (value_error "earlier lane block must be terminal before native batch commit")
  let block_jobs = jobs_of block_id ledger.jobs
  raise_if (is_empty block_jobs || any (λ j. not (j.state == JobState.pending)) block_jobs)
      (value_error "native batch commit requires pending jobs")
  committing ← make_block (record block { state = BlockState.committing })
  jobs ←
      change_jobs_of block_id
        (λ j. record j {
          state = JobState.dispatching;
          attempt = incℤ j.attempt;
          sent_at = some sent_at;
        })
        ledger.jobs
  make_ledger (record ledger {
    revision = incℤ ledger.revision;
    blocks = put_block block_id committing ledger.blocks;
    jobs = jobs;
  })
