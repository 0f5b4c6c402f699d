-- ===== src/Models/Ledgers.antt =====
-- `QueueLedger` and the checks of its block and job graph.
use ha_vacuum_planner.Base.{
  Bool, List, Option, Result, String, [], any, contains, err, false, has_duplicates, if◌then◌else◌,
  int_beq, int_eq, is_none, key_error, length, list_beq, ltb, ltℤ, map, map_result, nat_beq, nat_eq,
  none, not, ok, pos, raise_if, select, set_eq, some, string_eq, subset, suc, to_set, value_error,
  zero, ℕ, ℤ, ◌&&◌, ◌++◌, ◌+◌, ◌==◌, ◌>>=◌, ◌>>◌, ◌||◌, ◌∷◌,
}
use ha_vacuum_planner.Models.Enums.{
  BlockState, DispatchStrategy, JobState, block_guarantee_eq, block_kind_eq, block_state_eq,
  dispatch_strategy_eq, job_state_eq, mode_eq, preferred_mode_eq,
}
use ha_vacuum_planner.Models.Time.{DateTime, lt_time}
use ha_vacuum_planner.Models.Checks.{require_aware}
use ha_vacuum_planner.Models.Jobs.{QueueJob, is_terminal_job, job_terminal_states}
use ha_vacuum_planner.Models.Blocks.{QueueBlock, is_terminal_block}

pub record QueueLedger : Type 0 where
  pub schema_version : ℤ
  pub revision : ℤ
  pub blocks : List QueueBlock
  pub jobs : List QueueJob
  pub active_block_id : Option String
  pub last_reconciled_at : Option DateTime

abbrev pub block_ids_of : List QueueBlock → List String
block_ids_of = map (λ b. b.block_id)

abbrev pub job_ids_of : List QueueJob → List String
job_ids_of = map (λ j. j.job_id)

abbrev pub states_of : List QueueJob → List JobState
states_of = map (λ j. j.state)

-- `{job.job_id: job for job in jobs}.get(id)`: of two jobs with one id the later is kept.
unfoldable pub job_by_id : List QueueJob → String → Option QueueJob
job_by_id [] id = none
job_by_id (j ∷ js) id = elim (job_by_id js id) [
  | some x ↦ some x
  | none ↦ if j.job_id == id then some j else none
]

-- `jobs_by_id[id]`
unfoldable pub require_job : List QueueJob → String → Result QueueJob
require_job js id = elim (job_by_id js id) [ none ↦ err (key_error id) | some j ↦ ok j ]

-- `[job for job in jobs if job.block_id == id]`
unfoldable pub jobs_of : String → List QueueJob → List QueueJob
jobs_of id = select (λ j. j.block_id == id)

-- `list(range(i, i + n))`
unfoldable pub range_from : ℕ → ℕ → List ℤ
range_from i zero = []
range_from i (suc n) = pos i ∷ range_from (i + 1) n

-- `{job.state for job in jobs}`
unfoldable pub state_set : List QueueJob → List JobState
state_set block_jobs = to_set (states_of block_jobs)

unfoldable pub validate_terminal_block_result : BlockState → List QueueJob → Result (Unit {0})
validate_terminal_block_result block_state block_jobs = do
  let states = state_set block_jobs
  raise_if (block_state == BlockState.completed && not (set_eq states (JobState.completed ∷ [])))
      (value_error "completed block requires all jobs completed")
  raise_if
      (block_state == BlockState.partial
        && (nat_beq (length states) 0
            || not (subset states job_terminal_states)
            || ltb (length states) 2
            || not (contains JobState.completed states)))
      (value_error "partial block requires mixed terminal job results")
  raise_if
      (block_state == BlockState.failed
        && subset states job_terminal_states
        && not (contains JobState.failed states))
      (value_error "failed block requires a failed job")

unfoldable pub validate_unique_queue_ids : List QueueBlock → List QueueJob → Result (Unit {0})
validate_unique_queue_ids blocks jobs = do
  raise_if (has_duplicates (block_ids_of blocks)) (value_error "duplicate block_id in ledger")
  raise_if (has_duplicates (job_ids_of jobs)) (value_error "duplicate job_id in ledger")
  raise_if (any (λ id. contains id (block_ids_of blocks)) (job_ids_of jobs))
      (value_error "block and job identities must be globally unique")

abbrev active_states : List JobState
active_states =
    JobState.dispatching ∷ JobState.accepted ∷ JobState.running ∷ JobState.uncertain ∷ []

abbrev active_states_but_dispatching : List JobState
active_states_but_dispatching = JobState.accepted ∷ JobState.running ∷ JobState.uncertain ∷ []

unfoldable pub incompatible_states : QueueBlock → List JobState
incompatible_states block =
    if contains block.state (BlockState.draft ∷ BlockState.validating ∷ BlockState.sealed ∷ [])
    then active_states
    else if block.state == BlockState.committing
        && block.dispatch_strategy == DispatchStrategy.native_batch
    then active_states_but_dispatching
    else if block.state == BlockState.committing
    then active_states
    else []

unfoldable pub validate_block_job_compatibility : QueueBlock → List QueueJob → Result (Unit {0})
validate_block_job_compatibility block block_jobs =
    raise_if (any (λ j. contains j.state (incompatible_states block)) block_jobs)
      (value_error "job state is incompatible with parent block")

-- `last_created_by_lane`: a lane's newest entry stands first.
abbrev pub Created : Type 0
Created = List (String × DateTime)

unfoldable pub last_created : String → Created → Option DateTime
last_created lane [] = none
last_created lane ((l, t) ∷ rest) = if l == lane then some t else last_created lane rest

abbrev pub is_before? : DateTime → Option DateTime → Bool
is_before? t none = false
is_before? t (some u) = lt_time t u

-- what the loop over the blocks checks of one block against the jobs
unfoldable pub check_block : List QueueJob → QueueBlock → Result (Unit {0})
check_block jobs block = do
  raise_if (any (λ id. is_none (job_by_id jobs id)) block.job_ids)
      (value_error "block references unknown job_id")
  block_jobs ← map_result (require_job jobs) block.job_ids
  raise_if (any (λ j. not (j.block_id == block.block_id)) block_jobs)
      (value_error "job references wrong block_id")
  raise_if
      (not (list_beq int_beq (map (λ j. j.position) block_jobs) (range_from 0 (length block_jobs))))
      (value_error "job positions must be contiguous and ordered")
  validate_block_job_compatibility block block_jobs
  validate_terminal_block_result block.state block_jobs
  raise_if (is_terminal_block block && any (λ j. not (is_terminal_job j)) block_jobs)
      (value_error "terminal block requires terminal jobs")

-- the loop over the blocks; it returns `listed_job_ids`
unfoldable pub check_blocks :
    List QueueJob → Created → List String → List QueueBlock → Result (List String)
check_blocks jobs created listed [] = ok listed
check_blocks jobs created listed (b ∷ bs) = do
  raise_if (is_before? b.created_at (last_created b.lane_id created))
      (value_error "lane blocks must remain append ordered")
  check_block jobs b
  check_blocks jobs ((b.lane_id, b.created_at) ∷ created) (listed ++ b.job_ids) bs

unfoldable pub validate_ledger_references : List QueueBlock → List QueueJob → Result (Unit {0})
validate_ledger_references blocks jobs = do
  validate_unique_queue_ids blocks jobs
  raise_if (any (λ j. not (contains j.block_id (block_ids_of blocks))) jobs)
      (value_error "job references unknown parent block")
  listed ← check_blocks jobs [] [] blocks
  raise_if (not (set_eq listed (job_ids_of jobs)))
      (value_error "ledger contains an orphan job not listed by its parent block")

abbrev pub is_unknown? : Option String → List String → Bool
is_unknown? none ids = false
is_unknown? (some id) ids = not (contains id ids)

-- `QueueLedger.__post_init__`
unfoldable pub validate_ledger : QueueLedger → Result (Unit {0})
validate_ledger ledger = do
  raise_if (not (ledger.schema_version == pos 1)) (value_error "unsupported schema_version")
  raise_if (ltℤ ledger.revision (pos 0)) (value_error "revision must not be negative")
  require_aware "last_reconciled_at" ledger.last_reconciled_at
  validate_ledger_references ledger.blocks ledger.jobs
  raise_if (is_unknown? ledger.active_block_id (block_ids_of ledger.blocks))
      (value_error "active_block_id references unknown block")

-- `QueueLedger(...)` and `replace(ledger, ...)`
unfoldable pub make_ledger : QueueLedger → Result QueueLedger
make_ledger ledger = do validate_ledger ledger; ok ledger

-- `QueueLedger.empty()`
unfoldable pub empty_ledger : Result QueueLedger
empty_ledger = make_ledger (record {
  schema_version = pos 1;
  revision = pos 0;
  blocks = [];
  jobs = [];
  active_block_id = none;
  last_reconciled_at = none;
})
