-- ===== src/Models/Transitions.antt =====
-- `QueueLedger.replace_block_state` and `QueueLedger.replace_job_state`.
use ha_vacuum_planner.Base.{
  Bool, Error, List, Option, Result, String, [], any, contains, err, false, find, if◌then◌else◌,
  incℤ, int_eq, key_error, list_beq, ltℤ, nat_eq, none, not, ok, raise_if, replace_where, some,
  stop_iteration, str_append, string_eq, take_before, true, value_error, ◌&&◌, ◌==◌, ◌>>=◌, ◌>>◌,
  ◌∷◌,
}
use ha_vacuum_planner.Models.Enums.{
  BlockState, DispatchStrategy, JobState, block_guarantee_eq, block_kind_eq, block_state_eq,
  block_state_value, dispatch_strategy_eq, job_state_eq, job_state_value, mode_eq,
  preferred_mode_eq,
}
use ha_vacuum_planner.Models.Time.{DateTime, time_beq}
use ha_vacuum_planner.Models.Checks.{require_aware, require_text}
use ha_vacuum_planner.Models.Jobs.{
  QueueJob, is_terminal_job, job_terminal_states, job_transitions, make_job,
}
use ha_vacuum_planner.Models.Blocks.{
  QueueBlock, block_terminal_states, block_transitions, is_terminal_block, make_block,
}
use ha_vacuum_planner.Models.Ledgers.{
  QueueLedger, jobs_of, make_ledger, validate_terminal_block_result,
}

-- `==` of two blocks, field by field
abbrev pub option_beq {ℓ} : {A : Type ℓ} → (A → A → Bool) → Option A → Option A → Bool
option_beq beq none none = true
option_beq beq (some a) (some b) = beq a b
option_beq beq _ _ = false

unfoldable pub block_beq : QueueBlock → QueueBlock → Bool
block_beq a b =
    a.block_id == b.block_id
    && a.kind == b.kind
    && a.lane_id == b.lane_id
    && a.plan_revision == b.plan_revision
    && a.idempotency_key == b.idempotency_key
    && time_beq a.created_at b.created_at
    && option_beq time_beq a.sealed_at b.sealed_at
    && a.state == b.state
    && list_beq string_eq.beq a.job_ids b.job_ids
    && a.dispatch_strategy == b.dispatch_strategy
    && a.guarantee == b.guarantee
    && option_beq time_beq a.committed_at b.committed_at
    && option_beq time_beq a.completed_at b.completed_at
    && option_beq string_eq.beq a.adapter_run_id b.adapter_run_id

-- `value or default`, of two optional strings
abbrev pub or_default : Option String → Option String → Option String
or_default none d = d
or_default (some s) d = if s == "" then d else some s

-- `next(block for block in blocks if block.block_id == id)`
unfoldable pub parent_of : List QueueBlock → String → Result QueueBlock
parent_of blocks id = elim (find (λ b. b.block_id == id) blocks) [
  | none ↦ err stop_iteration
  | some b ↦ ok b
]

-- the first of the matches, or `KeyError`
unfoldable pub find_block : List QueueBlock → String → Result QueueBlock
find_block blocks id = elim (find (λ b. b.block_id == id) blocks) [
  | none ↦ err (key_error id)
  | some b ↦ ok b
]

unfoldable pub find_job : List QueueJob → String → Result QueueJob
find_job jobs id = elim (find (λ j. j.job_id == id) jobs) [
  | none ↦ err (key_error id)
  | some j ↦ ok j
]

-- `tuple(changed if block.block_id == id else block for block in blocks)`
unfoldable pub put_block : String → QueueBlock → List QueueBlock → List QueueBlock
put_block id = replace_where (λ b. b.block_id == id)

unfoldable pub put_job : String → QueueJob → List QueueJob → List QueueJob
put_job id = replace_where (λ j. j.job_id == id)

-- what the transition writes into the block
abbrev pub block_after : QueueBlock → BlockState → DateTime → Option String → QueueBlock
block_after current BlockState.committed at run = record current {
  state = BlockState.committed;
  committed_at = some at;
  adapter_run_id = or_default run current.adapter_run_id;
}
block_after current BlockState.completed at run = record current {
  state = BlockState.completed;
  completed_at = some at;
}
block_after current BlockState.partial at run = record current {
  state = BlockState.partial;
  completed_at = some at;
}
block_after current new_state at run = record current { state = new_state }

abbrev pub require_run_id : Option String → Result (Unit {0})
require_run_id none = ok tt
require_run_id (some id) = require_text "adapter_run_id" id

-- the message of a refused transition
abbrev pub invalid_transition : String → String → String → Error
invalid_transition what from to = value_error (
    str_append "invalid "
      (str_append what (str_append " transition: " (str_append from (str_append " -> " to)))))

unfoldable pub replace_block_state :
    QueueLedger → String → BlockState → DateTime → Option String → Result QueueLedger
replace_block_state ledger block_id new_state changed_at adapter_run_id = do
  require_aware "changed_at" (some changed_at)
  require_run_id adapter_run_id
  current ← find_block ledger.blocks block_id
  raise_if (not (contains new_state (block_transitions current.state)))
      (invalid_transition "block" (block_state_value current.state) (block_state_value new_state))
  let block_jobs = jobs_of block_id ledger.jobs
  validate_terminal_block_result new_state block_jobs
  raise_if
      (contains new_state block_terminal_states && any (λ j. not (is_terminal_job j)) block_jobs)
      (value_error "terminal block requires terminal jobs")
  changed ← make_block (block_after current new_state changed_at adapter_run_id)
  make_ledger (record ledger {
    revision = incℤ ledger.revision;
    blocks = put_block block_id changed ledger.blocks;
  })

unfoldable pub validate_job_dispatch :
    QueueBlock → QueueJob → List QueueBlock → List QueueJob → Result (Unit {0})
validate_job_dispatch parent current blocks jobs = do
  raise_if (not (contains parent.state (BlockState.committed ∷ BlockState.running ∷ [])))
      (value_error "dispatch requires a committed parent block")
  raise_if
      (any (λ b. b.lane_id == parent.lane_id && not (is_terminal_block b))
        (take_before (λ b. block_beq b parent) blocks))
      (value_error "earlier lane block is not terminal")
  raise_if
      (parent.dispatch_strategy == DispatchStrategy.planner_sequential
        && any
            (λ j.
              j.block_id == parent.block_id
              && ltℤ j.position current.position
              && not (is_terminal_job j))
            jobs)
      (value_error "previous sequential job is not terminal")
  raise_if
      (parent.dispatch_strategy == DispatchStrategy.planner_sequential
        && any
            (λ j.
              j.block_id == parent.block_id
              && ltℤ current.position j.position
              && not (j.state == JobState.pending))
            jobs)
      (value_error "later sequential job has already advanced")

-- the keyword arguments of `replace_job_state`
pub record JobChange : Type 0 where
  pub adapter_confirmed : Bool
  pub adapter_token : Option String
  pub error_code : Option String
  pub error_detail : Option String

-- the arguments that are left out
abbrev pub no_change : JobChange
no_change = record {
  adapter_confirmed = false;
  adapter_token = none;
  error_code = none;
  error_detail = none;
}

-- what the transition writes into the job
unfoldable pub job_after : QueueJob → JobState → DateTime → JobChange → QueueJob
job_after current new_state at with_ =
    if new_state == JobState.dispatching
    then record current {
      state = new_state;
      attempt = incℤ current.attempt;
      adapter_token = none;
      sent_at = some at;
      started_at = none;
      finished_at = none;
      error_code = with_.error_code;
      error_detail = with_.error_detail;
    }
    else if new_state == JobState.running
    then record current {
      state = new_state;
      adapter_token = or_default with_.adapter_token current.adapter_token;
      started_at = some at;
      error_code = with_.error_code;
      error_detail = with_.error_detail;
    }
    else if contains new_state job_terminal_states
    then record current {
      state = new_state;
      adapter_token = or_default with_.adapter_token current.adapter_token;
      finished_at = some at;
      error_code = with_.error_code;
      error_detail = with_.error_detail;
    }
    else record current {
      state = new_state;
      adapter_token = or_default with_.adapter_token current.adapter_token;
      error_code = with_.error_code;
      error_detail = with_.error_detail;
    }

-- `if new_state is DISPATCHING: _validate_job_dispatch(...)`
abbrev pub check_dispatch :
    JobState → QueueBlock → QueueJob → List QueueBlock → List QueueJob → Result (Unit {0})
check_dispatch JobState.dispatching parent current blocks jobs =
    validate_job_dispatch parent current blocks jobs
check_dispatch _ parent current blocks jobs = ok tt

unfoldable pub replace_job_state :
    QueueLedger → String → JobState → DateTime → JobChange → Result QueueLedger
replace_job_state ledger job_id new_state changed_at with_ = do
  require_aware "changed_at" (some changed_at)
  current ← find_job ledger.jobs job_id
  parent ← parent_of ledger.blocks current.block_id
  raise_if (is_terminal_block parent)
      (value_error "job transition is forbidden under a terminal parent block")
  raise_if (parent.state == BlockState.uncertain)
      (value_error "job transition is forbidden under an uncertain parent block")
  check_dispatch new_state parent current ledger.blocks ledger.jobs
  raise_if (not (contains new_state (job_transitions current.state)))
      (invalid_transition "job" (job_state_value current.state) (job_state_value new_state))
  raise_if
      (new_state == JobState.cancelled
        && contains current.state (JobState.accepted ∷ JobState.running ∷ [])
        && not with_.adapter_confirmed)
      (value_error "adapter confirmation is required for cancellation")
  changed ← make_job (job_after current new_state changed_at with_)
  make_ledger
      (record ledger { revision = incℤ ledger.revision; jobs = put_job job_id changed ledger.jobs })
