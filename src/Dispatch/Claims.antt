-- ===== src/Dispatch/Claims.antt =====
-- __init__.py: the commands of a dispatch, on the planner's state.
use ha_vacuum_planner.Base.{
  Bool, List, Result, String, [], contains, false, find, if◌then◌else◌, int_eq, nat_eq, none, ok,
  some, string_eq, ◌==◌, ◌>>=◌, ◌∷◌,
}
use ha_vacuum_planner.Models.{
  BlockState, DateTime, JobState, PlannerState, QueueJob, QueueLedger, block_guarantee_eq,
  block_kind_eq, block_state_eq, dispatch_strategy_eq, find_block, job_state_eq, make_state,
  mode_eq, no_change, parent_of, preferred_mode_eq, replace_block_state, replace_job_state,
}
use ha_vacuum_planner.Queue.{begin_native_batch_commit, quarantine_block_dispatch}

-- the states in which a block needs no acceptance and no quarantine any more
abbrev pub observed_states : List BlockState
observed_states =
    BlockState.running ∷ BlockState.completed ∷ BlockState.failed ∷ BlockState.uncertain ∷ []

-- `_NativeDispatchClaim`: whether the call claims the block, and the state that it returns
unfoldable pub claims : String → PlannerState → Bool
claims id state = elim (find (λ b. b.block_id == id) state.ledger.blocks) [
  | none ↦ false
  | some b ↦ b.state == BlockState.sealed
]

unfoldable pub claim : String → DateTime → PlannerState → Result PlannerState
claim id at state = do
  block ← find_block state.ledger.blocks id
  let change = do
    ledger ← begin_native_batch_commit state.ledger id at
    make_state (record state { ledger = ledger })
  if block.state == BlockState.sealed then change else ok state

-- the loop over the jobs that the start returned
unfoldable pub accept_jobs : DateTime → List QueueJob → QueueLedger → Result QueueLedger
accept_jobs at [] ledger = ok ledger
accept_jobs at (j ∷ js) ledger = do
  next ← replace_job_state ledger j.job_id JobState.accepted at no_change
  accept_jobs at js next

-- `_record_dispatch_acceptance`
unfoldable pub record_dispatch_acceptance :
    String → List QueueJob → DateTime → PlannerState → Result PlannerState
record_dispatch_acceptance id jobs at state = do
  block ← parent_of state.ledger.blocks id
  let change = do
    committed ← replace_block_state state.ledger id BlockState.committed at none
    ledger ← accept_jobs at jobs committed
    make_state (record state { ledger = ledger })
  if contains block.state observed_states then ok state else change

-- `record_uncertain`
unfoldable pub record_uncertain : String → DateTime → PlannerState → Result PlannerState
record_uncertain id at state = do
  block ← parent_of state.ledger.blocks id
  let change = do
    ledger ← quarantine_block_dispatch state.ledger id at
    make_state (record state { ledger = ledger })
  if contains block.state observed_states then ok state else change
