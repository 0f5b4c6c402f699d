-- ===== src/Models/Blocks.antt =====
-- `QueueBlock` and its checks.
use ha_vacuum_planner.Base.{
  Bool, List, Option, Result, String, [], contains, has_duplicates, int_eq, is_none, nat_eq, not,
  ok, raise_if, some, string_eq, value_error, ◌&&◌, ◌==◌, ◌>>◌, ◌∷◌,
}
use ha_vacuum_planner.Models.Enums.{
  BlockGuarantee, BlockKind, BlockState, DispatchStrategy, block_guarantee_eq, block_kind_eq,
  block_state_eq, dispatch_strategy_eq, job_state_eq, mode_eq, preferred_mode_eq,
}
use ha_vacuum_planner.Models.Time.{DateTime, is_chronological, present}
use ha_vacuum_planner.Models.Checks.{require_aware, require_text}

pub record QueueBlock : Type 0 where
  pub block_id : String
  pub kind : BlockKind
  pub lane_id : String
  pub plan_revision : String
  pub idempotency_key : String
  pub created_at : DateTime
  pub sealed_at : Option DateTime
  pub state : BlockState
  pub job_ids : List String
  pub dispatch_strategy : DispatchStrategy
  pub guarantee : BlockGuarantee
  pub committed_at : Option DateTime
  pub completed_at : Option DateTime
  pub adapter_run_id : Option String

-- `_BLOCK_TERMINAL_STATES`
abbrev pub block_terminal_states : List BlockState
block_terminal_states =
    BlockState.completed ∷ BlockState.rejected ∷ BlockState.cancelled ∷ BlockState.failed
    ∷ BlockState.partial ∷ []

-- `_BLOCK_TRANSITIONS.get(state, frozenset())`
abbrev pub block_transitions : BlockState → List BlockState
block_transitions BlockState.draft = BlockState.validating ∷ []
block_transitions BlockState.validating = BlockState.sealed ∷ BlockState.rejected ∷ []
block_transitions BlockState.sealed = BlockState.committing ∷ BlockState.cancelled ∷ []
block_transitions BlockState.committing =
    BlockState.committed ∷ BlockState.failed ∷ BlockState.uncertain ∷ []
block_transitions BlockState.committed =
    BlockState.running ∷ BlockState.cancelled ∷ BlockState.uncertain ∷ []
block_transitions BlockState.running =
    BlockState.completed ∷ BlockState.partial ∷ BlockState.failed ∷ BlockState.cancelled
    ∷ BlockState.uncertain ∷ []
block_transitions _ = []

abbrev pub is_terminal_block : QueueBlock → Bool
is_terminal_block block = contains block.state block_terminal_states

abbrev pub block_timestamps : QueueBlock → List DateTime
block_timestamps block =
    present (some block.created_at ∷ block.sealed_at ∷ block.committed_at ∷ block.completed_at ∷ [])

-- `QueueBlock.__post_init__`
unfoldable pub validate_block : QueueBlock → Result (Unit {0})
validate_block block = do
  require_text "block_id" block_id
  require_text "lane_id" lane_id
  require_text "plan_revision" plan_revision
  require_text "idempotency_key" idempotency_key
  raise_if (has_duplicates job_ids) (value_error "duplicate job_id in block")
  raise_if
      (guarantee == BlockGuarantee.robot_atomic
        && not (dispatch_strategy == DispatchStrategy.device_queue))
      (value_error "robot_atomic requires device_queue")
  require_aware "created_at" (some created_at)
  require_aware "sealed_at" sealed_at
  require_aware "committed_at" committed_at
  require_aware "completed_at" completed_at
  raise_if (not (is_chronological (block_timestamps block)))
      (value_error "block lifecycle timestamps must be chronological")
  raise_if
      (not (contains state (BlockState.draft ∷ BlockState.validating ∷ [])) && is_none sealed_at)
      (value_error "sealed_at is required after validation")
  raise_if
      (contains state (BlockState.committed ∷ BlockState.running ∷ BlockState.completed ∷ [])
        && is_none committed_at)
      (value_error "committed_at is required for committed blocks")
  raise_if (state == BlockState.completed && is_none completed_at)
      (value_error "completed_at is required for completed blocks")
  where
    open block use {
      block_id, lane_id, plan_revision, idempotency_key, job_ids, guarantee, dispatch_strategy,
      created_at, sealed_at, committed_at, completed_at, state,
    }

-- `QueueBlock(...)` and `replace(block, ...)`
unfoldable pub make_block : QueueBlock → Result QueueBlock
make_block block = do validate_block block; ok block
