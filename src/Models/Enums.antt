-- ===== src/Models/Enums.antt =====
-- The enumerations of domain/models.py. Two of them may share a member's name, which is then written
-- behind its type.
use ha_vacuum_planner.Base.{Eq, String, refl, suc, tag_beq, tag_beq_iff, zero, ℕ, ◌≡◌}

pub data Mode : Type 0 where
  vacuum vacuum_and_mop : Mode

abbrev mode_tag : Mode → ℕ
mode_tag Mode.vacuum = 0
mode_tag Mode.vacuum_and_mop = 1

abbrev mode_member : ℕ → Mode
mode_member zero = Mode.vacuum
mode_member _ = Mode.vacuum_and_mop

pub mode_member-tag : (a : Mode) → mode_member (mode_tag a) ≡ a
mode_member-tag Mode.vacuum = refl
mode_member-tag Mode.vacuum_and_mop = refl

instance abbrev pub mode_eq : Eq Mode
mode_eq = record {
  beq = tag_beq mode_tag;
  beq_iff = tag_beq_iff mode_tag mode_member mode_member-tag;
}

pub data PreferredMode : Type 0 where
  vacuum vacuum_and_mop : PreferredMode

abbrev preferred_mode_tag : PreferredMode → ℕ
preferred_mode_tag PreferredMode.vacuum = 0
preferred_mode_tag PreferredMode.vacuum_and_mop = 1

abbrev preferred_mode_member : ℕ → PreferredMode
preferred_mode_member zero = PreferredMode.vacuum
preferred_mode_member _ = PreferredMode.vacuum_and_mop

pub preferred_mode_member-tag :
    (a : PreferredMode) → preferred_mode_member (preferred_mode_tag a) ≡ a
preferred_mode_member-tag PreferredMode.vacuum = refl
preferred_mode_member-tag PreferredMode.vacuum_and_mop = refl

instance abbrev pub preferred_mode_eq : Eq PreferredMode
preferred_mode_eq = record {
  beq = tag_beq preferred_mode_tag;
  beq_iff = tag_beq_iff preferred_mode_tag preferred_mode_member preferred_mode_member-tag;
}

pub data BlockKind : Type 0 where
  scheduled : BlockKind

abbrev block_kind_tag : BlockKind → ℕ
block_kind_tag BlockKind.scheduled = 0

abbrev block_kind_member : ℕ → BlockKind
block_kind_member _ = BlockKind.scheduled

pub block_kind_member-tag : (a : BlockKind) → block_kind_member (block_kind_tag a) ≡ a
block_kind_member-tag BlockKind.scheduled = refl

instance abbrev pub block_kind_eq : Eq BlockKind
block_kind_eq = record {
  beq = tag_beq block_kind_tag;
  beq_iff = tag_beq_iff block_kind_tag block_kind_member block_kind_member-tag;
}

pub data DispatchStrategy : Type 0 where
  native_batch planner_sequential device_queue : DispatchStrategy

abbrev dispatch_strategy_tag : DispatchStrategy → ℕ
dispatch_strategy_tag DispatchStrategy.native_batch = 0
dispatch_strategy_tag DispatchStrategy.planner_sequential = 1
dispatch_strategy_tag DispatchStrategy.device_queue = 2

abbrev dispatch_strategy_member : ℕ → DispatchStrategy
dispatch_strategy_member zero = DispatchStrategy.native_batch
dispatch_strategy_member (suc zero) = DispatchStrategy.planner_sequential
dispatch_strategy_member _ = DispatchStrategy.device_queue

pub dispatch_strategy_member-tag :
    (a : DispatchStrategy) → dispatch_strategy_member (dispatch_strategy_tag a) ≡ a
dispatch_strategy_member-tag DispatchStrategy.native_batch = refl
dispatch_strategy_member-tag DispatchStrategy.planner_sequential = refl
dispatch_strategy_member-tag DispatchStrategy.device_queue = refl

instance abbrev pub dispatch_strategy_eq : Eq DispatchStrategy
dispatch_strategy_eq = record {
  beq = tag_beq dispatch_strategy_tag;
  beq_iff = tag_beq_iff dispatch_strategy_tag dispatch_strategy_member dispatch_strategy_member-tag;
}

pub data BlockGuarantee : Type 0 where
  planner_atomic robot_atomic : BlockGuarantee

abbrev block_guarantee_tag : BlockGuarantee → ℕ
block_guarantee_tag BlockGuarantee.planner_atomic = 0
block_guarantee_tag BlockGuarantee.robot_atomic = 1

abbrev block_guarantee_member : ℕ → BlockGuarantee
block_guarantee_member zero = BlockGuarantee.planner_atomic
block_guarantee_member _ = BlockGuarantee.robot_atomic

pub block_guarantee_member-tag :
    (a : BlockGuarantee) → block_guarantee_member (block_guarantee_tag a) ≡ a
block_guarantee_member-tag BlockGuarantee.planner_atomic = refl
block_guarantee_member-tag BlockGuarantee.robot_atomic = refl

instance abbrev pub block_guarantee_eq : Eq BlockGuarantee
block_guarantee_eq = record {
  beq = tag_beq block_guarantee_tag;
  beq_iff = tag_beq_iff block_guarantee_tag block_guarantee_member block_guarantee_member-tag;
}

pub data BlockState : Type 0 where
  draft validating sealed committing committed running completed rejected cancelled failed uncertain
        partial :
      BlockState

abbrev block_state_tag : BlockState → ℕ
block_state_tag BlockState.draft = 0
block_state_tag BlockState.validating = 1
block_state_tag BlockState.sealed = 2
block_state_tag BlockState.committing = 3
block_state_tag BlockState.committed = 4
block_state_tag BlockState.running = 5
block_state_tag BlockState.completed = 6
block_state_tag BlockState.rejected = 7
block_state_tag BlockState.cancelled = 8
block_state_tag BlockState.failed = 9
block_state_tag BlockState.uncertain = 10
block_state_tag BlockState.partial = 11

abbrev block_state_member : ℕ → BlockState
block_state_member zero = BlockState.draft
block_state_member (suc zero) = BlockState.validating
block_state_member (suc (suc zero)) = BlockState.sealed
block_state_member (suc (suc (suc zero))) = BlockState.committing
block_state_member (suc (suc (suc (suc zero)))) = BlockState.committed
block_state_member (suc (suc (suc (suc (suc zero))))) = BlockState.running
block_state_member (suc (suc (suc (suc (suc (suc zero)))))) = BlockState.completed
block_state_member (suc (suc (suc (suc (suc (suc (suc zero))))))) = BlockState.rejected
block_state_member (suc (suc (suc (suc (suc (suc (suc (suc zero)))))))) = BlockState.cancelled
block_state_member (suc (suc (suc (suc (suc (suc (suc (suc (suc zero))))))))) = BlockState.failed
block_state_member (suc (suc (suc (suc (suc (suc (suc (suc (suc (suc zero)))))))))) =
    BlockState.uncertain
block_state_member _ = BlockState.partial

pub block_state_member-tag : (a : BlockState) → block_state_member (block_state_tag a) ≡ a
block_state_member-tag BlockState.draft = refl
block_state_member-tag BlockState.validating = refl
block_state_member-tag BlockState.sealed = refl
block_state_member-tag BlockState.committing = refl
block_state_member-tag BlockState.committed = refl
block_state_member-tag BlockState.running = refl
block_state_member-tag BlockState.completed = refl
block_state_member-tag BlockState.rejected = refl
block_state_member-tag BlockState.cancelled = refl
block_state_member-tag BlockState.failed = refl
block_state_member-tag BlockState.uncertain = refl
block_state_member-tag BlockState.partial = refl

instance abbrev pub block_state_eq : Eq BlockState
block_state_eq = record {
  beq = tag_beq block_state_tag;
  beq_iff = tag_beq_iff block_state_tag block_state_member block_state_member-tag;
}

pub data JobState : Type 0 where
  pending dispatching accepted running completed failed uncertain skipped cancelled : JobState

abbrev job_state_tag : JobState → ℕ
job_state_tag JobState.pending = 0
job_state_tag JobState.dispatching = 1
job_state_tag JobState.accepted = 2
job_state_tag JobState.running = 3
job_state_tag JobState.completed = 4
job_state_tag JobState.failed = 5
job_state_tag JobState.uncertain = 6
job_state_tag JobState.skipped = 7
job_state_tag JobState.cancelled = 8

abbrev job_state_member : ℕ → JobState
job_state_member zero = JobState.pending
job_state_member (suc zero) = JobState.dispatching
job_state_member (suc (suc zero)) = JobState.accepted
job_state_member (suc (suc (suc zero))) = JobState.running
job_state_member (suc (suc (suc (suc zero)))) = JobState.completed
job_state_member (suc (suc (suc (suc (suc zero))))) = JobState.failed
job_state_member (suc (suc (suc (suc (suc (suc zero)))))) = JobState.uncertain
job_state_member (suc (suc (suc (suc (suc (suc (suc zero))))))) = JobState.skipped
job_state_member _ = JobState.cancelled

pub job_state_member-tag : (a : JobState) → job_state_member (job_state_tag a) ≡ a
job_state_member-tag JobState.pending = refl
job_state_member-tag JobState.dispatching = refl
job_state_member-tag JobState.accepted = refl
job_state_member-tag JobState.running = refl
job_state_member-tag JobState.completed = refl
job_state_member-tag JobState.failed = refl
job_state_member-tag JobState.uncertain = refl
job_state_member-tag JobState.skipped = refl
job_state_member-tag JobState.cancelled = refl

instance abbrev pub job_state_eq : Eq JobState
job_state_eq = record {
  beq = tag_beq job_state_tag;
  beq_iff = tag_beq_iff job_state_tag job_state_member job_state_member-tag;
}

-- The `.value` of each member.
unfoldable pub mode_value : Mode → String
mode_value Mode.vacuum = "vacuum"
mode_value Mode.vacuum_and_mop = "vacuum_and_mop"

unfoldable pub preferred_mode_value : PreferredMode → String
preferred_mode_value PreferredMode.vacuum = "vacuum"
preferred_mode_value PreferredMode.vacuum_and_mop = "vacuum_and_mop"

unfoldable pub block_kind_value : BlockKind → String
block_kind_value BlockKind.scheduled = "scheduled"

unfoldable pub dispatch_strategy_value : DispatchStrategy → String
dispatch_strategy_value DispatchStrategy.native_batch = "native_batch"
dispatch_strategy_value DispatchStrategy.planner_sequential = "planner_sequential"
dispatch_strategy_value DispatchStrategy.device_queue = "device_queue"

unfoldable pub block_guarantee_value : BlockGuarantee → String
block_guarantee_value BlockGuarantee.planner_atomic = "planner_atomic"
block_guarantee_value BlockGuarantee.robot_atomic = "robot_atomic"

unfoldable pub block_state_value : BlockState → String
block_state_value BlockState.draft = "draft"
block_state_value BlockState.validating = "validating"
block_state_value BlockState.sealed = "sealed"
block_state_value BlockState.committing = "committing"
block_state_value BlockState.committed = "committed"
block_state_value BlockState.running = "running"
block_state_value BlockState.completed = "completed"
block_state_value BlockState.rejected = "rejected"
block_state_value BlockState.cancelled = "cancelled"
block_state_value BlockState.failed = "failed"
block_state_value BlockState.uncertain = "uncertain"
block_state_value BlockState.partial = "partial"

unfoldable pub job_state_value : JobState → String
job_state_value JobState.pending = "pending"
job_state_value JobState.dispatching = "dispatching"
job_state_value JobState.accepted = "accepted"
job_state_value JobState.running = "running"
job_state_value JobState.completed = "completed"
job_state_value JobState.failed = "failed"
job_state_value JobState.uncertain = "uncertain"
job_state_value JobState.skipped = "skipped"
job_state_value JobState.cancelled = "cancelled"
