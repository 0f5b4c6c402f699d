-- ===== src/Models/Rooms.antt =====
-- `RoomPlan`, `PlanRevision`, `SnapshotJob`, `PlanSnapshot` and `PlannerState`.
use ha_vacuum_planner.Base.{
  Bool, List, Option, Result, String, [], any, false, has_duplicates, int_eq, is_none, length, leℤ,
  ltb, map, nat_eq, none, not, ok, pos, raise_if, some, string_eq, to_set, value_error, ℤ, ◌&&◌,
  ◌==◌, ◌>>=◌, ◌>>◌, ◌∷◌,
}
use ha_vacuum_planner.Models.Enums.{
  Mode, PreferredMode, block_guarantee_eq, block_kind_eq, block_state_eq, dispatch_strategy_eq,
  job_state_eq, mode_eq, preferred_mode_eq,
}
use ha_vacuum_planner.Models.Time.{DateTime}
use ha_vacuum_planner.Models.Json.{Value, freeze_json}
use ha_vacuum_planner.Models.Checks.{require_aware, require_text}
use ha_vacuum_planner.Models.Blocks.{QueueBlock}
use ha_vacuum_planner.Models.Ledgers.{QueueLedger}

pub record RoomPlan : Type 0 where
  pub area_id : String
  pub lane_id : String
  pub enabled : Bool
  pub vacuum_interval_days : ℤ
  pub vacuum_and_mop_interval_days : Option ℤ
  pub preferred_mode : PreferredMode
  pub priority : ℤ
  pub skip_until : Option DateTime
  pub last_completed_vacuum_at : Option DateTime
  pub last_completed_vacuum_and_mop_at : Option DateTime

abbrev pub not_positive? : Option ℤ → Bool
not_positive? none = false
not_positive? (some n) = leℤ n (pos 0)

-- `RoomPlan(...)` and `replace(room, ...)`
unfoldable pub make_room : RoomPlan → Result RoomPlan
make_room room = do
  require_text "area_id" room.area_id
  require_text "lane_id" room.lane_id
  raise_if (leℤ room.vacuum_interval_days (pos 0))
      (value_error "vacuum_interval_days must be positive")
  raise_if (not_positive? room.vacuum_and_mop_interval_days)
      (value_error "vacuum_and_mop_interval_days must be positive")
  require_aware "skip_until" room.skip_until
  require_aware "last_completed_vacuum_at" room.last_completed_vacuum_at
  require_aware "last_completed_vacuum_and_mop_at" room.last_completed_vacuum_and_mop_at
  raise_if
      (room.preferred_mode == PreferredMode.vacuum_and_mop
        && is_none room.vacuum_and_mop_interval_days)
      (value_error "vacuum_and_mop preferred mode requires its interval")
  ok room

pub record PlanRevision : Type 0 where
  pub revision_id : String
  pub created_at : DateTime
  pub room_plans : List RoomPlan

-- `PlanRevision(...)`
unfoldable pub make_revision : PlanRevision → Result PlanRevision
make_revision revision = do
  require_text "revision_id" revision.revision_id
  require_aware "created_at" (some revision.created_at)
  raise_if (has_duplicates (map (λ p. p.area_id) revision.room_plans))
      (value_error "duplicate area_id in plan revision")
  raise_if (ltb 1 (length (to_set (map (λ p. p.lane_id) revision.room_plans))))
      (value_error "all room plans in a revision must use the same lane")
  ok revision

pub record SnapshotJob : Type 0 where
  pub area_id : String
  pub area_name_snapshot : String
  pub adapter_target_snapshot : Value
  pub mode : Mode
  pub priority : ℤ
  pub due_at : DateTime

-- `SnapshotJob(...)`
unfoldable pub make_snapshot_job : SnapshotJob → Result SnapshotJob
make_snapshot_job job = do
  require_text "area_id" job.area_id
  require_text "area_name_snapshot" job.area_name_snapshot
  target ← freeze_json job.adapter_target_snapshot
  require_aware "due_at" (some job.due_at)
  ok (record job { adapter_target_snapshot = target })

pub record PlanSnapshot : Type 0 where
  pub plan_revision : String
  pub lane_id : String
  pub evaluated_at : DateTime
  pub jobs : List SnapshotJob

-- `PlanSnapshot(...)`
unfoldable pub make_snapshot : PlanSnapshot → Result PlanSnapshot
make_snapshot snapshot = do
  require_text "plan_revision" snapshot.plan_revision
  require_text "lane_id" snapshot.lane_id
  require_aware "evaluated_at" (some snapshot.evaluated_at)
  raise_if (has_duplicates (map (λ j. j.area_id) snapshot.jobs))
      (value_error "duplicate area_id in snapshot")
  ok snapshot

pub record PlannerState : Type 0 where
  pub plan_revision : PlanRevision
  pub ledger : QueueLedger

abbrev foreign_lane : List RoomPlan → List QueueBlock → Bool
foreign_lane [] blocks = false
foreign_lane (p ∷ ps) blocks = any (λ b. not (b.lane_id == p.lane_id)) blocks

-- `PlannerState(...)`
unfoldable pub make_state : PlannerState → Result PlannerState
make_state state = do
  raise_if (foreign_lane state.plan_revision.room_plans state.ledger.blocks)
      (value_error "plan lane does not match ledger lane")
  ok state
