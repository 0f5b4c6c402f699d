-- ===== src/Entities/Projections.antt =====
-- entity.py: the projections of the runtime that the entities show. `is_printable` stands for
-- `str.isprintable`, of a code point, and a name is its code points.
use ha_vacuum_planner.Base.{
  Bool, List, Option, Result, String, [], any, code_points, contains, drop_last_spaces, drop_spaces,
  err, false, find, if◌then◌else◌, int_eq, is_some, length, ltb, map, map_result, nat_eq, none, not,
  ok, planning_validation_error, pos, select, some, string_eq, suc, zero, ℕ, ℤ, ◌&&◌, ◌++◌, ◌==◌,
  ◌>>=◌, ◌||◌, ◌∷◌,
}
use ha_vacuum_planner.Models.{
  BlockState, DateTime, Mode, PlanSnapshot, PlannerState, QueueJob, RoomPlan, SnapshotJob,
  block_guarantee_eq, block_kind_eq, block_state_eq, dispatch_strategy_eq, is_terminal_block,
  is_terminal_job, job_state_eq, job_state_value, mode_eq, mode_value, nil, preferred_mode_eq,
  tuple,
}
use ha_vacuum_planner.Planning.{AreaBinding, build_due_snapshot, make_binding}
use ha_vacuum_planner.Runtime.{VacuumPlannerRuntimeData}
use ha_vacuum_planner.Services.{by_area}

pub record QueueProjectionItem : Type 0 where
  pub area_name : List ℕ
  pub mode : String
  pub position : ℤ
  pub status : String

pub record QueueProjection : Type 0 where
  pub items : List QueueProjectionItem
  pub projected_count : ℕ
  pub revision : ℤ
  pub total_count : ℕ
  pub truncated : Bool

abbrev pub max_queue_projection_items : ℕ
max_queue_projection_items = 20

abbrev pub max_queue_area_name_length : ℕ
max_queue_area_name_length = 80

-- `xs[:n]`
unfoldable pub take : {A : Type 0} → ℕ → List A → List A
take zero xs = []
take (suc n) [] = []
take (suc n) (x ∷ xs) = x ∷ take n xs

-- `reversed(xs)`, in front of the list that is built already
unfoldable pub reverse_onto : {A : Type 0} → List A → List A → List A
reverse_onto [] ys = ys
reverse_onto (x ∷ xs) ys = reverse_onto xs (x ∷ ys)

abbrev pub reversed : {A : Type 0} → List A → List A
reversed xs = reverse_onto xs []

-- `name or "—"`
abbrev pub or_dash : List ℕ → List ℕ
or_dash [] = 8212 ∷ []
or_dash (c ∷ cs) = c ∷ cs

unfoldable pub safe_area_name : (ℕ → Bool) → String → List ℕ
safe_area_name is_printable name = or_dash (
    take max_queue_area_name_length
      (drop_last_spaces (drop_spaces (select is_printable (code_points name)))))

unfoldable pub projection_item : (ℕ → Bool) → QueueJob → QueueProjectionItem
projection_item is_printable j = record {
  area_name = safe_area_name is_printable j.area_name_snapshot;
  mode = mode_value j.mode;
  position = j.position;
  status = job_state_value j.state;
}

-- the jobs that are not terminal, and behind them the terminal ones from the last on
abbrev pub projected_jobs : List QueueJob → List QueueJob
projected_jobs jobs =
    select (λ j. not (is_terminal_job j)) jobs ++ select is_terminal_job (reversed jobs)

unfoldable pub queue_projection : (ℕ → Bool) → Option PlannerState → QueueProjection
queue_projection is_printable none = record {
  items = [];
  projected_count = 0;
  revision = pos 0;
  total_count = 0;
  truncated = false;
}
queue_projection is_printable (some s) =
    let items =
      map (projection_item is_printable)
        (take max_queue_projection_items (projected_jobs s.ledger.jobs)) in
    record {
      items = items;
      projected_count = length items;
      revision = s.ledger.revision;
      total_count = length s.ledger.jobs;
      truncated = ltb (length items) (length s.ledger.jobs);
    }

-- `any(block.state in states for block in state.ledger.blocks)`, of a state that may be missing
abbrev pub has_block_in : List BlockState → Option PlannerState → Bool
has_block_in states none = false
has_block_in states (some s) = any (λ b. contains b.state states) s.ledger.blocks

pub data PlannerStatus : Type 0 where
  idle_status attention paused committing_status running_status ready : PlannerStatus

abbrev pub attention_states : List BlockState
attention_states = BlockState.rejected ∷ BlockState.uncertain ∷ []

unfoldable pub planner_status : VacuumPlannerRuntimeData → Option PlannerState → PlannerStatus
planner_status r state =
    if not r.topology_ready
    then attention
    else if not r.planning_enabled
    then paused
    else if has_block_in attention_states state
    then attention
    else if has_block_in (BlockState.committing ∷ []) state
    then committing_status
    else if has_block_in (BlockState.committed ∷ BlockState.running ∷ []) state
    then running_status
    else if has_block_in (BlockState.sealed ∷ []) state
    then ready
    else idle_status

unfoldable pub pending_count : Option PlannerState → ℕ
pending_count none = 0
pending_count (some s) = length (select (λ j. not (is_terminal_job j)) s.ledger.jobs)

-- the state of the last block that is not terminal; `idle` without one
unfoldable pub current_phase : Option PlannerState → Option BlockState
current_phase none = none
current_phase (some s) = elim (find (λ b. not (is_terminal_block b)) (reversed s.ledger.blocks)) [
  | none ↦ none
  | some b ↦ some b.state
]

unfoldable pub attention_required : VacuumPlannerRuntimeData → Option PlannerState → Bool
attention_required r state = not r.topology_ready || has_block_in attention_states state

unfoldable pub planner_ready : VacuumPlannerRuntimeData → Option PlannerState → Bool
planner_ready r state = r.planning_enabled && is_some state && not (attention_required r state)

pub data NextAction : Type 0 where
  blocked : NextAction
  due_area : String → String → Mode → DateTime → NextAction

-- `names.get(area, area)`
abbrev pub name_of : List (String × String) → String → String
name_of [] area = area
name_of ((a, name) ∷ names) area = let rest = name_of names area in if a == area then name else rest

unfoldable pub plain_binding : List (String × String) → RoomPlan → Result AreaBinding
plain_binding names plan = make_binding (record {
  area_id = plan.area_id;
  area_name = name_of names plan.area_id;
  adapter_target = tuple nil;
  supports_vacuum_and_mop = is_some plan.vacuum_and_mop_interval_days;
})

abbrev pub first_action : List SnapshotJob → Option NextAction
first_action [] = none
first_action (j ∷ js) = some (due_area j.area_id j.area_name_snapshot j.mode j.due_at)

-- `except PlanningValidationError: return None`
abbrev pub action_or_none : Result PlanSnapshot → Result (Option NextAction)
action_or_none (err (planning_validation_error errors)) = ok none
action_or_none (err e) = err e
action_or_none (ok snapshot) = ok (first_action snapshot.jobs)

abbrev pub due_action :
    VacuumPlannerRuntimeData → PlannerState → DateTime → Result (Option NextAction)
due_action r s now = do
  bound ← map_result (plain_binding r.area_names) s.plan_revision.room_plans
  action_or_none (build_due_snapshot s.plan_revision (by_area bound) now)

unfoldable pub next_action :
    VacuumPlannerRuntimeData → Option PlannerState → DateTime → Result (Option NextAction)
next_action r none now = ok (if r.topology_ready then none else some blocked)
next_action r (some s) now =
    if not r.topology_ready
    then ok (some blocked)
    else if r.planning_enabled
    then due_action r s now
    else ok none
