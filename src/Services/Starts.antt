-- ===== src/Services/Starts.antt =====
-- __init__.py: `start_next`.
use ha_vacuum_planner.Base.{
  Bool, Error, List, Option, Result, String, [], err, false, find, if◌then◌else◌, int_eq, is_some,
  map_result, nat_eq, none, not, ok, planning_validation_error, some, str_append, string_eq,
  validation_error, ℕ, ◌&&◌, ◌==◌, ◌>>=◌, ◌∷◌,
}
use ha_vacuum_planner.Models.{
  BlockGuarantee, BlockState, DateTime, DispatchStrategy, Fields, PlannerState, QueueBlock,
  RoomPlan, SnapshotJob, Value, block_guarantee_eq, block_kind_eq, block_state_eq, cons,
  dispatch_strategy_eq, entry, job_state_eq, ledger_beq, list, make_snapshot, make_state, mode_eq,
  named, preferred_mode_eq, require_job, tuple,
}
use ha_vacuum_planner.Queue.{StartRequest, StartResult, existing, start_due_block}
use ha_vacuum_planner.Planning.{AreaBinding, Bindings, build_due_snapshot, make_binding}
use ha_vacuum_planner.Runtime.{VacuumPlannerRuntimeData}
use ha_vacuum_planner.Actions.{cancel_pending_block}
use ha_vacuum_planner.Home.{HomeAssistant}
use ha_vacuum_planner.Topology.{all_segments, area_mapping}
use ha_vacuum_planner.Dispatch.{World, resolve_command_cleaning_mode}

-- a sealed block with this strategy
abbrev pub is_sealed_for : DispatchStrategy → QueueBlock → Bool
is_sealed_for strategy b = b.state == BlockState.sealed && b.dispatch_strategy == strategy

-- what the command decides
pub data StartDecision : Type 0 where
  dry_run_cancelled : PlannerState → StartDecision
  start_made : StartResult → PlannerState → StartDecision

abbrev pub decided_state : StartDecision → PlannerState
decided_state (dry_run_cancelled state) = state
decided_state (start_made result state) = state

-- the binding of one planned area, from the vacuum's mapping and the area's name
abbrev pub unmapped : String → Error
unmapped area =
    validation_error (str_append "Area " (str_append area " has no valid vacuum mapping"))

-- the binding of an area with these segments
abbrev pub segments_binding : String → String → Bool → Option Value → Result AreaBinding
segments_binding area name supports (some (list (cons v items))) =
    if all_segments (cons v items)
    then make_binding (record {
      area_id = area;
      area_name = name;
      adapter_target = tuple (cons v items);
      supports_vacuum_and_mop = supports;
    })
    else err (unmapped area)
segments_binding area name supports _ = err (unmapped area)

unfoldable pub binding_of : HomeAssistant → Fields → Bool → RoomPlan → Result AreaBinding
binding_of hass mapping supports plan = elim (hass.areas plan.area_id) [
  | none ↦ err (unmapped plan.area_id)
  | some name ↦ segments_binding plan.area_id name supports (entry (named plan.area_id) mapping)
]

-- the dictionary of the bindings, by their areas
unfoldable pub by_area : List AreaBinding → Bindings
by_area [] area = none
by_area (b ∷ bs) area =
    let rest = by_area bs area in
    elim rest [ some c ↦ some c | none ↦ if b.area_id == area then some b else none ]

-- the registry entry of the vacuum, by its registry identity if it has one: `a or b`
abbrev pub vacuum_key : VacuumPlannerRuntimeData → String
vacuum_key r = elim r.vacuum_registry_id [
  | none ↦ r.vacuum_entity_id
  | some id ↦ if id == "" then r.vacuum_entity_id else id
]

abbrev pub bind_areas :
    {S : Type 0}
    → HomeAssistant
    → Fields
    → List RoomPlan
    → World S × Result (Option String)
    → World S × Result Bindings
bind_areas hass mapping plans (w, err e) = (w, err e)
bind_areas hass mapping plans (w, ok selector) = (
  w,
  do bound ← map_result (binding_of hass mapping (is_some selector)) plans; ok (by_area bound),
)

abbrev pub bind_mapped :
    {S : Type 0} → HomeAssistant → World S → Option Fields → World S × Result Bindings
bind_mapped hass w none =
    (w, err (validation_error "Configured vacuum has no Home Assistant area mapping"))
bind_mapped hass w (some mapping) =
    if w.runtime.has_coordinator
    then bind_areas hass mapping w.coordinator.state.plan_revision.room_plans
        (resolve_command_cleaning_mode hass w)
    else (w, err (validation_error "Vacuum Planner state is unavailable"))

-- `_resolve_area_bindings`
unfoldable pub resolve_area_bindings :
    {S : Type 0} → HomeAssistant → World S → World S × Result Bindings
resolve_area_bindings hass w = elim (hass.entities (vacuum_key w.runtime)) [
  | none ↦ (w, err (validation_error "Configured vacuum entity is no longer registered"))
  | some e ↦ bind_mapped hass w (area_mapping e)
]

-- what `start_next` is given beside the runtime: the call's key, the time, `uuid4`, and the printed date
pub record StartCall : Type 0 where
  pub idempotency_key : Option String
  pub evaluated_at : DateTime
  pub new_ids : ℕ → String
  pub iso_date : DateTime → String

abbrev pub start_key : StartCall → PlannerState → String
start_key call state = elim call.idempotency_key [
  | some key ↦ key
  | none ↦ str_append "start_next:" (
      str_append state.plan_revision.revision_id (str_append ":" (call.iso_date call.evaluated_at)))
]

-- `due_snapshot.jobs[:1]`
abbrev pub first_job : List SnapshotJob → List SnapshotJob
first_job [] = []
first_job (j ∷ js) = j ∷ []

-- `"; ".join(errors)`
unfoldable pub join_errors : List String → String
join_errors [] = ""
join_errors (e ∷ []) = e
join_errors (e ∷ f ∷ es) = str_append e (str_append "; " (join_errors (f ∷ es)))

-- `except PlanningValidationError as err`
abbrev pub as_planning : {A : Type 0} → Result A → Result A
as_planning (err (planning_validation_error errors)) = err (validation_error (join_errors errors))
as_planning r = r

abbrev pub start_request : Bool → StartCall → PlannerState → String → StartRequest
start_request dry_run call state lane = record {
  lane_id = lane;
  idempotency_key = start_key call state;
  now = call.evaluated_at;
  dispatch_strategy =
      if dry_run then DispatchStrategy.planner_sequential else DispatchStrategy.native_batch;
  guarantee = BlockGuarantee.planner_atomic;
  atomic_device_commit = false;
  expected_revision = none;
}

-- the part of the command behind the bindings
unfoldable pub start_due : StartCall → Bool → PlannerState → Bindings → Result StartDecision
start_due call dry_run state bindings = do
  due ← as_planning (build_due_snapshot state.plan_revision bindings call.evaluated_at)
  snapshot ← make_snapshot (record due { jobs = first_job due.jobs })
  result ←
      start_due_block state.ledger snapshot (start_request dry_run call state snapshot.lane_id)
        call.new_ids
  updated ←
      if ledger_beq result.ledger state.ledger
      then ok state
      else make_state (record state { ledger = result.ledger })
  ok (start_made result updated)

-- a sealed block that was not sent: `jobs_by_id[job_id] for job_id in recovery_block.job_ids`
unfoldable pub recover_block : PlannerState → QueueBlock → Result StartDecision
recover_block state block = do
  jobs ← map_result (require_job state.ledger.jobs) block.job_ids
  ok (
      start_made
        (record { status = existing; ledger = state.ledger; block = some block; jobs = jobs })
        state)

abbrev pub cancel_dry_run : StartCall → PlannerState → String → Result StartDecision
cancel_dry_run call state id = do
  updated ← cancel_pending_block state id call.evaluated_at
  ok (dry_run_cancelled updated)

abbrev pub start_fresh :
    {S : Type 0}
    → StartCall
    → Bool
    → PlannerState
    → World S × Result Bindings
    → World S × Result StartDecision
start_fresh call dry_run state (v, err e) = (v, err e)
start_fresh call dry_run state (v, ok bindings) = (v, start_due call dry_run state bindings)

-- what follows from a block that was found, or what does without
abbrev pub block_or : {X : Type 0} → Option QueueBlock → (QueueBlock → X) → X → X
block_or none found other = other
block_or (some block) found other = found block

-- `command`, with the runtime behind it, which a lost selector latches
unfoldable pub start_command :
    {S : Type 0} → HomeAssistant → StartCall → World S → World S × Result StartDecision
start_command hass call w =
    let state = w.coordinator.state in
    let fresh = start_fresh call w.runtime.dry_run state (resolve_area_bindings hass w) in
    let live =
      block_or (find (is_sealed_for DispatchStrategy.native_batch) state.ledger.blocks)
        (λ block. (w, recover_block state block)) fresh in
    let checked =
      block_or (find (is_sealed_for DispatchStrategy.planner_sequential) state.ledger.blocks)
        (λ block. (w, cancel_dry_run call state block.block_id)) live in
    if not w.runtime.planning_enabled
    then (w, err (validation_error "Vacuum Planner is paused"))
    else if w.runtime.dry_run
    then fresh
    else checked
