-- ===== src/Planning.antt =====
-- domain/planning.py: due-date evaluation and the materialisation of a snapshot.
use mathlib.Core.Option
use ha_vacuum_planner.Base.{
  Bool, List, Option, Result, String, [], err, false, has_text, if◌then◌else◌, int_eq, is_empty,
  key_error, ltℤ, map_result, nat_eq, none, not, ok, planning_validation_error, raise_if, some,
  sort_by, str_append, string_eq, string_lt, value_error, ℤ, ◌&&◌, ◌++◌, ◌==◌, ◌>>=◌, ◌>>◌, ◌∷◌,
}
use ha_vacuum_planner.Models.{
  DateTime, Mode, PlanRevision, PlanSnapshot, PreferredMode, RoomPlan, SnapshotJob, Value, add_days,
  block_guarantee_eq, block_kind_eq, block_state_eq, compare_le, dispatch_strategy_eq, freeze_json,
  job_state_eq, lt_time, make_snapshot, make_snapshot_job, max_time, mode_eq, preferred_mode_eq,
  time_beq,
}

pub record AreaBinding : Type 0 where
  pub area_id : String
  pub area_name : String
  pub adapter_target : Value
  pub supports_vacuum_and_mop : Bool

-- `AreaBinding(...)`
unfoldable pub make_binding : AreaBinding → Result AreaBinding
make_binding binding = do
  raise_if (not (has_text binding.area_id)) (value_error "area_id must not be empty")
  raise_if (not (has_text binding.area_name)) (value_error "area_name must not be empty")
  target ← freeze_json binding.adapter_target
  ok (record binding { adapter_target = target })

-- `area_bindings.get(area_id)`
abbrev pub Bindings : Type 0
Bindings = String → Option AreaBinding

unfoldable pub due_at_of : Option DateTime → ℤ → DateTime → Result DateTime
due_at_of none interval_days now = ok now
due_at_of (some last) interval_days now = add_days last interval_days

unfoldable pub max_optional : Option DateTime → Option DateTime → Option DateTime
max_optional none second = second
max_optional (some a) none = some a
max_optional (some a) (some b) = some (max_time a b)

-- `... if plan.vacuum_and_mop_interval_days is not None else None`
unfoldable pub mop_due_of : RoomPlan → DateTime → Result (Option DateTime)
mop_due_of plan now = elim plan.vacuum_and_mop_interval_days [
  | none ↦ ok none
  | some days ↦ do t ← due_at_of plan.last_completed_vacuum_and_mop_at days now; ok (some t)
]

-- `(mode, due) if due <= now else None`
unfoldable pub due_by : Mode → DateTime → DateTime → Result (Option (Mode × DateTime))
due_by mode due now = do passed ← compare_le due now; ok (if passed then some (mode, due) else none)

unfoldable pub due_by? : Mode → Option DateTime → DateTime → Result (Option (Mode × DateTime))
due_by? mode none now = ok none
due_by? mode (some due) now = due_by mode due now

-- The last two lines of the source, by the preferred mode.
unfoldable pub choose_due :
    PreferredMode → DateTime → Option DateTime → DateTime → Result (Option (Mode × DateTime))
choose_due PreferredMode.vacuum vacuum_due mop_due now = due_by Mode.vacuum vacuum_due now
choose_due PreferredMode.vacuum_and_mop vacuum_due mop_due now =
    due_by? Mode.vacuum_and_mop mop_due now

unfoldable pub select_due : RoomPlan → DateTime → Result (Option (Mode × DateTime))
select_due plan now = do
  let effective_vacuum =
      max_optional plan.last_completed_vacuum_at plan.last_completed_vacuum_and_mop_at
  vacuum_due ← due_at_of effective_vacuum plan.vacuum_interval_days now
  mop_due ← mop_due_of plan now
  choose_due plan.preferred_mode vacuum_due mop_due now

pub record Candidate : Type 0 where
  pub plan : RoomPlan
  pub mode : Mode
  pub due_at : DateTime

-- `plan.skip_until is not None and plan.skip_until > evaluated_at`
unfoldable pub is_skipped : Option DateTime → DateTime → Result Bool
is_skipped none now = ok false
is_skipped (some t) now = do passed ← compare_le t now; ok (not passed)

-- the candidate that a room contributes, if any
unfoldable pub candidate_of : DateTime → RoomPlan → Result (Option Candidate)
candidate_of now plan = if not plan.enabled then ok none else (do
  skipped ← is_skipped plan.skip_until now
  selected ← if skipped then ok none else select_due plan now
  ok (Option.map (λ s. record { plan = plan; mode = s.0; due_at = s.1 }) selected))

-- what the loop appends to `errors` for a candidate
unfoldable pub binding_errors : Bindings → Candidate → List String
binding_errors bindings c = elim (bindings c.plan.area_id) [
  | none ↦ str_append c.plan.area_id ": missing area binding" ∷ []
  | some b ↦
      if not (b.area_id == c.plan.area_id)
      then str_append c.plan.area_id ": mismatched area binding" ∷ []
      else if c.mode == Mode.vacuum_and_mop && not b.supports_vacuum_and_mop
      then str_append c.plan.area_id ": vacuum_and_mop is not supported" ∷ []
      else []
]

-- the loop's two lists with what a room adds in front
abbrev pub found_with :
    Bindings → Option Candidate → List Candidate × List String → List Candidate × List String
found_with bindings none rest = rest
found_with bindings (some c) rest = (c ∷ rest.0, binding_errors bindings c ++ rest.1)

-- the loop over the rooms: the candidates and the errors, both in the order of the rooms
unfoldable pub evaluate_rooms :
    Bindings → DateTime → List RoomPlan → Result (List Candidate × List String)
evaluate_rooms bindings now [] = ok ([], [])
evaluate_rooms bindings now (p ∷ ps) = do
  found ← candidate_of now p
  rest ← evaluate_rooms bindings now ps
  ok (found_with bindings found rest)

-- `<` of the keys `(-priority, due_at, area_id)`
unfoldable pub candidate_lt : Candidate → Candidate → Bool
candidate_lt a b =
    if not (a.plan.priority == b.plan.priority)
    then ltℤ b.plan.priority a.plan.priority
    else if not (time_beq a.due_at b.due_at)
    then lt_time a.due_at b.due_at
    else string_lt a.plan.area_id b.plan.area_id

-- the job of a candidate; `area_bindings[...]` of a missing key is a `KeyError`
unfoldable pub snapshot_job_of : Bindings → Candidate → Result SnapshotJob
snapshot_job_of bindings c = elim (bindings c.plan.area_id) [
  | none ↦ err (key_error c.plan.area_id)
  | some b ↦ make_snapshot_job (record {
    area_id = c.plan.area_id;
    area_name_snapshot = b.area_name;
    adapter_target_snapshot = b.adapter_target;
    mode = c.mode;
    priority = c.plan.priority;
    due_at = c.due_at;
  })
]

-- the part behind the loop
unfoldable pub materialise :
    Bindings → PlanRevision → String → DateTime → List Candidate × List String → Result PlanSnapshot
materialise bindings revision lane_id now (candidates, errors) = do
  raise_if (not (is_empty errors)) (planning_validation_error errors)
  jobs ← map_result (snapshot_job_of bindings) (sort_by candidate_lt candidates)
  make_snapshot (record {
    plan_revision = revision.revision_id;
    lane_id = lane_id;
    evaluated_at = now;
    jobs = jobs;
  })

unfoldable pub build_due_snapshot : PlanRevision → Bindings → DateTime → Result PlanSnapshot
build_due_snapshot revision bindings evaluated_at = elim revision.room_plans [
  | [] ↦ err (planning_validation_error ("plan revision has no lane-bound room plans" ∷ []))
  | p ∷ ps ↦ do
    evaluated ← evaluate_rooms bindings evaluated_at (p ∷ ps)
    materialise bindings revision p.lane_id evaluated_at evaluated
]
