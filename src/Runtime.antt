-- ===== src/Runtime.antt =====
-- const.py: `VacuumPlannerRuntimeData` and the generations that refuse detached work. A callback is the
-- outcome of its call; a generation is counted from 0.
use ha_vacuum_planner.Base.{
  Bool, Error, List, Option, Result, String, [], err, exception_group, false, if◌then◌else◌, int_eq,
  nat_eq, none, not, ok, raise_if, runtime_error, runtime_inactive_error, some, string_eq,
  topology_not_ready_error, true, ℕ, ◌+◌, ◌==◌, ◌>>◌, ◌||◌, ◌∷◌,
}
use ha_vacuum_planner.Models.{
  PlannerState, block_guarantee_eq, block_kind_eq, block_state_eq, dispatch_strategy_eq,
  job_state_eq, mode_eq, preferred_mode_eq,
}
use ha_vacuum_planner.Coordinator.{PlannerCoordinator, ProjectionOutcome, async_update_projection}

abbrev pub Callback : Type 0
Callback = Result (Unit {0})

pub record VacuumPlannerRuntimeData : Type 0 where
  pub vacuum_entity_id : String
  pub planning_enabled : Bool
  pub dry_run : Bool
  -- whether `coordinator` is set; the coordinator itself stands beside the runtime
  pub has_coordinator : Bool
  pub area_names : List (String × String)
  pub configured_area_ids : List String
  pub capability_tier : String
  pub topology_ready : Bool
  pub vacuum_registry_id : Option String
  pub cleaning_mode_entity_id : Option String
  pub cleaning_mode_registry_id : Option String
  pub requires_vacuum_and_mop : Bool
  pub config_entry_id : Option String
  pub observer_unsubscribe : Option Callback
  pub repair_unsubscribe : Option Callback
  -- whether a callback for a lost topology is set
  pub topology_failure_callback : Bool
  pub observation_generation : ℕ
  pub observation_active : Bool
  pub command_generation : ℕ
  pub command_active : Bool

-- the property `state`
abbrev pub runtime_state : VacuumPlannerRuntimeData → PlannerCoordinator → Option PlannerState
runtime_state r c = if r.has_coordinator then some c.state else none

abbrev pub inactive : Error
inactive = runtime_inactive_error "Vacuum Planner runtime is no longer active"

abbrev pub not_ready : Error
not_ready =
    topology_not_ready_error
      "Vacuum Planner topology is not ready; repair the reported issue and reload the config entry"

unfoldable pub capture_command_generation : VacuumPlannerRuntimeData → Result ℕ
capture_command_generation r = do
  raise_if (not r.command_active) inactive
  raise_if (not r.topology_ready) not_ready
  ok r.command_generation

unfoldable pub require_runtime_generation : VacuumPlannerRuntimeData → ℕ → Result (Unit {0})
require_runtime_generation r generation =
    raise_if (not r.command_active || not (r.command_generation == generation)) inactive

unfoldable pub require_command_generation : VacuumPlannerRuntimeData → ℕ → Result (Unit {0})
require_command_generation r generation = do
  require_runtime_generation r generation
  raise_if (not r.topology_ready) not_ready

unfoldable pub invalidate_observations : VacuumPlannerRuntimeData → VacuumPlannerRuntimeData
invalidate_observations r = record r {
  observation_generation =
      if r.observation_active then r.observation_generation + 1 else r.observation_generation;
  observation_active = false;
}

unfoldable pub invalidate_commands : VacuumPlannerRuntimeData → VacuumPlannerRuntimeData
invalidate_commands r = record r {
  command_generation = if r.command_active then r.command_generation + 1 else r.command_generation;
  command_active = false;
}

unfoldable pub activate_commands : VacuumPlannerRuntimeData → VacuumPlannerRuntimeData
activate_commands r = record r {
  command_generation = r.command_generation + 1;
  command_active = true;
}

-- the errors of the callbacks that are set
abbrev pub cleanup_errors : List (Option Callback) → List Error
cleanup_errors [] = []
cleanup_errors (some (err e) ∷ callbacks) = e ∷ cleanup_errors callbacks
cleanup_errors (_ ∷ callbacks) = cleanup_errors callbacks

-- what `shutdown_runtime` raises behind both calls
abbrev pub raise_cleanup : List Error → Result (Unit {0})
raise_cleanup [] = ok tt
raise_cleanup (e ∷ []) = err e
raise_cleanup (e ∷ f ∷ _) = err (exception_group "Vacuum Planner runtime cleanup failed" e f)

-- the runtime behind it, and what it raises
unfoldable pub shutdown_runtime :
    VacuumPlannerRuntimeData → VacuumPlannerRuntimeData × Result (Unit {0})
shutdown_runtime r = (
  record (invalidate_observations (invalidate_commands r)) {
    topology_failure_callback = false;
    observer_unsubscribe = none;
    repair_unsubscribe = none;
  },
  raise_cleanup (cleanup_errors (r.observer_unsubscribe ∷ r.repair_unsubscribe ∷ [])),
)

-- `commit` and `rollback` write the options of the config entry: each leaves the options and an outcome,
-- and an argument that is left out does nothing.
module _ {S : Type 0} (commit rollback : S → S × Result (Unit {0})) where
  -- `rollback` behind a failed `commit`, which raised `e`
  unfoldable pub roll_back :
      Error
      → VacuumPlannerRuntimeData
      → S × Result (Unit {0})
      → (VacuumPlannerRuntimeData × S) × Result (Unit {0})
  roll_back e r (s, ok u) = ((r, s), err e)
  roll_back e r (s, err f) = (
    (record r { planning_enabled = false }, s),
    err (runtime_error "Planning option update and rollback failed; planner is fail-closed"),
  )

  -- `update`, the nested function
  unfoldable pub update_planning :
      Bool
      → VacuumPlannerRuntimeData
      → S × Result (Unit {0})
      → (VacuumPlannerRuntimeData × S) × Result (Unit {0})
  update_planning enabled r (s, ok u) = ((record r { planning_enabled = enabled }, s), ok tt)
  update_planning enabled r (s, err e) = roll_back e r (rollback s)

  -- The part behind the lock: `r` is the runtime that the command finds there, and `generation` the one
  -- captured before.
  unfoldable pub apply_planning_enabled :
      Bool
      → ℕ
      → PlannerCoordinator
      → VacuumPlannerRuntimeData
      → S
      → ProjectionOutcome (VacuumPlannerRuntimeData × S)
  apply_planning_enabled enabled generation c r s =
      async_update_projection (λ n. require_command_generation r generation)
        (λ p. update_planning enabled p.0 (commit p.1)) c (r, s)

  -- the part in front of the lock
  unfoldable pub request_planning_enabled : VacuumPlannerRuntimeData → Result ℕ
  request_planning_enabled r = do
    raise_if (not r.has_coordinator) (runtime_error "Vacuum Planner state is unavailable")
    capture_command_generation r
