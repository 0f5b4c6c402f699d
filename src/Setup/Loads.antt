-- ===== src/Setup/Loads.antt =====
-- __init__.py: `_async_load_planner_state`, and the runtime of a setup.
use ha_vacuum_planner.Base.{
  Bool, List, Option, Result, String, any, err, false, if◌then◌else◌, int_eq, list_beq, nat_eq,
  none, not, ok, some, string_eq, true, ◌&&◌, ◌==◌, ◌>>=◌, ◌>>◌, ◌||◌,
}
use ha_vacuum_planner.Models.{
  BlockState, DateTime, JobState, PlannerState, block_beq, block_guarantee_eq, block_kind_eq,
  block_state_eq, dispatch_strategy_eq, job_beq, job_state_eq, make_state, mode_eq,
  preferred_mode_eq,
}
use ha_vacuum_planner.Queue.{quarantine_ambiguous_dispatches}
use ha_vacuum_planner.Runtime.{
  VacuumPlannerRuntimeData, activate_commands, invalidate_commands, shutdown_runtime,
}
use ha_vacuum_planner.Topology.{
  IssueCondition, lost_capability, missing_mapping, missing_registry, removed_areas,
}
use ha_vacuum_planner.Codec.{IsoFormat}
use ha_vacuum_planner.Storage.{Backend, async_load, async_save}
use ha_vacuum_planner.Setup.Plans.{ConfigEntry, initial_planner_state, or_value}

module _ {S : Type 0} (backend : Backend S) (iso : IsoFormat) (e : ConfigEntry) (new_id : String)
    (now : DateTime) where
  -- without a stored state: the initial one is stored
  unfoldable pub initialize_state : S → Result (PlannerState × S)
  initialize_state s = do
    state ← initial_planner_state e new_id now
    next ← async_save backend iso state s
    ok (state, next)

  -- with a stored one: what the recovery has changed is stored
  unfoldable pub recover_state : PlannerState → S → Result (PlannerState × S)
  recover_state state s = do
    recovered ← quarantine_ambiguous_dispatches state.ledger now
    let change = do
      updated ← make_state (record state { ledger = recovered })
      next ← async_save backend iso updated s
      ok (updated, next)
    if list_beq block_beq recovered.blocks state.ledger.blocks
          && list_beq job_beq recovered.jobs state.ledger.jobs
        then ok (state, s)
        else change

  abbrev pub load_or_initialize : Option PlannerState × S → Result (PlannerState × S)
  load_or_initialize (none, s) = initialize_state s
  load_or_initialize (some state, s) = recover_state state s

  unfoldable pub async_load_planner_state : S → Result (PlannerState × S)
  async_load_planner_state s = do loaded ← async_load backend iso s; load_or_initialize loaded

-- the test for `UNRESOLVED_EXTERNAL_RUN`
unfoldable pub is_unresolved : PlannerState → Bool
is_unresolved s =
    any (λ b. b.state == BlockState.uncertain) s.ledger.blocks
    || any (λ j. j.state == JobState.uncertain) s.ledger.jobs

-- the conditions that leave a loaded runtime latched
unfoldable pub is_topology_condition : IssueCondition → Bool
is_topology_condition missing_registry = true
is_topology_condition missing_mapping = true
is_topology_condition lost_capability = true
is_topology_condition removed_areas = true
is_topology_condition _ = false

-- `topology_ready=not active_issue_conditions.intersection(...)`
unfoldable pub is_topology_ready : List IssueCondition → Bool
is_topology_ready conditions = not (any is_topology_condition conditions)

-- `VacuumPlannerRuntimeData(...)` of `async_setup_entry`; an option that is missing is true
unfoldable pub setup_runtime :
    ConfigEntry
    → String
    → Option Bool
    → Option Bool
    → List (String × String)
    → Option String × Option String × Bool
    → List IssueCondition
    → VacuumPlannerRuntimeData
setup_runtime e vacuum planning dry names (selector, selector_registry, requires) conditions =
    record {
      vacuum_entity_id = vacuum;
      planning_enabled = or_value planning true;
      dry_run = or_value dry true;
      has_coordinator = true;
      area_names = names;
      configured_area_ids = e.area_ids;
      capability_tier = "T1";
      topology_ready = is_topology_ready conditions;
      vacuum_registry_id = e.unique_id;
      cleaning_mode_entity_id = selector;
      cleaning_mode_registry_id = selector_registry;
      requires_vacuum_and_mop = requires;
      config_entry_id = some e.entry_id;
      observer_unsubscribe = none;
      repair_unsubscribe = none;
      topology_failure_callback = false;
      observation_generation = 0;
      observation_active = false;
      command_generation = 0;
      command_active = true;
    }

-- `async_unload_entry`, of an entry with a runtime: `platforms` is the outcome of
-- `async_unload_platforms`. It leaves the runtime, whether the entry is unloaded, or what is raised.
unfoldable pub async_unload_entry :
    Result Bool → VacuumPlannerRuntimeData → VacuumPlannerRuntimeData × Result Bool
async_unload_entry (err e) r = (invalidate_commands r, err e)
async_unload_entry (ok false) r = (activate_commands (invalidate_commands r), ok false)
async_unload_entry (ok true) r =
    let (closed, outcome) = shutdown_runtime (invalidate_commands r) in (closed, outcome >> ok true)
