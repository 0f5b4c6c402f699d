-- ===== src/Tests/Worlds.antt =====
-- A runtime with the batch of Tests/Runs, in a home with one vacuum.
use ha_vacuum_planner.Base.{
  Result, [], code_points, drop_last_spaces, drop_spaces, false, if◌then◌else◌, int_eq, lower,
  nat_eq, none, ok, pos, refl, some, string_eq, strip, true, ℕ, ◌+◌, ◌==◌, ◌∷◌, ◌≡◌,
}
use ha_vacuum_planner.Models.{
  PlannerState, block_guarantee_eq, block_kind_eq, block_state_eq, dispatch_strategy_eq, end, entry,
  field, fields_in, float_is, integer, items_beq, job_beq, job_state_eq, ledger_beq, mode_eq, named,
  none_value, preferred_mode_eq, state_beq, value_beq,
}
use ha_vacuum_planner.Coordinator.{
  apply_command, async_command, async_update_projection, finish_command, new_coordinator, notify,
  publish, save_command, store_command,
}
use ha_vacuum_planner.Observations.{
  classify, details_of, is_one_of, normalize_observation, normalized_state, normalized_text,
  reports_failure, shows,
}
use ha_vacuum_planner.Observer.{
  affected_block_ids, apply_observation, async_apply_observation, block_ids_where, complete_one,
  complete_running, dispatching_block_ids, doubt_block, doubt_job, fail_block, fail_job,
  is_dispatched, is_sent_before, observe_completed, observe_failed, observe_running,
  observe_uncertain, rewrite_ledger, run_accepted, run_blocks, settle_ledger, start_block,
  start_dispatched, start_job,
}
use ha_vacuum_planner.Runtime.{
  VacuumPlannerRuntimeData, activate_commands, apply_planning_enabled, capture_command_generation,
  invalidate_commands, invalidate_observations, request_planning_enabled,
  require_command_generation, require_runtime_generation, roll_back, shutdown_runtime,
  update_planning,
}
use ha_vacuum_planner.Actions.{
  cancel_jobs, cancel_pending_block, find_zone, next_midnight, postpone_area, skip_area,
  skip_area_today, skip_room,
}
use ha_vacuum_planner.Home.{
  EntityState, HomeAssistant, RegistryEntry, has_feature, has_item, has_mode_options,
  has_unhashable, is_unhashable,
}
use ha_vacuum_planner.Adapter.{
  async_dispatch, async_dispatch_after_preflight, check_mode, check_vacuum, clean_area, confirms,
  dispatch_with, find_dreame_mova_cleaning_mode_entity, first_selector, guarded_call, has_infix,
  is_mode_selector, is_selector_ready, offers_modes, preflight, requested_mode,
  resolve_bound_cleaning_mode_entity, returned, start_cleaning,
}
use ha_vacuum_planner.Topology.{
  all_segments, area_issues, area_mapping, async_get_valid_vacuum, configured_topology_issues,
  is_mapped, vacuum_issues, validate_area_ids, validate_state,
}
use ha_vacuum_planner.Dispatch.{
  Schedule, World, accept_jobs, async_dispatch_created_block, async_quarantine_dispatch,
  async_run_ambiguous_operation, claim, claim_block, claims, dispatch_claimed, find_vacuum, latch,
  latch_ready, locked_command, record_dispatch_acceptance, record_uncertain,
  resolve_command_cleaning_mode, resolve_command_vacuum, run_command,
}
use ha_vacuum_planner.Services.{
  StartCall, action_name, apply_queue_mutation, async_start_next, binding_of, block_view, by_area,
  capture_runtime_command, get_queue_response, job_view, join_errors, mutation_command,
  non_empty_string, postpone_days, recover_block, resolve_area_bindings, run_mutation,
  runtime_for_action, start_command, start_due, start_next_captured,
}
use ha_vacuum_planner.Entities.{
  add_microsecond, async_set_enabled, async_set_native_value, attention_required, count_state,
  counted, current_phase, diagnostic_counts, float_integer, native_value, next_action,
  next_creation, number_request, number_value, pending_count, plain_binding, planner_ready,
  planner_status, projection_item, queue_projection, replace_in_room, replace_room_value,
  reverse_onto, safe_area_name, state_counts, take, update_number, whole_number,
}
use ha_vacuum_planner.Setup.{
  area_settings, async_load_planner_state, async_unload_entry, bind_state, collect_plans,
  configured_area_plans, entry_requires_vacuum_and_mop, fail_closed, has_active_external_work,
  initial_planner_state, initial_room, initialize_state, is_topology_condition, is_topology_ready,
  is_unresolved, observed, preferred_mode_of, put_settings, react_to, recover_state, setup_runtime,
  state_requires_vacuum_and_mop,
}
use ha_vacuum_planner.Tests.Runs.{committing, ids, minute, plan, program, quarantined, started}

-- names every definition that the handlers compute with
unfoldable pub handlers : Unit {0}
unfolding program code_points drop_spaces drop_last_spaces strip lower capture_command_generation
    require_runtime_generation require_command_generation invalidate_observations
    invalidate_commands activate_commands shutdown_runtime roll_back update_planning
    apply_planning_enabled request_planning_enabled is_one_of normalized_text normalized_state
    details_of reports_failure shows classify normalize_observation is_sent_before is_dispatched
    block_ids_where dispatching_block_ids start_block start_job rewrite_ledger settle_ledger
    start_dispatched run_accepted run_blocks observe_running complete_one complete_running
    observe_completed affected_block_ids fail_job fail_block observe_failed doubt_job doubt_block
    observe_uncertain apply_observation async_apply_observation skip_room skip_area postpone_area
    find_zone next_midnight skip_area_today cancel_jobs cancel_pending_block has_feature has_item
    has_mode_options is_unhashable has_unhashable has_infix is_mode_selector offers_modes
    is_selector_ready first_selector find_dreame_mova_cleaning_mode_entity
    resolve_bound_cleaning_mode_entity check_vacuum requested_mode confirms check_mode preflight
    guarded_call start_cleaning dispatch_with async_dispatch_after_preflight async_dispatch
    validate_state async_get_valid_vacuum area_mapping all_segments is_mapped validate_area_ids
    vacuum_issues area_issues configured_topology_issues claims claim accept_jobs
    record_dispatch_acceptance record_uncertain find_vacuum latch latch_ready resolve_command_vacuum
    resolve_command_cleaning_mode locked_command run_command async_quarantine_dispatch
    async_run_ambiguous_operation dispatch_claimed claim_block async_dispatch_created_block
    non_empty_string postpone_days block_view job_view get_queue_response runtime_for_action
    capture_runtime_command binding_of by_area resolve_area_bindings join_errors start_due
    recover_block start_command apply_queue_mutation action_name mutation_command
    start_next_captured async_start_next run_mutation take reverse_onto safe_area_name
    projection_item queue_projection planner_status pending_count current_phase attention_required
    planner_ready plain_binding next_action float_integer whole_number number_value
    replace_room_value add_microsecond next_creation replace_in_room update_number native_value
    number_request async_set_native_value async_set_enabled count_state counted state_counts
    diagnostic_counts area_settings put_settings collect_plans configured_area_plans
    entry_requires_vacuum_and_mop state_requires_vacuum_and_mop preferred_mode_of initial_room
    initial_planner_state initialize_state recover_state async_load_planner_state is_unresolved
    is_topology_condition is_topology_ready setup_runtime async_unload_entry
    has_active_external_work fail_closed react_to observed bind_state entry float_is job_beq
    ledger_beq state_beq value_beq items_beq fields_in notify publish finish_command save_command
    apply_command store_command async_command async_update_projection
handlers = tt

abbrev pub sealed_state : PlannerState
sealed_state = record { plan_revision = plan; ledger = started.ledger }

abbrev pub sent_state : PlannerState
sent_state = record { plan_revision = plan; ledger = committing }

abbrev pub lost_state : PlannerState
lost_state = record { plan_revision = plan; ledger = quarantined }

pub is_claimed : claims "x" sealed_state ≡ true
unfolding handlers
is_claimed = refl

pub claim_runs : claim "x" (minute 5001) sealed_state ≡ ok sent_state
unfolding handlers
claim_runs = refl

-- the vacuum's registry entry, and the home
abbrev pub vacuum_entry : RegistryEntry
vacuum_entry = record {
  id = some "registry";
  entity_id = some "vacuum.v";
  domain = some "vacuum";
  platform = none;
  device_id = none;
  unique_id = none;
  is_disabled = false;
  options = none_value;
}

abbrev pub docked : EntityState
docked = record {
  state = "docked";
  attributes = field (named "supported_features") (integer (pos 16384)) end;
}

abbrev pub home : HomeAssistant
home = record {
  states = λ id. if id == "vacuum.v" then some docked else none;
  entities = λ id. if id == "registry" then some vacuum_entry else none;
  entries_for_device = none;
  areas = λ id. some id;
  clean_area_bit = 14;
}

abbrev pub runtime : VacuumPlannerRuntimeData
runtime = record {
  vacuum_entity_id = "vacuum.v";
  planning_enabled = true;
  dry_run = false;
  has_coordinator = true;
  area_names = [];
  configured_area_ids = "hall" ∷ "bath" ∷ [];
  capability_tier = "T1";
  topology_ready = true;
  vacuum_registry_id = some "registry";
  cleaning_mode_entity_id = none;
  cleaning_mode_registry_id = none;
  requires_vacuum_and_mop = false;
  config_entry_id = some "entry";
  observer_unsubscribe = none;
  repair_unsubscribe = none;
  topology_failure_callback = true;
  observation_generation = 0;
  observation_active = true;
  command_generation = 0;
  command_active = true;
}

-- a store that counts what it has stored
abbrev pub save_count : PlannerState → ℕ → Result ℕ
save_count state n = ok (n + 1)

abbrev pub world : PlannerState → World ℕ
world state = record { runtime = runtime; coordinator = new_coordinator state; store = 0 }

-- no other task does anything, and every service call returns
abbrev pub quiet : Schedule ℕ
quiet = record {
  wait = λ n w. w;
  saving = λ n r. r;
  listening = λ n c. (c.listeners, c.notices);
  calling = λ n w. w;
  service = λ call. returned tt;
  clock = λ n. minute 5001;
  is_cancelled = false;
}

-- The batch is sent by one call that names its areas in their order.
pub dispatch_calls :
    (async_dispatch_created_block save_count quiet "x" started.jobs 0 home
      (world sealed_state)).calls
    ≡ clean_area "vacuum.v" ("bath" ∷ "hall" ∷ []) ∷ []
unfolding handlers
dispatch_calls = refl

abbrev pub start_call : StartCall
start_call = record {
  idempotency_key = none;
  evaluated_at = minute 5000;
  new_ids = ids;
  iso_date = λ t. "1970-01-04";
}

pub start_calls :
    (async_start_next save_count quiet (λ n. home) start_call (world sealed_state)).calls
    ≡ clean_area "vacuum.v" ("bath" ∷ "hall" ∷ []) ∷ []
unfolding handlers
start_calls = refl
