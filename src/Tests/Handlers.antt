-- ===== src/Tests/Handlers.antt =====
-- Each theorem about the runtime, the dispatch and the entities at an input that meets its hypotheses.
use ha_vacuum_planner.Base.{
  All, Result, [], ap, err, false, if◌then◌else◌, inr, int_eq, is_empty, length, nat_eq, none, ok,
  overflow_error, refl, some, string_eq, true, ℕ, ◌+◌, ◌==◌, ◌↔◌, ◌∷◌, ◌≡◌, ◌≢◌, ◌⊎◌,
}
use ha_vacuum_planner.Models.{
  Mode, block_guarantee_eq, block_kind_eq, block_state_eq, cons, dispatch_strategy_eq, end, field,
  job_state_eq, list, mode_eq, named, nil, preferred_mode_eq, text,
}
use ha_vacuum_planner.Coordinator.{new_coordinator}
use ha_vacuum_planner.Observer.{is_detached}
use ha_vacuum_planner.Runtime.{
  activate_commands, apply_planning_enabled, capture_command_generation, inactive,
  invalidate_commands, require_command_generation, require_runtime_generation,
}
use ha_vacuum_planner.Home.{EntityState, HomeAssistant}
use ha_vacuum_planner.Adapter.{Called, NativeAreaAdapter, async_dispatch, raised, select_option}
use ha_vacuum_planner.Topology.{lost_capability}
use ha_vacuum_planner.Dispatch.{claim, claims}
use ha_vacuum_planner.Entities.{attention, paused, planner_ready, planner_status, queue_projection}
use ha_vacuum_planner.Setup.{Closing, bind_state, fail_closed}
use ha_vacuum_planner.Tests.Runs.{
  empty_made, ids, minute, request, restart_runs, snapshot, start_runs, started, waiting,
  waiting_made,
}
use ha_vacuum_planner.Tests.Worlds.{
  claim_runs, dispatch_calls, handlers, home, is_claimed, lost_state, quiet, runtime, save_count,
  sealed_state, sent_state, start_call, start_calls, world,
}
use ha_vacuum_planner.Laws.History.{IsValid}
use ha_vacuum_planner.Safety.Commands.{Reach-Follows, after, empty-IsValid, here, restart, start}
use ha_vacuum_planner.Safety.Graph.{Agrees, make_ledger-Agrees}
use ha_vacuum_planner.Guards.Claims.{claim_once}
use ha_vacuum_planner.Guards.Dispatches.{Dispatched, async_dispatch_created_block-Dispatched}
use ha_vacuum_planner.Guards.Starts.{async_start_next-live}
use ha_vacuum_planner.Guards.Generations.{
  bound_then_invalidated, captured_then_invalidated, commands_activated, then_change,
  unchanged_runtime,
}
use ha_vacuum_planner.Guards.Latches.{IsResting, Refuses, fail_closed-latches}
use ha_vacuum_planner.Guards.Preferences.{
  apply_planning_enabled-preference, outcome_after, preference_after,
}
use ha_vacuum_planner.Views.Projections.{
  Bounded, planner_ready-planner_status, queue_projection-Bounded,
}

sealed-IsValid : IsValid sealed_state.ledger
sealed-IsValid =
    (Reach-Follows (empty-IsValid empty_made)
      (after here (start snapshot request ids started start_runs refl))).valid

claim_once_example :
    (claims "x" lost_state ≡ false) × (claim "x" (minute 5003) lost_state ≡ ok lost_state)
claim_once_example =
    claim_once "x" (minute 5001) (minute 5003) sealed_state sent_state lost_state sealed-IsValid
      is_claimed claim_runs (after here (restart (minute 5002) restart_runs))

async_dispatch_created_block-Dispatched_example :
    Dispatched save_count quiet "x" 0 (world sealed_state)
async_dispatch_created_block-Dispatched_example =
    async_dispatch_created_block-Dispatched save_count quiet "x" started.jobs 0 home
      (world sealed_state) sealed-IsValid (ap is_empty dispatch_calls)

async_start_next-live_example :
    (generation : ℕ) × (capture_command_generation runtime ≡ ok generation)
    × (require_command_generation runtime generation ≡ ok tt)
    × (runtime.planning_enabled ≡ true)
    × (runtime.dry_run ≡ false)
async_start_next-live_example =
    async_start_next-live save_count quiet (λ n. home) start_call (world sealed_state)
      (ap is_empty start_calls)

captured_runtime : capture_command_generation runtime ≡ ok 0
unfolding capture_command_generation
captured_runtime = refl

captured_then_invalidated_example :
    require_runtime_generation (activate_commands (invalidate_commands runtime)) 0 ≡ err inactive
captured_then_invalidated_example =
    captured_then_invalidated {q = runtime} {r = runtime} 0 captured_runtime unchanged_runtime refl
      (then_change unchanged_runtime (commands_activated refl))

bound_active : (bind_state runtime).1.observation_active ≡ true
unfolding bind_state
bound_active = refl

bound_then_invalidated_example :
    is_detached (bind_state (bind_state runtime).1).1 (some (bind_state runtime).0) ≡ true
bound_then_invalidated_example =
    bound_then_invalidated runtime {r = (bind_state runtime).1} unchanged_runtime bound_active
      (inr refl) unchanged_runtime

abbrev closing : Closing ℕ
closing = fail_closed (lost_capability ∷ []) none (minute 6000) (world sent_state)

fail_closed-latches_example :
    Refuses closing.world.runtime 0
    × (closing.world.coordinator.state ≡ sent_state)
    × ((closing.quarantine ≡ none) ↔ (
        (runtime.topology_ready ≡ false)
        ⊎ (runtime.has_coordinator ≡ false)
        ⊎ IsResting sent_state.ledger))
    × ((closing.quarantine ≡ none) ⊎ (closing.quarantine ≡ some (minute 6000)))
fail_closed-latches_example =
    fail_closed-latches (lost_capability ∷ []) none (minute 6000) (world sent_state) 0

-- the options are a number; the commit fails, and the rollback restores it
failing_commit : ℕ → ℕ × Result (Unit {0})
failing_commit n = (n + 1, err overflow_error)

restoring : ℕ → ℕ × Result (Unit {0})
restoring n = (7, ok tt)

apply_planning_enabled-preference_example :
    ((apply_planning_enabled failing_commit restoring false 0
        (new_coordinator sealed_state)
        runtime
        7).preferences.0.planning_enabled
      ≡ preference_after false true
          (require_command_generation runtime 0)
          (failing_commit 7).1
          (restoring (failing_commit 7).0).1)
    × ((apply_planning_enabled failing_commit restoring false 0
          (new_coordinator sealed_state)
          runtime
          7).result
        ≡ outcome_after
            (require_command_generation runtime 0)
            (failing_commit 7).1
            (restoring (failing_commit 7).0).1)
    × ((apply_planning_enabled failing_commit restoring false 0
          (new_coordinator sealed_state)
          runtime
          7).coordinator.state
        ≡ sealed_state)
apply_planning_enabled-preference_example =
    apply_planning_enabled-preference failing_commit restoring false 0
      (new_coordinator sealed_state) runtime 7

make_ledger-Agrees_example : All (λ j. All (Agrees j) waiting.blocks) waiting.jobs
make_ledger-Agrees_example = make_ledger-Agrees waiting waiting_made

queue_projection-Bounded_example :
    Bounded (length sealed_state.ledger.jobs) (queue_projection (λ c. true) (some sealed_state))
queue_projection-Bounded_example = queue_projection-Bounded (λ c. true) sealed_state

planner_ready-planner_status_example : (planner_ready runtime (some sealed_state) ≡ true) ↔ (
    (planner_status runtime (some sealed_state) ≢ attention)
    × (planner_status runtime (some sealed_state) ≢ paused))
planner_ready-planner_status_example = planner_ready-planner_status runtime sealed_state

-- a home where the selector of the cleaning mode offers both modes
abbrev selector_state : EntityState
selector_state = record {
  state = "Vacuum";
  attributes =
      field (named "options") (list (cons (text "Vacuum") (cons (text "Vacuum and Mop") nil))) end;
}

abbrev mop_home : HomeAssistant
mop_home = record home {
  states = λ id. if id == "select.mode" then some selector_state else home.states id;
}

abbrev mop_adapter : NativeAreaAdapter
mop_adapter = record { vacuum_entity_id = "vacuum.v"; cleaning_mode_entity_id = some "select.mode" }

-- the selector raises
abbrev unanswered : Called
unanswered =
    async_dispatch mop_home (λ n. ok tt) (λ call. raised overflow_error) mop_adapter
      ("bath" ∷ "hall" ∷ []) (Mode.vacuum_and_mop ∷ [])

unanswered-calls :
    unanswered ≡ (select_option "select.mode" "Vacuum and Mop" ∷ [], raised overflow_error)
unfolding handlers
unanswered-calls = refl
