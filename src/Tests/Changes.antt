-- ===== src/Tests/Changes.antt =====
-- Each theorem about a load, an observed failure and a change of the plan at an input that meets its
-- hypotheses.
use ha_vacuum_planner.Base.{
  All, List, Option, String, [], false, inl, int_eq, nat_eq, none, ok, pos, refl, some, string_eq,
  ℕ, ◌*◌, ◌+◌, ◌==◌, ◌∷◌, ◌≡◌,
}
use ha_vacuum_planner.Models.{
  JobState, PlannerState, block_guarantee_eq, block_kind_eq, block_state_eq, dispatch_strategy_eq,
  job_state_eq, mode_eq, preferred_mode_eq, preferred_mode_value,
}
use ha_vacuum_planner.Planning.{Candidate, evaluate_rooms}
use ha_vacuum_planner.Observer.{observe_failed, observe_running}
use ha_vacuum_planner.Actions.{TimeZones, postpone_area, skip_area_today}
use ha_vacuum_planner.Entities.{update_number, vacuum_interval}
use ha_vacuum_planner.Setup.{ConfigEntry, async_load_planner_state}
use ha_vacuum_planner.Storage.{Backend, async_load, async_save, load_stored}
use ha_vacuum_planner.Tests.Runs.{bindings, minute, or_else, or_else-ok}
use ha_vacuum_planner.Tests.Worlds.{handlers, lost_state, sealed_state, sent_state}
use ha_vacuum_planner.Tests.Clocks.{clock}
use ha_vacuum_planner.Safety.Clearing.{Becomes, Each, observed_failure-clears}
use ha_vacuum_planner.Guards.Loads.{Loaded, Settled, async_load_planner_state-Settled}
use ha_vacuum_planner.Due.Skips.{IsNextMidnight, postpone_area-not_found, skip_area_today-not_found}
use ha_vacuum_planner.Views.Rooms.{ShowsNumber, update_number-shown}

-- a store that has nothing to load and counts what it stores
abbrev counting : Backend ℕ
counting = record { load = λ n. ok (none, n); save = λ payload n. ok (n + 1); remove = λ n. ok n }

abbrev config_entry : ConfigEntry
config_entry = record {
  entry_id = "lane";
  unique_id = none;
  area_ids = "hall" ∷ "bath" ∷ [];
  area_plans = λ area. none;
}

abbrev first_loaded : PlannerState × ℕ
unfolding handlers async_load load_stored async_save preferred_mode_value
first_loaded =
    or_else (async_load_planner_state counting clock config_entry "p1" (minute 1) 0)
      (sealed_state, 7)

load_runs : async_load_planner_state counting clock config_entry "p1" (minute 1) 0 ≡ ok first_loaded
unfolding handlers async_load load_stored async_save preferred_mode_value
load_runs = or_else-ok _ (sealed_state, 7) refl

async_load_planner_state-Settled_example :
    Settled first_loaded.0
    × (held : Option PlannerState) × (stored : ℕ) × (async_load counting clock 0
        ≡ ok (held, stored))
    × Loaded counting clock (minute 1) stored held first_loaded
async_load_planner_state-Settled_example =
    async_load_planner_state-Settled counting clock config_entry "p1" (minute 1) 0 load_runs

-- The batch is observed to run.
abbrev running_state : PlannerState
unfolding handlers
running_state = or_else (observe_running (λ blocks. blocks) sent_state (minute 5002)) sealed_state

abbrev failed_state : PlannerState
unfolding handlers
failed_state = or_else (observe_failed running_state (minute 5020)) sealed_state

failure_runs : observe_failed running_state (minute 5020) ≡ ok failed_state
unfolding handlers
failure_runs = or_else-ok _ sealed_state refl

observed_failure-clears_example :
    Each (Becomes JobState.failed) running_state.ledger.jobs failed_state.ledger.jobs
observed_failure-clears_example =
    observed_failure-clears running_state (minute 5020) JobState.failed (inl (failure_runs, refl))

-- The hall is postponed by two days.
abbrev postponed_state : PlannerState
unfolding handlers
postponed_state =
    or_else (postpone_area sealed_state "hall" (minute 5000) (pos 2) "p9") sealed_state

postpone_runs : postpone_area sealed_state "hall" (minute 5000) (pos 2) "p9" ≡ ok postponed_state
unfolding handlers
postpone_runs = or_else-ok _ sealed_state refl

abbrev found_later : PlannerState → List Candidate × List String
unfolding handlers
found_later s = or_else (evaluate_rooms bindings (minute 6000) s.plan_revision.room_plans) ([], [])

postponed_evaluates :
    evaluate_rooms bindings (minute 6000) postponed_state.plan_revision.room_plans
    ≡ ok (found_later postponed_state)
unfolding handlers
postponed_evaluates = or_else-ok _ ([], []) refl

postpone_area-not_found_example :
    All (λ c. (c.plan.area_id == "hall") ≡ false) (found_later postponed_state).0
unfolding handlers
postpone_area-not_found_example =
    postpone_area-not_found sealed_state "hall" (minute 5000) (pos 2) "p9" postpone_runs bindings
      (minute 6000) (found_later postponed_state) refl postponed_evaluates

-- one zone, at UTC
abbrev zones : TimeZones
zones = record {
  Zone = Unit {0};
  zone_info = λ key. some tt;
  local_date = λ zone t. ok 4;
  midnight = λ zone date. ok (minute (1440 * date));
}

abbrev skipped_state : PlannerState
unfolding handlers
skipped_state =
    or_else (skip_area_today zones sealed_state "hall" (minute 6000) "UTC" "p9") sealed_state

skip_runs : skip_area_today zones sealed_state "hall" (minute 6000) "UTC" "p9" ≡ ok skipped_state
unfolding handlers
skip_runs = or_else-ok _ sealed_state refl

midnight_found : IsNextMidnight zones "UTC" (minute 6000) (minute 7200)
midnight_found = (tt, refl, 4, refl, refl)

skipped_evaluates :
    evaluate_rooms bindings (minute 6000) skipped_state.plan_revision.room_plans
    ≡ ok (found_later skipped_state)
unfolding handlers
skipped_evaluates = or_else-ok _ ([], []) refl

skip_area_today-not_found_example :
    All (λ c. (c.plan.area_id == "hall") ≡ false) (found_later skipped_state).0
skip_area_today-not_found_example =
    skip_area_today-not_found zones sealed_state "hall" (minute 6000) "UTC" "p9" skip_runs
      (minute 7200) midnight_found bindings (minute 6000) (found_later skipped_state) refl
      skipped_evaluates

-- The hall is to be vacuumed every three days.
abbrev changed_state : PlannerState
unfolding handlers
changed_state =
    or_else (update_number "hall" vacuum_interval (pos 3) (minute 9000) "p9" sealed_state)
      lost_state

change_runs :
    update_number "hall" vacuum_interval (pos 3) (minute 9000) "p9" sealed_state ≡ ok changed_state
unfolding handlers
change_runs = or_else-ok _ lost_state refl

update_number-shown_example :
    All (ShowsNumber "hall" vacuum_interval (pos 3)) changed_state.plan_revision.room_plans
update_number-shown_example =
    update_number-shown "hall" vacuum_interval (pos 3) (minute 9000) "p9" sealed_state change_runs
