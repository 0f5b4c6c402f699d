-- ===== src/Entities/Switches.antt =====
-- switch.py: the planning switch, and diagnostics.py: the counts.
use ha_vacuum_planner.Base.{
  Bool, List, Option, Result, String, [], if◌then◌else◌, int_eq, length, map, nat_eq, some, sort_by,
  string_eq, string_lt, ℕ, ℤ, ◌+◌, ◌==◌, ◌∷◌,
}
use ha_vacuum_planner.Models.{
  Fields, PlannerState, block_guarantee_eq, block_kind_eq, block_state_eq, block_state_value,
  dispatch_strategy_eq, job_state_eq, job_state_value, mode_eq, preferred_mode_eq,
}
use ha_vacuum_planner.Coordinator.{PlannerCoordinator, ProjectionOutcome}
use ha_vacuum_planner.Runtime.{VacuumPlannerRuntimeData, apply_planning_enabled}

-- the options of the config entry: the planning preference, and the others
pub record EntryOptions : Type 0 where
  pub planning_option : Option Bool
  pub others : Fields

abbrev pub with_planning : Bool → EntryOptions → EntryOptions
with_planning enabled options = record options { planning_option = some enabled }

-- `_async_set_enabled`, of a runtime behind the lock: `update_entry` is `async_update_entry`, of the
-- options that are written over the old ones
unfoldable pub async_set_enabled :
    (EntryOptions → EntryOptions → EntryOptions × Result (Unit {0}))
    → Bool
    → EntryOptions
    → ℕ
    → PlannerCoordinator
    → VacuumPlannerRuntimeData
    → EntryOptions
    → ProjectionOutcome (VacuumPlannerRuntimeData × EntryOptions)
async_set_enabled update_entry enabled previous generation c r options =
    apply_planning_enabled (update_entry (with_planning enabled previous)) (update_entry previous)
      enabled generation c r options

-- `_state_counts`: how many items have a state, by their states
unfoldable pub count_state : String → List (String × ℕ) → List (String × ℕ)
count_state state [] = (state, 1) ∷ []
count_state state ((s, n) ∷ counts) =
    let rest = count_state state counts in if state == s then (s, n + 1) ∷ counts else (s, n) ∷ rest

unfoldable pub counted : List String → List (String × ℕ)
counted [] = []
counted (s ∷ states) = count_state s (counted states)

unfoldable pub state_counts : List String → List (String × ℕ)
state_counts states = sort_by (λ a b. string_lt a.0 b.0) (counted states)

-- the counts of the diagnostics
pub record DiagnosticCounts : Type 0 where
  pub plan_room_count : ℕ
  pub queue_revision : ℤ
  pub block_count : ℕ
  pub job_count : ℕ
  pub block_states : List (String × ℕ)
  pub job_states : List (String × ℕ)

unfoldable pub diagnostic_counts : PlannerState → DiagnosticCounts
diagnostic_counts s = record {
  plan_room_count = length s.plan_revision.room_plans;
  queue_revision = s.ledger.revision;
  block_count = length s.ledger.blocks;
  job_count = length s.ledger.jobs;
  block_states = state_counts (map (λ b. block_state_value b.state) s.ledger.blocks);
  job_states = state_counts (map (λ j. job_state_value j.state) s.ledger.jobs);
}
