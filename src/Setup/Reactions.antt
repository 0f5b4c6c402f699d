-- ===== src/Setup/Reactions.antt =====
-- __init__.py: how the subscriptions of `_subscribe_observer` react to events.
use ha_vacuum_planner.Base.{
  Bool, List, Option, String, [], any, contains, false, if◌then◌else◌, int_eq, nat_eq, none, not,
  some, string_eq, true, ℕ, ◌+◌, ◌||◌,
}
use ha_vacuum_planner.Models.{
  DateTime, Fields, PlannerState, Value, block_guarantee_eq, block_kind_eq, block_state_eq,
  dispatch_strategy_eq, entry, job_state_eq, mode_eq, named, preferred_mode_eq,
}
use ha_vacuum_planner.Queue.{active_block_states, active_job_states}
use ha_vacuum_planner.Runtime.{VacuumPlannerRuntimeData, invalidate_observations}
use ha_vacuum_planner.Home.{has_feature, is_unavailable}
use ha_vacuum_planner.Topology.{IssueCondition, lost_capability, missing_registry}
use ha_vacuum_planner.Dispatch.{World, latch}
use ha_vacuum_planner.Setup.Plans.{or_value}

unfoldable pub has_active_external_work : Option PlannerState → Bool
has_active_external_work none = false
has_active_external_work (some s) =
    any (λ b. contains b.state active_block_states) s.ledger.blocks
    || any (λ j. contains j.state active_job_states) s.ledger.jobs

-- what `fail_closed` leaves: the issues that it creates, the time of the quarantine that it starts, and
-- whether it has detached the state listeners at once
pub record Closing (S : Type 0) : Type 0 where
  pub world : World S
  pub issues : List IssueCondition
  pub quarantine : Option DateTime
  pub is_detached_now : Bool

abbrev pub created_issues : Option String → List IssueCondition → List IssueCondition
created_issues none conditions = []
created_issues (some id) conditions = conditions

-- `observed_at or _utcnow()`
unfoldable pub fail_closed :
    {S : Type 0} → List IssueCondition → Option DateTime → DateTime → World S → Closing S
fail_closed conditions observed_at now w =
    let busy =
      has_active_external_work
        (if w.runtime.has_coordinator then some w.coordinator.state else none) in
    if not w.runtime.topology_ready
    then record { world = w; issues = []; quarantine = none; is_detached_now = false }
    else record {
      world = latch w;
      issues = created_issues w.runtime.config_entry_id conditions;
      quarantine = if busy then some (or_value observed_at now) else none;
      is_detached_now = not busy;
    }

-- the new state of an event: its state and attributes, where they have the right types
pub record EventState : Type 0 where
  pub state : Option String
  pub attributes : Option Fields

-- what `observed` does with an event
pub data Reaction : Type 0 where
  ignored : Reaction
  closes : IssueCondition → Option DateTime → Reaction
  observes : String → Fields → DateTime → Reaction

-- the place of the bit 16384
abbrev pub clean_area : ℕ
clean_area = 14

-- `"supported_features" in attributes and (...)`
abbrev pub lost_feature : Option Value → Bool
lost_feature none = false
lost_feature (some v) = not (has_feature clean_area (some v))

unfoldable pub react_to : String → Fields → Option DateTime → DateTime → Reaction
react_to state attributes fired now =
    if is_unavailable state
    then closes missing_registry (some (or_value fired now))
    else if lost_feature (entry (named "supported_features") attributes)
    then closes lost_capability none
    else observes state attributes (or_value fired now)

abbrev pub react_to_parts : Option String → Option Fields → Option DateTime → DateTime → Reaction
react_to_parts (some state) (some attributes) fired now = react_to state attributes fired now
react_to_parts _ _ fired now = closes missing_registry none

-- `observed`, of the event's new state, its `time_fired`, and the clock
unfoldable pub observed :
    VacuumPlannerRuntimeData → Option EventState → Option DateTime → DateTime → Reaction
observed r event fired now = if not r.topology_ready then ignored else elim event [
  | none ↦ closes missing_registry none
  | some e ↦ react_to_parts e.state e.attributes fired now
]

-- `bind_state`, as far as the runtime: the generation that the new listener captures, and the runtime
unfoldable pub bind_state : VacuumPlannerRuntimeData → ℕ × VacuumPlannerRuntimeData
bind_state r = (
  r.observation_generation + (if r.observation_active then 1 else 0),
  record (invalidate_observations r) { observation_active = true },
)
