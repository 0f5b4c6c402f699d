-- ===== src/Observer/Applications.antt =====
-- integration_observer.py: `async_apply_observation`.
use ha_vacuum_planner.Base.{
  Bool, List, Option, Result, String, false, if◌then◌else◌, int_eq, nat_eq, none, not, ok, raise_if,
  runtime_error, some, string_eq, ℕ, ◌==◌, ◌>>◌, ◌||◌,
}
use ha_vacuum_planner.Models.{
  DateTime, Fields, PlannerState, block_guarantee_eq, block_kind_eq, block_state_eq,
  dispatch_strategy_eq, job_state_eq, mode_eq, preferred_mode_eq,
}
use ha_vacuum_planner.Coordinator.{Guard, Outcome, PlannerCoordinator, async_command}
use ha_vacuum_planner.Observations.{ObservationOutcome, normalize_observation}
use ha_vacuum_planner.Runtime.{VacuumPlannerRuntimeData}
use ha_vacuum_planner.Observer.Runs.{observe_completed, observe_running}
use ha_vacuum_planner.Observer.Failures.{observe_failed, observe_uncertain}

-- what Python and Home Assistant choose: the order of a set, the new identities
pub record Environment : Type 0 where
  pub order : List String → List String
  pub new_ids : ℕ → String

-- the command of an outcome
abbrev pub observation_command :
    Environment → ObservationOutcome → PlannerState → DateTime → Result PlannerState
observation_command e ObservationOutcome.running state at = observe_running e.order state at
observation_command e ObservationOutcome.completed state at = observe_completed e.new_ids state at
observation_command e ObservationOutcome.failed state at = observe_failed state at
observation_command e ObservationOutcome.uncertain state at = observe_uncertain state at
observation_command e ObservationOutcome.no_change state at = ok state

-- the test of the observation's generation, inside the lock
abbrev pub is_detached : VacuumPlannerRuntimeData → Option ℕ → Bool
is_detached r none = false
is_detached r (some generation) =
    not r.observation_active || not (r.observation_generation == generation)

-- `apply`, where `r` is the runtime that the command finds behind the lock
unfoldable pub apply_observation :
    Environment
    → VacuumPlannerRuntimeData
    → Option ℕ
    → ObservationOutcome
    → DateTime
    → PlannerState
    → Result PlannerState
apply_observation e r generation outcome at state =
    if is_detached r generation then ok state else observation_command e outcome state at

-- a call that leaves the coordinator and the store alone
abbrev pub left_alone : {S : Type 0} → PlannerCoordinator → S → Outcome S
left_alone c s = record { result = ok c.state; coordinator = c; store = s }

-- a command without a guard
abbrev pub unguarded : Guard
unguarded n = ok tt

module _ {S : Type 0} (save : PlannerState → S → Result S) (e : Environment) where
  abbrev pub apply_outcome :
      VacuumPlannerRuntimeData
      → Option ℕ
      → ObservationOutcome
      → DateTime
      → PlannerCoordinator
      → S
      → Outcome S
  apply_outcome r generation ObservationOutcome.no_change at c s = left_alone c s
  apply_outcome r generation outcome at c s =
      async_command save unguarded (apply_observation e r generation outcome at) c s

  -- `async_apply_observation`. `r` is the runtime at the call; `locked` is the runtime, `c` its
  -- coordinator and `s` the store that the command finds behind the lock.
  unfoldable pub async_apply_observation :
      VacuumPlannerRuntimeData
      → VacuumPlannerRuntimeData
      → String
      → Fields
      → DateTime
      → Option ℕ
      → PlannerCoordinator
      → S
      → Result (Outcome S)
  async_apply_observation r locked state attributes at generation c s = do
    raise_if (not r.has_coordinator) (runtime_error "Vacuum Planner state is unavailable")
    ok (apply_outcome locked generation (normalize_observation state attributes) at c s)
