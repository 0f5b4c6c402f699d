-- ===== src/Dispatch/Waits.antt =====
-- __init__.py: the places where a dispatch waits. What other tasks do meanwhile is an arbitrary function
-- of the world, one for each place. The model leaves out a cancellation while a command is stored.
use ha_vacuum_planner.Base.{
  Bool, List, Result, String, err, if◌then◌else◌, ltb, ok, runtime_inactive_error, validation_error,
  ℕ,
}
use ha_vacuum_planner.Models.{DateTime, PlannerState}
use ha_vacuum_planner.Coordinator.{Outcome, PlannerCoordinator, async_command}
use ha_vacuum_planner.Runtime.{VacuumPlannerRuntimeData, require_runtime_generation}
use ha_vacuum_planner.Adapter.{Awaited, ServiceCall, cancelled_error, raised, returned}
use ha_vacuum_planner.Dispatch.Claims.{record_uncertain}
use ha_vacuum_planner.Dispatch.Worlds.{World}

-- what the other tasks and the clock do: the n-th wait before a lock; during the n-th save, which holds
-- the lock, the runtime, the listeners and the notices; the callback of the n-th side effect, the outcome
-- of a service call, the n-th reading of the clock, and whether a cancellation arrives during the
-- quarantine
pub record Schedule (S : Type 0) : Type 0 where
  pub wait : ℕ → World S → World S
  pub saving : ℕ → VacuumPlannerRuntimeData → VacuumPlannerRuntimeData
  pub listening : ℕ → PlannerCoordinator → List ℕ × List (ℕ × PlannerState)
  pub calling : ℕ → World S → World S
  pub service : ServiceCall → Awaited (Unit {0})
  pub clock : ℕ → DateTime
  pub is_cancelled : Bool

module _ {S : Type 0} (save : PlannerState → S → Result S) (schedule : Schedule S) where
  -- the world behind a command, with the runtime that the last call of the guard has seen
  abbrev pub world_after : World S → VacuumPlannerRuntimeData → Outcome S → World S
  world_after w runtime o = record {
    runtime = runtime;
    coordinator = o.coordinator;
    store = o.store;
  }

  -- the coordinator behind the wait for the n-th save: its state stands under the lock
  abbrev pub meanwhile : ℕ → PlannerCoordinator → PlannerCoordinator
  meanwhile n c = record c {
    listeners = (schedule.listening n c).0;
    notices = (schedule.listening n c).1;
  }

  -- `coordinator.async_command(command, guard)` behind the lock: `guard` reads the runtime, and its last
  -- call stands behind the n-th save
  unfoldable pub locked_command :
      ℕ
      → (VacuumPlannerRuntimeData → Result (Unit {0}))
      → (PlannerState → Result PlannerState)
      → World S
      → World S × Result PlannerState
  locked_command n guard command locked =
      let runtime = schedule.saving n locked.runtime in
      let o =
        async_command save (λ k. guard (if ltb k 2 then locked.runtime else runtime)) command
          (meanwhile n locked.coordinator) locked.store in
      (world_after locked runtime o, o.result)

  -- the command at the n-th wait
  unfoldable pub run_command :
      ℕ
      → (VacuumPlannerRuntimeData → Result (Unit {0}))
      → (PlannerState → Result PlannerState)
      → World S
      → World S × Result PlannerState
  run_command n guard command w = locked_command n guard command (schedule.wait n w)

  -- `_async_quarantine_dispatch`, with the guard of the dispatch
  unfoldable pub async_quarantine_dispatch : String → ℕ → World S → World S × Awaited (Unit {0})
  async_quarantine_dispatch id generation w = quarantined (
      run_command 3 (λ r. require_runtime_generation r generation)
        (record_uncertain id (schedule.clock 2)) w)
    where
      quarantined : World S × Result PlannerState → World S × Awaited (Unit {0})
      quarantined (v, err e) = (v, raised e)
      quarantined (v, ok state) =
          (v, if schedule.is_cancelled then cancelled_error else returned tt)

  -- what is raised behind the quarantine
  abbrev pub after_quarantine :
      {A : Type 0} → World S × Awaited (Unit {0}) → Awaited A → World S × Awaited A
  after_quarantine (w, returned u) reason = (w, reason)
  after_quarantine (w, raised e) reason = (w, raised e)
  after_quarantine (w, cancelled_error) reason = (w, cancelled_error)

  -- `_async_run_ambiguous_operation`, behind the operation
  unfoldable pub async_run_ambiguous_operation :
      {A : Type 0} → String → ℕ → String → World S × Awaited A → World S × Awaited A
  async_run_ambiguous_operation id generation message (w, returned a) = (w, returned a)
  async_run_ambiguous_operation id generation message (w, raised (runtime_inactive_error s)) =
      (w, raised (runtime_inactive_error s))
  async_run_ambiguous_operation id generation message (w, raised e) =
      after_quarantine (async_quarantine_dispatch id generation w)
        (raised (validation_error message))
  async_run_ambiguous_operation id generation message (w, cancelled_error) =
      after_quarantine (async_quarantine_dispatch id generation w) cancelled_error
