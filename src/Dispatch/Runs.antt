-- ===== src/Dispatch/Runs.antt =====
-- __init__.py: `_async_dispatch_created_block`.
use ha_vacuum_planner.Base.{
  Bool, List, Option, Result, String, [], err, false, if◌then◌else◌, length, map, ok, runtime_error,
  suc, true, validation_error, zero, ℕ,
}
use ha_vacuum_planner.Models.{PlannerState, QueueJob}
use ha_vacuum_planner.Runtime.{require_command_generation}
use ha_vacuum_planner.Home.{HomeAssistant}
use ha_vacuum_planner.Adapter.{
  Awaited, NativeAreaAdapter, ServiceCall, async_dispatch_after_preflight, cancelled_error,
  preflight, raised, returned,
}
use ha_vacuum_planner.Dispatch.Claims.{claim, claims, record_dispatch_acceptance}
use ha_vacuum_planner.Dispatch.Worlds.{World, resolve_command_cleaning_mode, resolve_command_vacuum}
use ha_vacuum_planner.Dispatch.Waits.{Schedule, async_run_ambiguous_operation, run_command}

-- what a dispatch leaves
pub record DispatchRun (S : Type 0) : Type 0 where
  pub world : World S
  -- the service calls that were begun, in their order
  pub calls : List ServiceCall
  pub result : Awaited PlannerState

abbrev pub to_awaited : {A : Type 0} → Result A → Awaited A
to_awaited (err e) = raised e
to_awaited (ok a) = returned a

abbrev pub stopped :
    {S : Type 0} → World S → List ServiceCall → Awaited PlannerState → DispatchRun S
stopped w calls result = record { world = w; calls = calls; result = result }

module _ {S : Type 0} (save : PlannerState → S → Result S) (schedule : Schedule S) (id : String)
    (jobs : List QueueJob) (generation : ℕ) where
  -- the last call of the guard, and `return accepted_state`
  abbrev pub finish_dispatch : List ServiceCall → World S × Awaited PlannerState → DispatchRun S
  finish_dispatch calls (w, returned state) =
      elim (require_command_generation w.runtime generation) [
        | err e ↦ stopped w calls (raised e)
        | ok u ↦ stopped w calls (returned state)
      ]
  finish_dispatch calls (w, outcome) = stopped w calls outcome

  -- the part behind the service calls
  abbrev pub record_acceptance : List ServiceCall → World S × Awaited (Unit {0}) → DispatchRun S
  record_acceptance calls (w, raised e) = stopped w calls (raised e)
  record_acceptance calls (w, cancelled_error) = stopped w calls cancelled_error
  record_acceptance calls (w, returned u) =
      let (v, accepted) =
        run_command save schedule 1 (λ r. require_command_generation r generation)
          (record_dispatch_acceptance id jobs (schedule.clock 1)) w in
      finish_dispatch calls (
        async_run_ambiguous_operation save schedule id generation
          "Native area dispatch acceptance could not be persisted" (v, to_awaited accepted))

  -- the world behind the first calls
  abbrev pub behind_calls : ℕ → World S → World S
  behind_calls zero w = w
  behind_calls (suc n) w = schedule.calling n (behind_calls n w)

  -- the part behind the claim
  unfoldable pub dispatch_claimed : NativeAreaAdapter → Option String → World S → DispatchRun S
  dispatch_claimed adapter mode_option w =
      let (calls, outcome) =
        async_dispatch_after_preflight
          (λ n. require_command_generation (behind_calls n w).runtime generation) schedule.service
          adapter (map (λ j. j.area_id) jobs) mode_option in
      record_acceptance calls (
        async_run_ambiguous_operation save schedule id generation "Native area dispatch failed"
          (behind_calls (length calls) w, outcome))

  -- behind the claim's command: `claimed` is what the claim has noted
  abbrev pub after_claim :
      Bool → NativeAreaAdapter → Option String → World S × Result PlannerState → DispatchRun S
  after_claim claimed adapter mode_option (w, err e) = stopped w [] (raised e)
  after_claim true adapter mode_option (w, ok state) = dispatch_claimed adapter mode_option w
  after_claim false adapter mode_option (w, ok state) = stopped w [] (returned w.coordinator.state)

  -- the claim, of the state that the command finds behind the lock
  unfoldable pub claim_block : NativeAreaAdapter → Option String → World S → DispatchRun S
  claim_block adapter mode_option w =
      after_claim (claims id (schedule.wait 0 w).coordinator.state) adapter mode_option (
        run_command save schedule 0 (λ r. require_command_generation r generation)
          (claim id (schedule.clock 0)) w)

  abbrev pub after_mode : HomeAssistant → String → World S × Result (Option String) → DispatchRun S
  after_mode hass vacuum (w, err e) = stopped w [] (raised e)
  after_mode hass vacuum (w, ok selector) =
      let adapter : NativeAreaAdapter = record {
        vacuum_entity_id = vacuum;
        cleaning_mode_entity_id = selector;
      } in
      elim (preflight hass adapter (map (λ j. j.mode) jobs)) [
        | err e ↦ stopped w [] (raised (validation_error "Native area dispatch preflight failed"))
        | ok mode_option ↦ claim_block adapter mode_option w
      ]

  abbrev pub after_vacuum : HomeAssistant → World S × Result String → DispatchRun S
  after_vacuum hass (w, err e) = stopped w [] (raised e)
  after_vacuum hass (w, ok vacuum) = after_mode hass vacuum (resolve_command_cleaning_mode hass w)

  -- `_async_dispatch_created_block`, of a block `id` with these jobs and a captured generation
  unfoldable pub async_dispatch_created_block : HomeAssistant → World S → DispatchRun S
  async_dispatch_created_block hass w =
      if w.runtime.has_coordinator
      then after_vacuum hass (resolve_command_vacuum hass w)
      else stopped w [] (raised (runtime_error "created start has no coordinator"))
