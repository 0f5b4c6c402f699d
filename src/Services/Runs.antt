-- ===== src/Services/Runs.antt =====
-- __init__.py: the handlers `async_start_next` and `handler`, of a runtime that was found.
use ha_vacuum_planner.Base.{
  Bool, List, Option, Result, String, [], err, if◌then◌else◌, map, none, ok, some, validation_error,
  ℕ, ℤ,
}
use ha_vacuum_planner.Models.{PlannerState}
use ha_vacuum_planner.Queue.{StartResult, StartStatus}
use ha_vacuum_planner.Runtime.{require_command_generation}
use ha_vacuum_planner.Home.{HomeAssistant}
use ha_vacuum_planner.Adapter.{Awaited, ServiceCall, cancelled_error, raised, returned}
use ha_vacuum_planner.Dispatch.{
  DispatchRun, Schedule, World, async_dispatch_created_block, locked_command, run_command,
  to_awaited,
}
use ha_vacuum_planner.Services.Queues.{as_validation, capture_runtime_command, runtime_for_action}
use ha_vacuum_planner.Services.Starts.{
  StartCall, StartDecision, decided_state, dry_run_cancelled, start_command, start_made,
}

pub record StartResponse : Type 0 where
  pub status : StartStatus
  pub block_id : Option String
  pub area_ids : List String
  pub revision : ℤ
  pub dry_run : Bool

-- what `start_next` leaves
pub record StartRun (S : Type 0) : Type 0 where
  pub world : World S
  pub calls : List ServiceCall
  pub response : Awaited StartResponse

abbrev pub ended : {S : Type 0} → World S → List ServiceCall → Awaited StartResponse → StartRun S
ended w calls response = record { world = w; calls = calls; response = response }

abbrev pub start_response : Bool → StartResult → PlannerState → StartResponse
start_response dry_run result updated = record {
  status = result.status;
  block_id = elim result.block [ none ↦ none | some b ↦ some b.block_id ];
  area_ids = map (λ j. j.area_id) result.jobs;
  revision = updated.ledger.revision;
  dry_run = dry_run;
}

-- behind the dispatch
abbrev pub after_dispatch : {S : Type 0} → StartResult → DispatchRun S → StartRun S
after_dispatch result run = elim run.result [
  | returned state ↦
      ended run.world run.calls (returned (start_response run.world.runtime.dry_run result state))
  | raised e ↦ ended run.world run.calls (to_awaited (as_validation (err e)))
  | cancelled_error ↦ ended run.world run.calls cancelled_error
]

module _ {S : Type 0} (save : PlannerState → S → Result S) (schedule : Schedule S)
    (homes : ℕ → HomeAssistant) (generation : ℕ) where
  -- the part behind the command
  abbrev pub after_start : StartDecision → World S × Result PlannerState → StartRun S
  after_start decision (w, err e) = ended w [] (to_awaited (as_validation (err e)))
  after_start (dry_run_cancelled state) (w, ok updated) = ended w [] (
      raised
        (validation_error "Dry-run block cancelled safely; retry start_next to begin a live run"))
  after_start (start_made result state) (w, ok updated) = elim result.block [
    | none ↦ ended w [] (returned (start_response w.runtime.dry_run result updated))
    | some block ↦
        if w.runtime.dry_run
        then ended w [] (returned (start_response w.runtime.dry_run result updated))
        else after_dispatch result (
            async_dispatch_created_block save schedule block.block_id result.jobs generation
              (homes 1) w)
  ]

  abbrev pub after_decision : StartCall → World S → World S × Result StartDecision → StartRun S
  after_decision call locked (w, err e) = ended w [] (to_awaited (as_validation (err e)))
  after_decision call locked (w, ok decision) = after_start decision (
      locked_command save schedule 4 (λ r. require_command_generation r generation)
        (λ state. ok (decided_state decision)) locked)

  -- `async_start_next` behind the capture of the generation. The command's decision is taken behind the
  -- first call of its guard, from the state behind the lock; a command that raises changes no state.
  unfoldable pub start_next_captured : StartCall → World S → StartRun S
  start_next_captured call w =
      let locked = schedule.wait 4 w in
      elim (require_command_generation locked.runtime generation) [
        | err e ↦ ended locked [] (to_awaited (as_validation (err e)))
        | ok u ↦ after_decision call locked (start_command (homes 0) call locked)
      ]

-- `async_start_next`, of an entry that is loaded or not
module _ {S : Type 0} (save : PlannerState → S → Result S) (schedule : Schedule S)
    (homes : ℕ → HomeAssistant) where
  unfoldable pub async_start_next : StartCall → World S → StartRun S
  async_start_next call w = elim (runtime_for_action (some w.runtime)) [
    | err e ↦ ended w [] (raised e)
    | ok r ↦ elim (capture_runtime_command r) [
      | err e ↦ ended w [] (raised e)
      | ok generation ↦ start_next_captured save schedule homes generation call w
    ]
  ]

  -- `handler` of a mutation, as far as the world and the state behind its command
  unfoldable pub run_mutation :
      (PlannerState → Result PlannerState) → World S → World S × Result PlannerState
  run_mutation command w = elim (runtime_for_action (some w.runtime)) [
    | err e ↦ (w, err e)
    | ok r ↦ elim (capture_runtime_command r) [
      | err e ↦ (w, err e)
      | ok generation ↦
          let (v, result) =
            run_command save schedule 5 (λ r. require_command_generation r generation) command w in
          (v, as_validation result)
    ]
  ]
