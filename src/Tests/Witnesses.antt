-- ===== src/Tests/Witnesses.antt =====
-- Each theorem at an input that meets its hypotheses.
use ha_vacuum_planner.Base.{
  All, List, Result, [], arith, err, false, find, if◌then◌else◌, incℤ, int_eq, map, nat_eq, ok,
  refl, revision_conflict_error, select, some, string_eq, true, ◌==◌, ◌↔◌, ◌∷◌, ◌≡◌, ◌≢◌, ◌≤◌, ◌⊎◌,
}
use ha_vacuum_planner.Models.{
  Ascending, BlockState, DateTime, JobState, PlannerState, QueueBlock, QueueJob, block_guarantee_eq,
  block_kind_eq, block_state_eq, dispatch_strategy_eq, find_job, freeze_json, is_chronological,
  job_state_eq, make_ledger, mode_eq, no_change, preferred_mode_eq, validate_terminal_block_result,
}
use ha_vacuum_planner.Queue.{
  created, existing, is_uncorrelated_active, quarantine_ambiguous_dispatches, start_due_block,
}
use ha_vacuum_planner.Laws.Freezing.{freeze_json_idem}
use ha_vacuum_planner.Laws.History.{Follows, open_count}
use ha_vacuum_planner.Safety.Moves.{with_id, with_job_id}
use ha_vacuum_planner.Safety.Commands.{
  Reach, Reach-Follows, after, begin_batch, empty-IsValid, here, one_open_block, restart, start,
}
use ha_vacuum_planner.Starts.Contents.{Seals, start_due_block-Seals}
use ha_vacuum_planner.Starts.Retry.{start_due_block-retry}
use ha_vacuum_planner.Rules.Dispatch.{MayDispatch, replace_job_state-MayDispatch}
use ha_vacuum_planner.Rules.Times.{TellsLife, is_chronological_iff, make_job-TellsLife}
use ha_vacuum_planner.Rules.Results.{agrees, validate_terminal_block_result_iff}
use ha_vacuum_planner.Rules.Restart.{
  IsSettled, quarantine_ambiguous_dispatches-again, quarantine_ambiguous_dispatches-settles,
}
use ha_vacuum_planner.Due.Rooms.{is_due, mode_of}
use ha_vacuum_planner.Due.Candidates.{evaluate_rooms-is_due}
use ha_vacuum_planner.Due.Order.{PlansDue, build_due_snapshot-PlansDue}
use ha_vacuum_planner.Rules.Batches.{SendsBatch, begin_native_batch_commit-SendsBatch}
use ha_vacuum_planner.Due.Rest.{Rests, complete_job_and_advance_plan-Rests}
use ha_vacuum_planner.Codec.{deserialize_planner_state, serialize_planner_state}
use ha_vacuum_planner.Coordinator.{
  Guard, PlannerCoordinator, async_add_listener, async_command, new_coordinator,
}
use ha_vacuum_planner.Persistence.Commands.{
  CommandOutcome, Run-Shows, Shows, async_command-outcome, begun, command, listen, next,
}
use ha_vacuum_planner.RoundTrips.Roots.{deserialize-serialize_planner_state}
use ha_vacuum_planner.Tests.Runs.{
  begin_runs, bindings, committing, completed, completion_runs, dispatch_runs, empty, empty_made,
  ended_job, ended_job_made, evaluated, frozen_target, ids, minute, mixed_jobs, no_snapshot, plan,
  plan_made, quarantined, repeated_request, request, restart_runs, rooms_evaluated, rooms_made,
  running_ledger, snapshot, snapshot_built, start_created, start_runs, started, state_made,
  target_frozen, waiting, waiting_made,
}
use ha_vacuum_planner.Tests.Clocks.{clock, clock-reads}

life : Reach empty quarantined
life =
    after
      (after (after here (start snapshot request ids started start_runs refl))
        (begin_batch "x" (minute 5001) begin_runs))
      (restart (minute 5002) restart_runs)

Reach-Follows_example : Follows empty quarantined
Reach-Follows_example = Reach-Follows (empty-IsValid empty_made) life

one_open_block_example : open_count "lane" quarantined.blocks ≤ 1
one_open_block_example = one_open_block empty_made life "lane"

start_due_block-Seals_example :
    Seals empty snapshot request started ⊎ ((started.ledger ≡ empty) × (started.status ≢ created))
start_due_block-Seals_example = start_due_block-Seals empty snapshot request ids start_runs

start_due_block-retry_example :
    start_due_block started.ledger no_snapshot repeated_request ids
    ≡ ok (record started { status = existing })
start_due_block-retry_example =
    start_due_block-retry empty snapshot request ids start_runs start_created no_snapshot
      repeated_request ids refl refl

replace_job_state-MayDispatch_example :
    (job : QueueJob) × (parent : QueueBlock) × (find (with_job_id "xx") waiting.jobs ≡ some job)
    × (find (with_id job.block_id) waiting.blocks ≡ some parent)
    × ((job.state ≡ JobState.pending) ⊎ (job.state ≡ JobState.failed))
    × MayDispatch waiting job parent
replace_job_state-MayDispatch_example =
    replace_job_state-MayDispatch waiting "xx" (minute 5003) no_change waiting_made dispatch_runs

validate_terminal_block_result_iff_example :
    (validate_terminal_block_result BlockState.partial mixed_jobs ≡ ok tt)
    ↔ (agrees BlockState.partial mixed_jobs ≡ true)
validate_terminal_block_result_iff_example =
    validate_terminal_block_result_iff BlockState.partial mixed_jobs

is_chronological_iff_example :
    (is_chronological (minute 1 ∷ minute 3 ∷ minute 2 ∷ []) ≡ true)
    ↔ Ascending (minute 1 ∷ minute 3 ∷ minute 2 ∷ [])
is_chronological_iff_example = is_chronological_iff (minute 1 ∷ minute 3 ∷ minute 2 ∷ [])

make_job-TellsLife_example :
    TellsLife (record ended_job { adapter_target_snapshot = frozen_target })
make_job-TellsLife_example = make_job-TellsLife ended_job ended_job_made

quarantine_ambiguous_dispatches-settles_example :
    All (λ j. is_uncorrelated_active j ≡ false) quarantined.jobs
    × All (IsSettled committing.jobs) quarantined.blocks
quarantine_ambiguous_dispatches-settles_example =
    quarantine_ambiguous_dispatches-settles committing (minute 5002) restart_runs

quarantine_ambiguous_dispatches-again_example :
    quarantine_ambiguous_dispatches quarantined (minute 5003)
    ≡ make_ledger (record quarantined {
      revision = incℤ quarantined.revision;
      last_reconciled_at = some (minute 5003);
    })
quarantine_ambiguous_dispatches-again_example =
    quarantine_ambiguous_dispatches-again committing (minute 5002) (minute 5003) restart_runs

freeze_json_idem_example : freeze_json frozen_target ≡ ok frozen_target
freeze_json_idem_example = freeze_json_idem ended_job.adapter_target_snapshot target_frozen

-- a store that keeps what it accepts, and accepts only states of the plan "p1"
abbrev save : PlannerState → List PlannerState → Result (List PlannerState)
save state states =
    if state.plan_revision.revision_id == "p1"
    then ok (state ∷ states)
    else err revision_conflict_error

abbrev first_state : PlannerState
first_state = record { plan_revision = plan; ledger = empty }

abbrev never_refuses : Guard
never_refuses n = ok tt

abbrev take_batch : PlannerState → Result PlannerState
take_batch state = ok (record state { ledger = started.ledger })

async_command-outcome_example :
    CommandOutcome save never_refuses take_batch
      (new_coordinator first_state)
      []
      (async_command save never_refuses take_batch (new_coordinator first_state) [])
async_command-outcome_example =
    async_command-outcome save never_refuses take_batch (new_coordinator first_state) []

abbrev first_listened : PlannerCoordinator
first_listened = async_add_listener 7 (new_coordinator first_state)

save-plan :
    (state : PlannerState) (s t : List PlannerState)
    → save state s ≡ ok t
    → state.plan_revision.revision_id ≡ "p1"
save-plan state s t h = ground (arith, string_eq.beq_iff state.plan_revision.revision_id "p1")

Run-Shows_example :
    Shows
      (λ state. state.plan_revision.revision_id ≡ "p1")
      (async_command save never_refuses take_batch first_listened []).coordinator
Run-Shows_example =
    Run-Shows Unit save (λ state. state.plan_revision.revision_id ≡ "p1") first_state refl save-plan
      (next (next begun (listen 7)) (command never_refuses take_batch))

build_due_snapshot-PlansDue_example : PlansDue plan (minute 5000) snapshot
build_due_snapshot-PlansDue_example =
    build_due_snapshot-PlansDue plan bindings (minute 5000) snapshot_built

evaluate_rooms-is_due_example :
    (map (λ c. c.plan) evaluated.0 ≡ select (is_due (minute 5000)) plan.room_plans)
    × All (λ c. c.mode ≡ mode_of c.plan.preferred_mode) evaluated.0
evaluate_rooms-is_due_example =
    evaluate_rooms-is_due bindings (minute 5000) plan.room_plans rooms_evaluated

abbrev stored_state : PlannerState
stored_state = record { plan_revision = plan; ledger = quarantined }

deserialize-serialize_planner_state_example :
    deserialize_planner_state clock (serialize_planner_state clock stored_state) ≡ ok stored_state
deserialize-serialize_planner_state_example =
    deserialize-serialize_planner_state clock clock-reads stored_state
      (Reach-Follows (empty-IsValid empty_made) life).valid plan_made rooms_made state_made

complete_job_and_advance_plan-Rests_example :
    (job : QueueJob) × (find_job running_ledger.jobs "xx" ≡ ok job)
    × All
        (λ p.
          p.area_id ≡ job.area_id
          → (now : DateTime) → Rests job.mode (minute 5010) now p
          → is_due now p ≡ false)
        completed.plan_revision.room_plans
complete_job_and_advance_plan-Rests_example =
    complete_job_and_advance_plan-Rests running_ledger plan "xx" (minute 5010) "p2" completion_runs

begin_native_batch_commit-SendsBatch_example :
    SendsBatch started.ledger "x" (minute 5001) committing
begin_native_batch_commit-SendsBatch_example =
    begin_native_batch_commit-SendsBatch started.ledger "x" (minute 5001)
      (Reach-Follows (empty-IsValid empty_made)
        (after here (start snapshot request ids started start_runs refl))).valid
      begin_runs
