-- ===== src/Tests/Runs.antt =====
-- One lane with two rooms: a batch is started, committed and run, and a restart quarantines it.
use ha_vacuum_planner.Base.{
  All, Bool, List, Result, String, [], all, any, contains, distinct, draw_ids, err, false, find,
  has_duplicates, has_text, insert_by, int_eq, is_space, list_beq, map, map_result, nat_eq, none,
  ok, pos, refl, replace_where, select, set_eq, some, sort_by, str_append, string_eq, string_lt,
  subset, suc, take_before, to_set, true, zero, ℕ, ◌*◌, ◌∷◌, ◌≡◌,
}
use ha_vacuum_planner.Models.{
  BlockGuarantee, BlockState, DateTime, DispatchStrategy, JobState, Mode, PlanRevision,
  PlanSnapshot, PreferredMode, QueueJob, QueueLedger, RoomPlan, Value, add_days, block_beq,
  block_guarantee_eq, block_kind_eq, block_state_eq, block_state_value, check_block, check_blocks,
  check_position, collect, compare_le, cons, day, dict, dispatch_strategy_eq, empty_ledger, end,
  field, find_block, find_job, freeze_json, freeze_mapping, incompatible_states, is_chronological,
  is_finite, job_after, job_by_id, job_state_eq, job_state_value, jobs_of, last_created, list,
  make_block, make_job, make_ledger, make_revision, make_room, make_snapshot, make_snapshot_job,
  make_state, mapping_proxy, mode_eq, named, nil, no_change, none_value, parent_of,
  preferred_mode_eq, put_block, put_job, range_from, replace_block_state, replace_job_state,
  require_aware, require_job, require_job_texts, require_text, room_beq, state_set, text, thaw_json,
  tuple, validate_block, validate_block_job_compatibility, validate_job_dispatch,
  validate_job_lifecycle, validate_ledger, validate_ledger_references,
  validate_terminal_block_result, validate_unique_queue_ids,
}
use ha_vacuum_planner.Queue.{
  CompletionResult, StartRequest, StartResult, advance_plan, advance_room, ambiguous_block_ids,
  begin_native_batch_commit, change_jobs_of, complete_job_and_advance_plan, created,
  fail_block_commit, final_state, finish_block, has_external_correlation, is_ambiguous,
  is_earlier_open, is_open_in, is_repeated, is_uncorrelated_active, jobs_for_block,
  latest_completion, latest_finish, no_work, planned_jobs, quarantine_ambiguous_dispatches,
  quarantine_block, quarantine_block_dispatch, quarantine_job, resolve_uncertain_block,
  resolve_uncertain_job, resumed_block, seal_block, start_due_block, start_new_block,
}
use ha_vacuum_planner.Planning.{
  Bindings, Candidate, binding_errors, build_due_snapshot, candidate_lt, candidate_of, choose_due,
  due_at_of, due_by, due_by?, evaluate_rooms, is_skipped, make_binding, materialise, max_optional,
  mop_due_of, select_due, snapshot_job_of,
}

-- names every definition that a run computes with
unfoldable pub program : Unit {0}
unfolding room_beq has_text is_space str_append map_result any all select find replace_where
    take_before list_beq contains subset set_eq to_set has_duplicates distinct draw_ids insert_by
    sort_by string_lt compare_le add_days is_chronological is_finite collect freeze_mapping
    freeze_json thaw_json require_text require_aware validate_job_lifecycle require_job_texts
    check_position make_job validate_block make_block job_by_id require_job jobs_of range_from
    state_set validate_terminal_block_result validate_unique_queue_ids incompatible_states
    validate_block_job_compatibility last_created check_block check_blocks
    validate_ledger_references validate_ledger make_ledger empty_ledger block_beq parent_of
    find_block find_job put_block put_job replace_block_state validate_job_dispatch job_after
    replace_job_state make_room make_revision make_snapshot_job make_snapshot make_state
    has_external_correlation is_uncorrelated_active jobs_for_block is_repeated is_open_in
    planned_jobs seal_block start_new_block start_due_block change_jobs_of fail_block_commit
    is_earlier_open begin_native_batch_commit quarantine_block_dispatch is_ambiguous resumed_block
    resolve_uncertain_job resolve_uncertain_block ambiguous_block_ids quarantine_block
    quarantine_job quarantine_ambiguous_dispatches latest_completion latest_finish final_state
    finish_block advance_room advance_plan complete_job_and_advance_plan make_binding due_at_of
    max_optional mop_due_of due_by due_by? choose_due select_due is_skipped candidate_of
    binding_errors evaluate_rooms candidate_lt snapshot_job_of materialise build_due_snapshot
    block_state_value job_state_value
program = tt

-- an aware instant at UTC, in minutes
abbrev pub minute : ℕ → DateTime
minute n = record { instant = 60000000 * n; east = some day }

abbrev pub room : String → ℕ → RoomPlan
room id priority = record {
  area_id = id;
  lane_id = "lane";
  enabled = true;
  vacuum_interval_days = pos 1;
  vacuum_and_mop_interval_days = none;
  preferred_mode = PreferredMode.vacuum;
  priority = pos priority;
  skip_until = none;
  last_completed_vacuum_at = none;
  last_completed_vacuum_and_mop_at = none;
}

abbrev pub plan : PlanRevision
plan = record {
  revision_id = "p1";
  created_at = minute 0;
  room_plans = room "hall" 1 ∷ room "bath" 2 ∷ [];
}

abbrev pub bindings : Bindings
bindings id = some (record {
  area_id = id;
  area_name = id;
  adapter_target = list (cons (text id) nil);
  supports_vacuum_and_mop = false;
})

abbrev pub request : StartRequest
request = record {
  lane_id = "lane";
  idempotency_key = "key";
  now = minute 5000;
  dispatch_strategy = DispatchStrategy.native_batch;
  guarantee = BlockGuarantee.planner_atomic;
  atomic_device_commit = false;
  expected_revision = none;
}

-- the identities that are drawn: a text of growing length
abbrev pub ids : ℕ → String
ids zero = "x"
ids (suc n) = str_append "x" (ids n)

abbrev pub or_else {ℓ} : {A : Type ℓ} → Result A → A → A
or_else (ok a) d = a
or_else (err e) d = d

abbrev pub is_ok {ℓ} : {A : Type ℓ} → Result A → Bool
is_ok (ok a) = true
is_ok (err e) = false

pub or_else-ok {ℓ} : {A : Type ℓ} (r : Result A) (d : A) → is_ok r ≡ true → r ≡ ok (or_else r d)
or_else-ok (ok a) d h = refl
or_else-ok (err e) d h = cc

abbrev pub empty : QueueLedger
empty = record {
  schema_version = pos 1;
  revision = pos 0;
  blocks = [];
  jobs = [];
  active_block_id = none;
  last_reconciled_at = none;
}

abbrev pub no_snapshot : PlanSnapshot
no_snapshot = record { plan_revision = ""; lane_id = ""; evaluated_at = minute 0; jobs = [] }

abbrev pub snapshot : PlanSnapshot
unfolding program
snapshot = or_else (build_due_snapshot plan bindings (minute 5000)) no_snapshot

abbrev pub nothing_started : StartResult
nothing_started = record { status = no_work; ledger = empty; block = none; jobs = [] }

abbrev pub started : StartResult
unfolding program
started = or_else (start_due_block empty snapshot request ids) nothing_started

-- the ledgers of a life: sealed, committing, and quarantined by a restart
abbrev pub committing : QueueLedger
unfolding program
committing = or_else (begin_native_batch_commit started.ledger "x" (minute 5001)) empty

abbrev pub quarantined : QueueLedger
unfolding program
quarantined = or_else (quarantine_ambiguous_dispatches committing (minute 5002)) empty

abbrev pub summary : QueueLedger → List BlockState × List JobState × List String
summary l = (map (λ b. b.state) l.blocks, map (λ j. j.state) l.jobs, map (λ j. j.area_id) l.jobs)

-- The bath has the higher priority and comes first.
started-summary :
    summary started.ledger
    ≡ (BlockState.sealed ∷ [], JobState.pending ∷ JobState.pending ∷ [], "bath" ∷ "hall" ∷ [])
unfolding program
started-summary = refl

quarantined-summary : summary quarantined ≡ (
  BlockState.uncertain ∷ [],
  JobState.uncertain ∷ JobState.uncertain ∷ [],
  "bath" ∷ "hall" ∷ [],
)
unfolding program
quarantined-summary = refl

pub empty_made : empty_ledger ≡ ok empty
unfolding program
empty_made = refl

pub start_runs : start_due_block empty snapshot request ids ≡ ok started
unfolding program
start_runs = or_else-ok _ nothing_started refl

pub begin_runs : begin_native_batch_commit started.ledger "x" (minute 5001) ≡ ok committing
unfolding program
begin_runs = or_else-ok _ empty refl

pub restart_runs : quarantine_ambiguous_dispatches committing (minute 5002) ≡ ok quarantined
unfolding program
restart_runs = or_else-ok _ empty refl

-- a repetition of the request at another time, with another guarantee
abbrev pub repeated_request : StartRequest
repeated_request = record request { now = minute 7000; guarantee = BlockGuarantee.robot_atomic }

abbrev pub sealed_ledger : QueueLedger
unfolding program
sealed_ledger =
    or_else (replace_block_state started.ledger "x" BlockState.committing (minute 5001) none) empty

-- the same block committed with its jobs still pending, and one of them sent
abbrev pub waiting : QueueLedger
unfolding program
waiting =
    or_else (replace_block_state sealed_ledger "x" BlockState.committed (minute 5002) none) empty

abbrev pub dispatched : QueueLedger
unfolding program
dispatched =
    or_else (replace_job_state waiting "xx" JobState.dispatching (minute 5003) no_change) empty

pub start_created : started.status ≡ created
unfolding program
start_created = refl

pub waiting_made : make_ledger waiting ≡ ok waiting
unfolding program
waiting_made = refl

pub dispatch_runs :
    replace_job_state waiting "xx" JobState.dispatching (minute 5003) no_change ≡ ok dispatched
unfolding program
dispatch_runs = or_else-ok _ empty refl

dispatched-summary : summary dispatched ≡ (
  BlockState.committed ∷ [],
  JobState.dispatching ∷ JobState.pending ∷ [],
  "bath" ∷ "hall" ∷ [],
)
unfolding program
dispatched-summary = refl

-- a completed job and a failed one
abbrev pub ended_job : QueueJob
ended_job = record {
  job_id = "j";
  block_id = "b";
  area_id = "hall";
  area_name_snapshot = "Hall";
  adapter_target_snapshot =
      dict (field (named "b") (list (cons (text "1") nil)) (field (named "a") none_value end));
  mode = Mode.vacuum;
  position = pos 0;
  state = JobState.completed;
  attempt = pos 1;
  planned_at = minute 1;
  adapter_token = some "token";
  sent_at = some (minute 2);
  started_at = some (minute 3);
  finished_at = some (minute 3);
  error_code = none;
  error_detail = none;
}

abbrev pub frozen_target : Value
frozen_target =
    mapping_proxy
      (field (named "a") none_value (field (named "b") (tuple (cons (text "1") nil)) end))

pub ended_job_made :
    make_job ended_job ≡ ok (record ended_job { adapter_target_snapshot = frozen_target })
unfolding program
ended_job_made = refl

pub target_frozen : freeze_json ended_job.adapter_target_snapshot ≡ ok frozen_target
unfolding program
target_frozen = refl

abbrev pub mixed_jobs : List QueueJob
mixed_jobs = ended_job ∷ record ended_job { state = JobState.failed } ∷ []

pub snapshot_built : build_due_snapshot plan bindings (minute 5000) ≡ ok snapshot
unfolding program
snapshot_built = or_else-ok _ no_snapshot refl

abbrev pub evaluated : List Candidate × List String
unfolding program
evaluated = or_else (evaluate_rooms bindings (minute 5000) plan.room_plans) ([], [])

pub rooms_evaluated : evaluate_rooms bindings (minute 5000) plan.room_plans ≡ ok evaluated
unfolding program
rooms_evaluated = or_else-ok _ ([], []) refl

pub plan_made : make_revision plan ≡ ok plan
unfolding program
plan_made = refl

pub rooms_made : All (λ p. make_room p ≡ ok p) plan.room_plans
unfolding program
rooms_made = (refl, (refl, tt))

pub state_made :
    make_state (record { plan_revision = plan; ledger = quarantined })
    ≡ ok (record { plan_revision = plan; ledger = quarantined })
unfolding program
state_made = refl

-- the sent job is accepted, runs and is completed
abbrev pub accepted_ledger : QueueLedger
unfolding program
accepted_ledger =
    or_else
      (replace_job_state dispatched "xx" JobState.accepted (minute 5004)
        (record no_change { adapter_token = some "token" }))
      empty

abbrev pub running_ledger : QueueLedger
unfolding program
running_ledger =
    or_else (replace_job_state accepted_ledger "xx" JobState.running (minute 5005) no_change) empty

abbrev pub nothing_completed : CompletionResult
nothing_completed = record { ledger = empty; plan_revision = plan }

abbrev pub completed : CompletionResult
unfolding program
completed =
    or_else (complete_job_and_advance_plan running_ledger plan "xx" (minute 5010) "p2")
      nothing_completed

pub completion_runs :
    complete_job_and_advance_plan running_ledger plan "xx" (minute 5010) "p2" ≡ ok completed
unfolding program
completion_runs = or_else-ok _ nothing_completed refl
