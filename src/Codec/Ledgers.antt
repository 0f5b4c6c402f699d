-- ===== src/Codec/Ledgers.antt =====
-- The codecs of blocks, jobs and ledgers, and the migration of old ledgers.
use ha_vacuum_planner.Base.{
  List, Result, String, [], if◌then◌else◌, int_eq, nat_eq, ok, some, string_eq, ◌==◌, ◌>>=◌, ◌∷◌,
}
use ha_vacuum_planner.Models.{
  BlockGuarantee, BlockKind, BlockState, DispatchStrategy, JobState, QueueBlock, QueueJob,
  block_guarantee_eq, block_guarantee_value, block_kind_eq, block_kind_value, block_state_eq,
  block_state_value, dispatch_strategy_eq, dispatch_strategy_value, integer, job_state_eq,
  job_state_value, list, make_block, make_job, mode_eq, mode_value, preferred_mode_eq, text,
  thaw_json,
}
use ha_vacuum_planner.Codec.Readers.{
  IsoFormat, Payload, array_of, dump_time, get, integer_of, items_of, json_value, map_items,
  member_of, object_of, optional_string, require, required_time, string_of, text?, time_of,
}
use ha_vacuum_planner.Codec.Plans.{modes}

unfoldable pub block_dump : IsoFormat → QueueBlock → Payload
block_dump iso block = object_of (
    ("block_id", text block.block_id)
    ∷ ("kind", text (block_kind_value block.kind))
    ∷ ("lane_id", text block.lane_id)
    ∷ ("plan_revision", text block.plan_revision)
    ∷ ("idempotency_key", text block.idempotency_key)
    ∷ ("created_at", dump_time iso (some block.created_at))
    ∷ ("sealed_at", dump_time iso block.sealed_at)
    ∷ ("committed_at", dump_time iso block.committed_at)
    ∷ ("completed_at", dump_time iso block.completed_at)
    ∷ ("state", text (block_state_value block.state))
    ∷ ("job_ids", list (items_of (λ id. text id) block.job_ids))
    ∷ ("dispatch_strategy", text (dispatch_strategy_value block.dispatch_strategy))
    ∷ ("adapter_run_id", text? block.adapter_run_id)
    ∷ ("guarantee", text (block_guarantee_value block.guarantee))
    ∷ [])

-- the members of the enumerations, in the order of the source
abbrev pub block_kinds : List BlockKind
block_kinds = BlockKind.scheduled ∷ []

abbrev pub dispatch_strategies : List DispatchStrategy
dispatch_strategies =
    DispatchStrategy.native_batch ∷ DispatchStrategy.planner_sequential
    ∷ DispatchStrategy.device_queue ∷ []

abbrev pub block_guarantees : List BlockGuarantee
block_guarantees = BlockGuarantee.planner_atomic ∷ BlockGuarantee.robot_atomic ∷ []

abbrev pub block_states : List BlockState
block_states =
    BlockState.draft ∷ BlockState.validating ∷ BlockState.sealed ∷ BlockState.committing
    ∷ BlockState.committed ∷ BlockState.running ∷ BlockState.completed ∷ BlockState.rejected
    ∷ BlockState.cancelled ∷ BlockState.failed ∷ BlockState.uncertain ∷ BlockState.partial ∷ []

abbrev pub job_states : List JobState
job_states =
    JobState.pending ∷ JobState.dispatching ∷ JobState.accepted ∷ JobState.running
    ∷ JobState.completed ∷ JobState.failed ∷ JobState.uncertain ∷ JobState.skipped
    ∷ JobState.cancelled ∷ []

-- the removed kind "adhoc" is read as the scheduled kind
unfoldable pub load_kind : String → Result BlockKind
load_kind raw =
    if raw == "adhoc" then ok BlockKind.scheduled else member_of block_kind_value block_kinds raw

unfoldable pub block_load : IsoFormat → Payload → Result QueueBlock
block_load iso fields = do
  raw_kind ← require fields "kind"
  kind_text ← string_of "kind" raw_kind
  kind ← load_kind kind_text
  raw_id ← require fields "block_id"
  block_id ← string_of "block_id" raw_id
  raw_lane ← require fields "lane_id"
  lane_id ← string_of "lane_id" raw_lane
  raw_revision ← require fields "plan_revision"
  plan_revision ← string_of "plan_revision" raw_revision
  raw_key ← require fields "idempotency_key"
  idempotency_key ← string_of "idempotency_key" raw_key
  raw_created ← require fields "created_at"
  created_at ← required_time iso raw_created
  sealed_at ← time_of iso (get fields "sealed_at")
  raw_state ← require fields "state"
  state_text ← string_of "state" raw_state
  state ← member_of block_state_value block_states state_text
  raw_jobs ← require fields "job_ids"
  items ← array_of "job_ids" raw_jobs
  job_ids ← map_items (string_of "job_id") items
  raw_strategy ← require fields "dispatch_strategy"
  strategy_text ← string_of "dispatch_strategy" raw_strategy
  dispatch_strategy ← member_of dispatch_strategy_value dispatch_strategies strategy_text
  raw_guarantee ← require fields "guarantee"
  guarantee_text ← string_of "guarantee" raw_guarantee
  guarantee ← member_of block_guarantee_value block_guarantees guarantee_text
  committed_at ← time_of iso (get fields "committed_at")
  completed_at ← time_of iso (get fields "completed_at")
  adapter_run_id ← optional_string "adapter_run_id" (get fields "adapter_run_id")
  make_block (record {
    block_id = block_id;
    kind = kind;
    lane_id = lane_id;
    plan_revision = plan_revision;
    idempotency_key = idempotency_key;
    created_at = created_at;
    sealed_at = sealed_at;
    state = state;
    job_ids = job_ids;
    dispatch_strategy = dispatch_strategy;
    guarantee = guarantee;
    committed_at = committed_at;
    completed_at = completed_at;
    adapter_run_id = adapter_run_id;
  })

unfoldable pub job_dump : IsoFormat → QueueJob → Payload
job_dump iso job = object_of (
    ("job_id", text job.job_id)
    ∷ ("block_id", text job.block_id)
    ∷ ("area_id", text job.area_id)
    ∷ ("area_name_snapshot", text job.area_name_snapshot)
    ∷ ("adapter_target_snapshot", thaw_json job.adapter_target_snapshot)
    ∷ ("mode", text (mode_value job.mode))
    ∷ ("position", integer job.position)
    ∷ ("state", text (job_state_value job.state))
    ∷ ("attempt", integer job.attempt)
    ∷ ("adapter_token", text? job.adapter_token)
    ∷ ("planned_at", dump_time iso (some job.planned_at))
    ∷ ("sent_at", dump_time iso job.sent_at)
    ∷ ("started_at", dump_time iso job.started_at)
    ∷ ("finished_at", dump_time iso job.finished_at)
    ∷ ("error_code", text? job.error_code)
    ∷ ("error_detail", text? job.error_detail)
    ∷ [])

unfoldable pub job_load : IsoFormat → Payload → Result QueueJob
job_load iso fields = do
  raw_id ← require fields "job_id"
  job_id ← string_of "job_id" raw_id
  raw_block ← require fields "block_id"
  block_id ← string_of "block_id" raw_block
  raw_area ← require fields "area_id"
  area_id ← string_of "area_id" raw_area
  raw_name ← require fields "area_name_snapshot"
  area_name_snapshot ← string_of "area_name_snapshot" raw_name
  raw_target ← require fields "adapter_target_snapshot"
  target ← json_value "adapter_target_snapshot" raw_target
  raw_mode ← require fields "mode"
  mode_text ← string_of "mode" raw_mode
  mode ← member_of mode_value modes mode_text
  raw_position ← require fields "position"
  position ← integer_of "position" raw_position
  raw_state ← require fields "state"
  state_text ← string_of "state" raw_state
  state ← member_of job_state_value job_states state_text
  raw_attempt ← require fields "attempt"
  attempt ← integer_of "attempt" raw_attempt
  raw_planned ← require fields "planned_at"
  planned_at ← required_time iso raw_planned
  adapter_token ← optional_string "adapter_token" (get fields "adapter_token")
  sent_at ← time_of iso (get fields "sent_at")
  started_at ← time_of iso (get fields "started_at")
  finished_at ← time_of iso (get fields "finished_at")
  error_code ← optional_string "error_code" (get fields "error_code")
  error_detail ← optional_string "error_detail" (get fields "error_detail")
  make_job (record {
    job_id = job_id;
    block_id = block_id;
    area_id = area_id;
    area_name_snapshot = area_name_snapshot;
    adapter_target_snapshot = target;
    mode = mode;
    position = position;
    state = state;
    attempt = attempt;
    planned_at = planned_at;
    adapter_token = adapter_token;
    sent_at = sent_at;
    started_at = started_at;
    finished_at = finished_at;
    error_code = error_code;
    error_detail = error_detail;
  })
