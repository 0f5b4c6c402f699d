-- ===== src/Codec/Roots.antt =====
-- The codecs of a whole ledger and of the planner's state, and the migrations of version 0.
use ha_vacuum_planner.Base.{
  Result, String, [], if◌then◌else◌, is_none, not, ok, pos, raise_if, str_append, value_error,
  ◌>>=◌, ◌>>◌, ◌∷◌,
}
use ha_vacuum_planner.Models.{
  PlannerState, QueueBlock, QueueJob, QueueLedger, Value, dict, integer, list, make_ledger,
  make_state,
}
use ha_vacuum_planner.Codec.Readers.{
  IsoFormat, Payload, array_of, data_of, dump_time, envelope, get, integer_of, is_version, items_of,
  lookup, map_items, object_in, object_of, optional_string, put_field, require, require_kind, text?,
  time_of,
}
use ha_vacuum_planner.Codec.Plans.{deserialize_plan_revision, serialize_plan_revision}
use ha_vacuum_planner.Codec.Ledgers.{block_dump, block_load, job_dump, job_load}

unfoldable pub ledger_dump : IsoFormat → QueueLedger → Payload
ledger_dump iso ledger = object_of (
    ("revision", integer ledger.revision)
    ∷ ("blocks", list (items_of (λ b. dict (block_dump iso b)) ledger.blocks))
    ∷ ("jobs", list (items_of (λ j. dict (job_dump iso j)) ledger.jobs))
    ∷ ("active_block_id", text? ledger.active_block_id)
    ∷ ("last_reconciled_at", dump_time iso ledger.last_reconciled_at)
    ∷ [])

unfoldable pub serialize_ledger : IsoFormat → QueueLedger → Payload
serialize_ledger iso ledger = envelope "queue_ledger" (ledger_dump iso ledger)

-- `{**data, name: data.get(name)}`
unfoldable pub with_default : String → Payload → Payload
with_default name fields = put_field name (get fields name) fields

unfoldable pub migrate_block : Value → Result Value
migrate_block item = do
  block ← object_in "block" item
  ok (
      dict (
        put_field "adapter_run_id" (get block "adapter_run_id")
          (with_default "completed_at" block)))

unfoldable pub migrate_job : Value → Result Value
migrate_job item = do
  job ← object_in "job" item
  ok (
      dict (
        put_field "error_detail" (get job "error_detail")
          (put_field "error_code" (get job "error_code") (with_default "adapter_token" job))))

unfoldable pub migrate_ledger_payload : Payload → Result Payload
migrate_ledger_payload payload =
    if not (is_version 0 (get payload "schema_version")) then ok payload else (do
      require_kind "queue_ledger" payload
      fields ← object_in "payload data" (get payload "data")
      raw_blocks ← array_of "blocks" (get fields "blocks")
      blocks ← map_items migrate_block raw_blocks
      raw_jobs ← array_of "jobs" (get fields "jobs")
      jobs ← map_items migrate_job raw_jobs
      ok (
          envelope "queue_ledger" (
            put_field "last_reconciled_at" (get fields "last_reconciled_at") (
              put_field "active_block_id" (get fields "active_block_id") (
                put_field "jobs" (list (items_of (λ j. j) jobs))
                  (put_field "blocks" (list (items_of (λ b. b) blocks)) fields))))))

unfoldable pub load_block_item : IsoFormat → Value → Result QueueBlock
load_block_item iso item = do fields ← object_in "block" item; block_load iso fields

unfoldable pub load_job_item : IsoFormat → Value → Result QueueJob
load_job_item iso item = do fields ← object_in "job" item; job_load iso fields

unfoldable pub ledger_load : IsoFormat → Payload → Result QueueLedger
ledger_load iso fields = do
  raw_revision ← require fields "revision"
  revision ← integer_of "revision" raw_revision
  raw_blocks ← require fields "blocks"
  block_items ← array_of "blocks" raw_blocks
  blocks ← map_items (load_block_item iso) block_items
  raw_jobs ← require fields "jobs"
  job_items ← array_of "jobs" raw_jobs
  jobs ← map_items (load_job_item iso) job_items
  active_block_id ← optional_string "active_block_id" (get fields "active_block_id")
  last_reconciled_at ← time_of iso (get fields "last_reconciled_at")
  make_ledger (record {
    schema_version = pos 1;
    revision = revision;
    blocks = blocks;
    jobs = jobs;
    active_block_id = active_block_id;
    last_reconciled_at = last_reconciled_at;
  })

unfoldable pub deserialize_ledger : IsoFormat → Payload → Result QueueLedger
deserialize_ledger iso payload = do
  migrated ← migrate_ledger_payload payload
  fields ← data_of migrated "queue_ledger"
  ledger_load iso fields

-- the `data` of the state's envelope
unfoldable pub state_dump : IsoFormat → PlannerState → Payload
state_dump iso state = object_of (
    ("plan_revision", dict (serialize_plan_revision iso state.plan_revision))
    ∷ ("ledger", dict (serialize_ledger iso state.ledger))
    ∷ [])

unfoldable pub serialize_planner_state : IsoFormat → PlannerState → Payload
serialize_planner_state iso state = envelope "planner_state" (state_dump iso state)

unfoldable pub migrate_planner_state_payload : Payload → Result Payload
migrate_planner_state_payload payload =
    if not (is_version 0 (get payload "schema_version")) then ok payload else (do
      require_kind "planner_state" payload
      fields ← object_in "payload data" (get payload "data")
      ok (envelope "planner_state" fields))

abbrev pub require_present : String → Payload → Result (Unit {0})
require_present name fields =
    raise_if (is_none (lookup fields name)) (value_error (str_append "missing " name))

unfoldable pub deserialize_planner_state : IsoFormat → Payload → Result PlannerState
deserialize_planner_state iso payload = do
  migrated ← migrate_planner_state_payload payload
  fields ← data_of migrated "planner_state"
  require_present "plan_revision" fields
  require_present "ledger" fields
  raw_plan ← require fields "plan_revision"
  plan_payload ← object_in "plan_revision" raw_plan
  plan_revision ← deserialize_plan_revision iso plan_payload
  raw_ledger ← require fields "ledger"
  ledger_payload ← object_in "ledger" raw_ledger
  ledger ← deserialize_ledger iso ledger_payload
  make_state (record { plan_revision = plan_revision; ledger = ledger })
