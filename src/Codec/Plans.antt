-- ===== src/Codec/Plans.antt =====
-- The codecs of room plans, plan revisions and snapshots.
use ha_vacuum_planner.Base.{
  List, Result, String, [], if◌then◌else◌, int_eq, nat_eq, ok, some, string_eq, ◌==◌, ◌>>=◌, ◌∷◌,
}
use ha_vacuum_planner.Models.{
  Mode, PlanRevision, PlanSnapshot, PreferredMode, RoomPlan, SnapshotJob, Value, block_guarantee_eq,
  block_kind_eq, block_state_eq, boolean, dict, dispatch_strategy_eq, integer, job_state_eq, list,
  make_revision, make_room, make_snapshot, make_snapshot_job, mode_eq, mode_value,
  preferred_mode_eq, preferred_mode_value, text, thaw_json,
}
use ha_vacuum_planner.Codec.Readers.{
  IsoFormat, Payload, array_of, boolean_of, data_of, dump_time, envelope, get, integer?, integer_of,
  items_of, json_value, map_items, member_of, object_in, object_of, optional_integer, require,
  required_time, string_of, time_of,
}

unfoldable pub room_dump : IsoFormat → RoomPlan → Payload
room_dump iso room = object_of (
    ("area_id", text room.area_id)
    ∷ ("lane_id", text room.lane_id)
    ∷ ("enabled", boolean room.enabled)
    ∷ ("vacuum_interval_days", integer room.vacuum_interval_days)
    ∷ ("vacuum_and_mop_interval_days", integer? room.vacuum_and_mop_interval_days)
    ∷ ("preferred_mode", text (preferred_mode_value room.preferred_mode))
    ∷ ("priority", integer room.priority)
    ∷ ("skip_until", dump_time iso room.skip_until)
    ∷ ("last_completed_vacuum_at", dump_time iso room.last_completed_vacuum_at)
    ∷ ("last_completed_vacuum_and_mop_at", dump_time iso room.last_completed_vacuum_and_mop_at)
    ∷ [])

abbrev pub preferred_modes : List PreferredMode
preferred_modes = PreferredMode.vacuum ∷ PreferredMode.vacuum_and_mop ∷ []

-- the removed policy "automatic" is read as the vacuum policy
unfoldable pub load_preferred_mode : String → Result PreferredMode
load_preferred_mode raw =
    if raw == "automatic"
    then ok PreferredMode.vacuum
    else member_of preferred_mode_value preferred_modes raw

unfoldable pub room_load : IsoFormat → Payload → Result RoomPlan
room_load iso fields = do
  raw_mode ← require fields "preferred_mode"
  raw_preferred_mode ← string_of "preferred_mode" raw_mode
  preferred_mode ← load_preferred_mode raw_preferred_mode
  raw_area ← require fields "area_id"
  area_id ← string_of "area_id" raw_area
  raw_lane ← require fields "lane_id"
  lane_id ← string_of "lane_id" raw_lane
  raw_enabled ← require fields "enabled"
  enabled ← boolean_of "enabled" raw_enabled
  raw_days ← require fields "vacuum_interval_days"
  vacuum_interval_days ← integer_of "vacuum_interval_days" raw_days
  raw_mop_days ← require fields "vacuum_and_mop_interval_days"
  vacuum_and_mop_interval_days ← optional_integer "vacuum_and_mop_interval_days" raw_mop_days
  raw_priority ← require fields "priority"
  priority ← integer_of "priority" raw_priority
  skip_until ← time_of iso (get fields "skip_until")
  last_completed_vacuum_at ← time_of iso (get fields "last_completed_vacuum_at")
  last_completed_vacuum_and_mop_at ← time_of iso (get fields "last_completed_vacuum_and_mop_at")
  make_room (record {
    area_id = area_id;
    lane_id = lane_id;
    enabled = enabled;
    vacuum_interval_days = vacuum_interval_days;
    vacuum_and_mop_interval_days = vacuum_and_mop_interval_days;
    preferred_mode = preferred_mode;
    priority = priority;
    skip_until = skip_until;
    last_completed_vacuum_at = last_completed_vacuum_at;
    last_completed_vacuum_and_mop_at = last_completed_vacuum_and_mop_at;
  })

-- the `data` of a plan revision's envelope
unfoldable pub revision_dump : IsoFormat → PlanRevision → Payload
revision_dump iso revision = object_of (
    ("revision_id", text revision.revision_id)
    ∷ ("created_at", dump_time iso (some revision.created_at))
    ∷ ("room_plans", list (items_of (λ p. dict (room_dump iso p)) revision.room_plans))
    ∷ [])

unfoldable pub serialize_plan_revision : IsoFormat → PlanRevision → Payload
serialize_plan_revision iso revision = envelope "plan_revision" (revision_dump iso revision)

unfoldable pub load_room_item : IsoFormat → Value → Result RoomPlan
load_room_item iso item = do fields ← object_in "room_plan" item; room_load iso fields

unfoldable pub revision_load : IsoFormat → Payload → Result PlanRevision
revision_load iso fields = do
  raw_id ← require fields "revision_id"
  revision_id ← string_of "revision_id" raw_id
  raw_created ← require fields "created_at"
  created_at ← required_time iso raw_created
  raw_rooms ← require fields "room_plans"
  items ← array_of "room_plans" raw_rooms
  room_plans ← map_items (load_room_item iso) items
  make_revision
      (record { revision_id = revision_id; created_at = created_at; room_plans = room_plans })

unfoldable pub deserialize_plan_revision : IsoFormat → Payload → Result PlanRevision
deserialize_plan_revision iso payload = do
  fields ← data_of payload "plan_revision"
  revision_load iso fields

unfoldable pub snapshot_job_dump : IsoFormat → SnapshotJob → Payload
snapshot_job_dump iso job = object_of (
    ("area_id", text job.area_id)
    ∷ ("area_name_snapshot", text job.area_name_snapshot)
    ∷ ("adapter_target_snapshot", thaw_json job.adapter_target_snapshot)
    ∷ ("mode", text (mode_value job.mode))
    ∷ ("priority", integer job.priority)
    ∷ ("due_at", dump_time iso (some job.due_at))
    ∷ [])

abbrev pub modes : List Mode
modes = Mode.vacuum ∷ Mode.vacuum_and_mop ∷ []

unfoldable pub snapshot_job_load : IsoFormat → Payload → Result SnapshotJob
snapshot_job_load iso fields = do
  raw_area ← require fields "area_id"
  area_id ← string_of "area_id" raw_area
  raw_name ← require fields "area_name_snapshot"
  area_name_snapshot ← string_of "area_name_snapshot" raw_name
  raw_target ← require fields "adapter_target_snapshot"
  target ← json_value "adapter_target_snapshot" raw_target
  raw_mode ← require fields "mode"
  mode_text ← string_of "mode" raw_mode
  mode ← member_of mode_value modes mode_text
  raw_priority ← require fields "priority"
  priority ← integer_of "priority" raw_priority
  raw_due ← require fields "due_at"
  due_at ← required_time iso raw_due
  make_snapshot_job (record {
    area_id = area_id;
    area_name_snapshot = area_name_snapshot;
    adapter_target_snapshot = target;
    mode = mode;
    priority = priority;
    due_at = due_at;
  })

unfoldable pub serialize_plan_snapshot : IsoFormat → PlanSnapshot → Payload
serialize_plan_snapshot iso snapshot = envelope "plan_snapshot" (
    object_of (
      ("plan_revision", text snapshot.plan_revision)
      ∷ ("lane_id", text snapshot.lane_id)
      ∷ ("evaluated_at", dump_time iso (some snapshot.evaluated_at))
      ∷ ("jobs", list (items_of (λ j. dict (snapshot_job_dump iso j)) snapshot.jobs))
      ∷ []))

unfoldable pub load_snapshot_item : IsoFormat → Value → Result SnapshotJob
load_snapshot_item iso item = do
  fields ← object_in "snapshot job" item
  snapshot_job_load iso fields

unfoldable pub deserialize_plan_snapshot : IsoFormat → Payload → Result PlanSnapshot
deserialize_plan_snapshot iso payload = do
  fields ← data_of payload "plan_snapshot"
  raw_revision ← require fields "plan_revision"
  plan_revision ← string_of "plan_revision" raw_revision
  raw_lane ← require fields "lane_id"
  lane_id ← string_of "lane_id" raw_lane
  raw_time ← require fields "evaluated_at"
  evaluated_at ← required_time iso raw_time
  raw_jobs ← require fields "jobs"
  items ← array_of "jobs" raw_jobs
  jobs ← map_items (load_snapshot_item iso) items
  make_snapshot (record {
    plan_revision = plan_revision;
    lane_id = lane_id;
    evaluated_at = evaluated_at;
    jobs = jobs;
  })
