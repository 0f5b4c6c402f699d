-- ===== src/RoundTrips/Roots.antt =====
-- The round trips of a ledger and of the planner's state.
use ha_vacuum_planner.Base.{All, ok, ◌∙◌, ◌≡◌}
use ha_vacuum_planner.Models.{
  DateTime, PlannerState, QueueLedger, dict, make_revision, make_room, make_state,
}
use ha_vacuum_planner.Codec.{
  IsoFormat, array_of, block_dump, deserialize_ledger, deserialize_planner_state, get, integer_of,
  job_dump, ledger_dump, ledger_load, load_block_item, load_job_item, lookup,
  migrate_ledger_payload, migrate_planner_state_payload, object_in, object_of, require,
  revision_dump, serialize_ledger, serialize_plan_revision, serialize_planner_state, state_dump,
}
use ha_vacuum_planner.Laws.Keyed.{All-map_impl}
use ha_vacuum_planner.Laws.History.{IsValid}
use ha_vacuum_planner.RoundTrips.Readers.{
  current_version, data_of-envelope, make_ledger-version, map_items-items_of, object_in-envelope,
  optional_string-text?, time_of-dump_time,
}
use ha_vacuum_planner.RoundTrips.Plans.{deserialize-serialize_plan_revision}
use ha_vacuum_planner.RoundTrips.Ledgers.{load_block-dump, load_job-dump}

module _ (iso : IsoFormat) (law : (t : DateTime) → iso.fromisoformat (iso.isoformat t) ≡ ok t) where
  ledger_load-dump : (l : QueueLedger) → IsValid l → ledger_load iso (ledger_dump iso l) ≡ ok l
  unfolding ledger_load ledger_dump object_of require get lookup integer_of array_of
  ledger_load-dump l v =
      rw
        (
          map_items-items_of (λ b. dict (block_dump iso b)) (load_block_item iso) l.blocks
              (All-map_impl _ _ l.blocks (λ b m. load_block-dump iso law b ∙ m) v.blocks),
          map_items-items_of (λ j. dict (job_dump iso j)) (load_job_item iso) l.jobs
              (All-map_impl _ _ l.jobs (λ j m. load_job-dump iso law j m) v.jobs),
          optional_string-text? "active_block_id" l.active_block_id,
          time_of-dump_time iso law l.last_reconciled_at,
        )
        (make_ledger-version l v.made)

  deserialize-serialize_ledger :
      (l : QueueLedger) → IsValid l → deserialize_ledger iso (serialize_ledger iso l) ≡ ok l
  unfolding deserialize_ledger serialize_ledger migrate_ledger_payload
  deserialize-serialize_ledger l v =
      rw
        (
          current_version "queue_ledger" (ledger_dump iso l),
          data_of-envelope "queue_ledger" (ledger_dump iso l),
        )
        (ledger_load-dump l v)

  -- A planner's state is read back from its payload as it was, if its ledger is valid, if its plan,
  -- the rooms of the plan and the state itself pass their constructors, and if `fromisoformat` reads
  -- what `isoformat` writes.
  pub deserialize-serialize_planner_state :
      (s : PlannerState)
      → IsValid s.ledger
      → make_revision s.plan_revision ≡ ok s.plan_revision
      → All (λ p. make_room p ≡ ok p) s.plan_revision.room_plans
      → make_state s ≡ ok s
      → deserialize_planner_state iso (serialize_planner_state iso s) ≡ ok s
  unfolding deserialize_planner_state serialize_planner_state migrate_planner_state_payload
      object_of require lookup state_dump object_in serialize_plan_revision serialize_ledger
  deserialize-serialize_planner_state s v plan rooms made =
      rw
        (
          current_version "planner_state" (state_dump iso s),
          data_of-envelope "planner_state" (state_dump iso s),
          object_in-envelope "plan_revision" "plan_revision" (revision_dump iso s.plan_revision),
          deserialize-serialize_plan_revision iso law s.plan_revision plan rooms,
          object_in-envelope "ledger" "queue_ledger" (ledger_dump iso s.ledger),
          deserialize-serialize_ledger s.ledger v,
        )
        made
