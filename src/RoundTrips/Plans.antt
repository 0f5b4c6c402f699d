-- ===== src/RoundTrips/Plans.antt =====
-- The round trips of rooms and plan revisions.
use ha_vacuum_planner.Base.{All, List, ok, refl, ◌∙◌, ◌≡◌}
use ha_vacuum_planner.Models.{DateTime, PlanRevision, RoomPlan, dict, make_revision, make_room}
use ha_vacuum_planner.Codec.{
  IsoFormat, array_of, boolean_of, deserialize_plan_revision, get, integer_of, load_room_item,
  lookup, object_in, object_of, require, revision_dump, revision_load, room_dump, room_load,
  serialize_plan_revision, string_of,
}
use ha_vacuum_planner.Laws.Keyed.{All-map_impl}
use ha_vacuum_planner.RoundTrips.Readers.{
  data_of-envelope, load_preferred_mode-value, map_items-items_of, optional_integer-integer?,
  required_time-dump_time, time_of-dump_time,
}

module _ (iso : IsoFormat) (law : (t : DateTime) → iso.fromisoformat (iso.isoformat t) ≡ ok t) where
  load_room-dump : (p : RoomPlan) → load_room_item iso (dict (room_dump iso p)) ≡ make_room p
  unfolding load_room_item room_load room_dump object_of object_in require get lookup string_of
      boolean_of integer_of
  load_room-dump p =
      rw
        (
          load_preferred_mode-value p.preferred_mode,
          optional_integer-integer? "vacuum_and_mop_interval_days" p.vacuum_and_mop_interval_days,
          time_of-dump_time iso law p.skip_until,
          time_of-dump_time iso law p.last_completed_vacuum_at,
          time_of-dump_time iso law p.last_completed_vacuum_and_mop_at,
        )
        refl

  load_rooms :
      (ps : List RoomPlan)
      → All (λ p. make_room p ≡ ok p) ps
      → All (λ p. load_room_item iso (dict (room_dump iso p)) ≡ ok p) ps
  load_rooms ps h = All-map_impl _ _ ps (λ p m. load_room-dump p ∙ m) h

  -- A plan revision that its constructors accept is read back from its payload as it was, if
  -- `fromisoformat` reads what `isoformat` writes.
  pub deserialize-serialize_plan_revision :
      (r : PlanRevision)
      → make_revision r ≡ ok r
      → All (λ p. make_room p ≡ ok p) r.room_plans
      → deserialize_plan_revision iso (serialize_plan_revision iso r) ≡ ok r
  unfolding deserialize_plan_revision serialize_plan_revision revision_load revision_dump object_of
      require lookup string_of array_of
  deserialize-serialize_plan_revision r made rooms =
      rw
        (
          data_of-envelope "plan_revision" (revision_dump iso r),
          required_time-dump_time iso law r.created_at,
          map_items-items_of (λ p. dict (room_dump iso p)) (load_room_item iso) r.room_plans
              (load_rooms r.room_plans rooms),
        )
        made
