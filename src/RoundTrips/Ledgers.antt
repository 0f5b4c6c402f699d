-- ===== src/RoundTrips/Ledgers.antt =====
-- The round trips of blocks and jobs.
use ha_vacuum_planner.Base.{All, List, String, [], ok, refl, ◌∷◌, ◌≡◌}
use ha_vacuum_planner.Models.{
  DateTime, QueueBlock, QueueJob, dict, make_block, make_job, text, thaw_json,
}
use ha_vacuum_planner.Codec.{
  IsoFormat, array_of, block_dump, block_load, get, integer_of, job_dump, job_load, load_block_item,
  load_job_item, lookup, object_in, object_of, require, string_of,
}
use ha_vacuum_planner.Laws.Constructors.{make_job-eq, same_checks, with_target}
use ha_vacuum_planner.RoundTrips.Targets.{freeze_json-thaw_json, frozen_target-read}
use ha_vacuum_planner.RoundTrips.Readers.{
  block_state-value, guarantee-value, job_state-value, load_kind-value, map_items-items_of,
  mode-value, optional_string-text?, required_time-dump_time, strategy-value, time_of-dump_time,
}

all_text : (name : String) (ids : List String) → All (λ id. string_of name (text id) ≡ ok id) ids
unfolding string_of
all_text name [] = tt
all_text name (id ∷ ids) = (refl, all_text name ids)

make_job-thaw_json :
    (j : QueueJob)
    → make_job j ≡ ok j
    → make_job (with_target j (thaw_json j.adapter_target_snapshot)) ≡ ok j
unfolding make_job
make_job-thaw_json j h =
    let (same, frozen, texts, place, life) = make_job-eq j h in
    let (texts', place', life') = same_checks j (thaw_json j.adapter_target_snapshot) in
    rw
      (
        texts',
        texts,
        freeze_json-thaw_json j.adapter_target_snapshot,
        frozen,
        place',
        place,
        life',
        life,
      )
      refl

module _ (iso : IsoFormat) (law : (t : DateTime) → iso.fromisoformat (iso.isoformat t) ≡ ok t) where
  pub load_block-dump :
      (b : QueueBlock) → load_block_item iso (dict (block_dump iso b)) ≡ make_block b
  unfolding load_block_item block_load block_dump object_of object_in require get lookup string_of
      array_of
  load_block-dump b =
      rw
        (
          load_kind-value b.kind,
          required_time-dump_time iso law b.created_at,
          time_of-dump_time iso law b.sealed_at,
          block_state-value b.state,
          map_items-items_of (λ id. text id) (string_of "job_id") b.job_ids
              (all_text "job_id" b.job_ids),
          strategy-value b.dispatch_strategy,
          guarantee-value b.guarantee,
          time_of-dump_time iso law b.committed_at,
          time_of-dump_time iso law b.completed_at,
          optional_string-text? "adapter_run_id" b.adapter_run_id,
        )
        refl

  pub load_job-dump :
      (j : QueueJob) → make_job j ≡ ok j → load_job_item iso (dict (job_dump iso j)) ≡ ok j
  unfolding load_job_item job_load job_dump object_of object_in require get lookup string_of
      integer_of
  load_job-dump j h =
      let (same, frozen, texts, place, life) = make_job-eq j h in
      let (read, again) =
        frozen_target-read "adapter_target_snapshot" j.adapter_target_snapshot frozen in
      rw
        (
          read,
          mode-value j.mode,
          job_state-value j.state,
          required_time-dump_time iso law j.planned_at,
          optional_string-text? "adapter_token" j.adapter_token,
          time_of-dump_time iso law j.sent_at,
          time_of-dump_time iso law j.started_at,
          time_of-dump_time iso law j.finished_at,
          optional_string-text? "error_code" j.error_code,
          optional_string-text? "error_detail" j.error_detail,
        )
        (make_job-thaw_json j h)
