-- ===== src/Safety/Histories.antt =====
-- Every command keeps the ledger valid and its history.
use ha_vacuum_planner.Base.{
  Option, String, arith, contains, int_eq, nat_eq, ok, refl, string_eq, subst, sym, true, ◌≡◌,
}
use ha_vacuum_planner.Models.{
  BlockState, DateTime, JobChange, JobState, QueueBlock, QueueJob, QueueLedger, block_after,
  block_guarantee_eq, block_kind_eq, block_state_eq, block_transitions, dispatch_strategy_eq,
  job_after, job_state_eq, job_transitions, make_block, make_job, mode_eq, preferred_mode_eq,
  put_block, put_job, replace_block_state, replace_job_state,
}
use ha_vacuum_planner.Laws.Keyed.{find-All, replace_where-All}
use ha_vacuum_planner.Laws.Constructors.{make_job_idem}
use ha_vacuum_planner.Laws.History.{
  Extends-refl, Follows, IsValid, KeepsBlock, KeepsBlock-refl, KeepsJob, KeepsJob-refl,
}
use ha_vacuum_planner.Safety.Moves.{
  next_ledger, replace_block_state-BlockMove, replace_job_state-JobMove, with_id, with_job_id,
}
use ha_vacuum_planner.Safety.Edits.{
  Follows-edit, make_job-frozen, put_block-Extends, put_block-lanes, put_job-Extends,
}

block_after-KeepsBlock :
    (b : QueueBlock) (s : BlockState) (at : DateTime) (run : Option String)
    → contains s (block_transitions b.state) ≡ true
    → KeepsBlock b (block_after b s at run)
unfolding contains
block_after-KeepsBlock b s at run edge = ground arith

-- A block transition leaves all but the state and the times of its block as it was, and touches no
-- block that has ended.
pub replace_block_state-Follows :
    (l : QueueLedger) (id : String) (s : BlockState) (at : DateTime) (run : Option String)
    {m : QueueLedger}
    → IsValid l
    → replace_block_state l id s at run ≡ ok m
    → Follows l m
unfolding put_block
replace_block_state-Follows l id s at run v h =
    let move = replace_block_state-BlockMove l id s at run h in
    let c : QueueBlock = block_after move.current s at run in
    Follows-edit l (next_ledger l (put_block id c l.blocks) l.jobs) refl refl
      (put_block-Extends l id c v.made move.found
        (block_after-KeepsBlock move.current s at run move.edge))
      (Extends-refl KeepsJob KeepsJob-refl l.jobs)
      (put_block-lanes l id c v.made move.found
        (block_after-KeepsBlock move.current s at run move.edge))
      (replace_where-All (λ b. make_block b ≡ ok b) (with_id id) c l.blocks move.checked v.blocks)
      v.jobs move.made

-- The transition does not write the target.
job_after-target :
    (j : QueueJob) (s : JobState) (at : DateTime) (w : JobChange)
    → (job_after j s at w).adapter_target_snapshot ≡ j.adapter_target_snapshot
unfolding job_after
job_after-target j s at w = ground arith

job_after-KeepsJob :
    (j : QueueJob) (s : JobState) (at : DateTime) (w : JobChange)
    → contains s (job_transitions j.state) ≡ true
    → KeepsJob j (job_after j s at w)
unfolding contains job_after
job_after-KeepsJob j s at w edge = ground arith

-- A job transition leaves the plan of its job as it was, and touches no job that has ended for good.
pub replace_job_state-Follows :
    (l : QueueLedger) (id : String) (s : JobState) (at : DateTime) (w : JobChange) {m : QueueLedger}
    → IsValid l
    → replace_job_state l id s at w ≡ ok m
    → Follows l m
unfolding put_job
replace_job_state-Follows l id s at w v h =
    let move = replace_job_state-JobMove l id s at w h in
    let old : make_job move.current ≡ ok move.current =
      find-All (λ j. make_job j ≡ ok j) (with_job_id id) l.jobs move.found v.jobs in
    let same : move.changed ≡ job_after move.current s at w =
      make_job-frozen move.current (job_after move.current s at w) old
        (job_after-target move.current s at w) move.checked in
    Follows-edit l (next_ledger l l.blocks (put_job id move.changed l.jobs)) refl refl
      (Extends-refl KeepsBlock KeepsBlock-refl l.blocks)
      (put_job-Extends l id move.changed v.made move.found (
        subst (λ k. KeepsJob move.current k) (sym same)
          (job_after-KeepsJob move.current s at w move.edge)))
      (λ lane. omega arith) v.blocks
      (replace_where-All (λ j. make_job j ≡ ok j) (with_job_id id) move.changed l.jobs
        (make_job_idem (job_after move.current s at w) move.checked) v.jobs)
      move.made
