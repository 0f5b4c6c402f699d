-- ===== src/Rules/Batches.antt =====
-- `begin_native_batch_commit` and `fail_block_commit`: all jobs of the block, or none.
use mathlib.Core.Path.{ap₂}
use ha_vacuum_planner.Base.{
  All, Bool-cases, List, Result, String, [], any, ap, arith, err, false, if◌then◌else◌, incℤ, inl,
  inr, int_eq, map, nat_eq, not, ok, refl, select, some, string_eq, subst, ◌==◌, ◌∙◌, ◌∷◌, ◌≡◌,
}
use ha_vacuum_planner.Models.{
  BlockState, DateTime, DispatchStrategy, JobState, QueueBlock, QueueJob, QueueLedger,
  block_guarantee_eq, block_kind_eq, block_state_eq, dispatch_strategy_eq, find_block, job_state_eq,
  jobs_of, make_block, make_job, make_ledger, mode_eq, preferred_mode_eq, put_block,
}
use ha_vacuum_planner.Queue.{begin_native_batch_commit, change_jobs_of, is_earlier_open}
use ha_vacuum_planner.Laws.Constructors.{make_job-eq, with_target}
use ha_vacuum_planner.Laws.History.{IsValid}

-- A changed job that its constructor accepts is the changed job, as its target is frozen already.
make_job-changed :
    (j c : QueueJob) {k : QueueJob}
    → make_job j ≡ ok j
    → c.adapter_target_snapshot ≡ j.adapter_target_snapshot
    → make_job c ≡ ok k
    → k ≡ c
make_job-changed j c {k} valid same h =
    let (kept, frozen, texts, place, life) = make_job-eq c h in
    let (kept', frozen', texts', place', life') = make_job-eq j valid in
    let target : k.adapter_target_snapshot ≡ c.adapter_target_snapshot =
      ground (arith, frozen, frozen', same) in
    kept ∙ ap (with_target c) target

abbrev pub changed_of : String → (QueueJob → QueueJob) → QueueJob → QueueJob
changed_of id change j = if j.block_id == id then change j else j

change_jobs_of-map :
    (id : String) (change : QueueJob → QueueJob) (js ks : List QueueJob)
    → ((j : QueueJob) → (change j).adapter_target_snapshot ≡ j.adapter_target_snapshot)
    → All (λ j. make_job j ≡ ok j) js
    → change_jobs_of id change js ≡ ok ks
    → ks ≡ map (changed_of id change) js
unfolding change_jobs_of
change_jobs_of-map id change [] [] same valid h = refl
change_jobs_of-map id change [] (k ∷ ks) same valid h = absurd (ground arith)
change_jobs_of-map id change (j ∷ js) [] same valid h = elim (Bool-cases (j.block_id == id)) [
  | inl e ↦ absurd (ground arith)
  | inr e ↦ absurd (ground arith)
]
change_jobs_of-map id change (j ∷ js) (k ∷ ks) same valid h = elim (Bool-cases (j.block_id == id)) [
  | inl e ↦ rw e (
      ap₂ ◌∷◌ (make_job-changed j (change j) {k = k} valid.0 (same j) (ground arith))
        (change_jobs_of-map id change js ks same valid.1 (ground arith)))
  | inr e ↦
      rw e (ap₂ ◌∷◌ (ground arith) (change_jobs_of-map id change js ks same valid.1 (ground arith)))
]

jobs_of-pending :
    (id : String) (js : List QueueJob)
    → any (λ j. not (j.state == JobState.pending)) (jobs_of id js) ≡ false
    → All (λ j. j.block_id ≡ id → j.state ≡ JobState.pending) js
unfolding any jobs_of select
jobs_of-pending id [] h = tt
jobs_of-pending id (j ∷ js) h = elim (Bool-cases (j.block_id == id)) [
  | inl e ↦ (
    λ b. ground (arith, job_state_eq.beq_iff j.state JobState.pending),
    jobs_of-pending id js (ground arith),
  )
  | inr e ↦ (
    λ b. absurd (ground (arith, string_eq.beq_iff j.block_id id)),
    jobs_of-pending id js (ground arith),
  )
]

-- what a batch commit writes into a job of the block
abbrev pub sent_job : DateTime → QueueJob → QueueJob
sent_job at j = record j {
  state = JobState.dispatching;
  attempt = incℤ j.attempt;
  sent_at = some at;
}

-- The block `id` of `l` was sealed and the only open one that was created no later in its lane, its
-- jobs were pending, and in `m` they are all sent and the block is committing.
pub record SendsBatch (l : QueueLedger) (id : String) (at : DateTime) (m : QueueLedger)
    : Type 0 where
  pub block : QueueBlock
  pub found : find_block l.blocks id ≡ ok block
  pub was_sealed : block.state ≡ BlockState.sealed
  pub by_batch : block.dispatch_strategy ≡ DispatchStrategy.native_batch
  pub first : any (is_earlier_open block) l.blocks ≡ false
  pub pending : All (λ j. j.block_id ≡ id → j.state ≡ JobState.pending) l.jobs
  pub blocks : m.blocks ≡ put_block id (record block { state = BlockState.committing }) l.blocks
  pub jobs : m.jobs ≡ map (changed_of id (sent_job at)) l.jobs
  pub revision : m.revision ≡ incℤ l.revision

-- A batch commit that begins in a valid ledger sends all jobs of the block at once: the block was a
-- sealed native batch with pending jobs, behind no other open block of its lane that was created no
-- later; it is committing now, each of its jobs is dispatching with one more attempt and the time of
-- sending, and no other block or job has changed.
pub begin_native_batch_commit-SendsBatch :
    (l : QueueLedger) (id : String) (at : DateTime) {m : QueueLedger}
    → IsValid l
    → begin_native_batch_commit l id at ≡ ok m
    → SendsBatch l id at m
unfolding begin_native_batch_commit make_block make_ledger
begin_native_batch_commit-SendsBatch l id at {m} v h =
    by_parts (find_block l.blocks id) refl (change_jobs_of id (sent_job at) l.jobs) refl
  where
    by_parts :
        (b : Result QueueBlock)
        → find_block l.blocks id ≡ b
        → (r : Result (List QueueJob)) → change_jobs_of id (sent_job at) l.jobs ≡ r
        → SendsBatch l id at m
    by_parts (err e) f r g = absurd (ground arith)
    by_parts (ok b) f (err e) g = absurd (ground arith)
    by_parts (ok b) f (ok js) g = record {
      block = b;
      found = f;
      was_sealed = ground (arith, block_state_eq.beq_iff b.state BlockState.sealed);
      by_batch =
          ground
            (arith, dispatch_strategy_eq.beq_iff b.dispatch_strategy DispatchStrategy.native_batch);
      first = ground arith;
      pending = jobs_of-pending id l.jobs (ground arith);
      blocks = ground arith;
      jobs =
          subst (λ x. x ≡ map (changed_of id (sent_job at)) l.jobs) {x = js} (ground arith)
            (change_jobs_of-map id (sent_job at) l.jobs js (λ j. refl) v.jobs g);
      revision = ground arith;
    }
