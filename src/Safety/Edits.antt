-- ===== src/Safety/Edits.antt =====
-- An edit of a valid ledger: the blocks and jobs with one identity are replaced by a new value, the
-- revision is counted up, and the constructors accept the result.
use Prim.Native.Nat.{max}
use ha_vacuum_planner.Base.{
  All, Bool, Bool-cases, List, Option, String, [], any, ap, arith, distinct, false, find,
  has_duplicates-eq-distinct, incℤ, inl, inr, int_eq, nat_eq, not, ok, refl, select, some,
  string_eq, subst, sym, true, ◌==◌, ◌∙◌, ◌∷◌, ◌≡◌, ◌≤◌,
}
use ha_vacuum_planner.Models.{
  DateTime, QueueBlock, QueueJob, QueueLedger, block_guarantee_eq, block_ids_of, block_kind_eq,
  block_state_eq, dispatch_strategy_eq, job_ids_of, job_state_eq, jobs_of, make_block, make_job,
  make_ledger, mode_eq, preferred_mode_eq, put_block, put_job, validate_ledger,
  validate_ledger_references, validate_unique_queue_ids,
}
use ha_vacuum_planner.Queue.{change_jobs_of}
use ha_vacuum_planner.Laws.Keyed.{find-only, replace_where-All}
use ha_vacuum_planner.Laws.Constructors.{make_job-eq, make_job_idem, make_ledger-eq}
use ha_vacuum_planner.Laws.History.{
  Extends, Extends-replace_where, Follows, IsValid, KeepsBlock, KeepsBlock-refl, KeepsJob,
  KeepsJob-refl, length-replace_where, leℤ-incℤ, open_count, open_count-Extends,
}
use ha_vacuum_planner.Safety.Moves.{with_id, with_job_id}

-- The identities of a ledger that its constructor has accepted are distinct.
pub distinct_ids :
    (l : QueueLedger) {m : QueueLedger}
    → make_ledger l ≡ ok m
    → (distinct (block_ids_of l.blocks) ≡ true) × (distinct (job_ids_of l.jobs) ≡ true)
unfolding make_ledger validate_ledger validate_ledger_references validate_unique_queue_ids
distinct_ids l h = ground (
  arith,
  has_duplicates-eq-distinct (block_ids_of l.blocks),
  has_duplicates-eq-distinct (job_ids_of l.jobs),
)

-- A block is replaced: the only one with its identity.
pub put_block-Extends :
    (l : QueueLedger) (id : String) {b : QueueBlock} (c : QueueBlock)
    → make_ledger l ≡ ok l
    → find (with_id id) l.blocks ≡ some b
    → KeepsBlock b c
    → Extends KeepsBlock l.blocks (put_block id c l.blocks)
unfolding put_block
put_block-Extends l id {b} c made found keeps =
    Extends-replace_where KeepsBlock KeepsBlock-refl (with_id id) c l.blocks (
      find-only (λ b. b.block_id) (λ b. KeepsBlock b c) id l.blocks (distinct_ids l made).0 found
        keeps)

pub put_job-Extends :
    (l : QueueLedger) (id : String) {j : QueueJob} (k : QueueJob)
    → make_ledger l ≡ ok l
    → find (with_job_id id) l.jobs ≡ some j
    → KeepsJob j k
    → Extends KeepsJob l.jobs (put_job id k l.jobs)
unfolding put_job
put_job-Extends l id {j} k made found keeps =
    Extends-replace_where KeepsJob KeepsJob-refl (with_job_id id) k l.jobs
      (find-only (λ j. j.job_id) (λ j. KeepsJob j k) id l.jobs (distinct_ids l made).1 found keeps)

pub put_block-lanes :
    (l : QueueLedger) (id : String) {b : QueueBlock} (c : QueueBlock)
    → make_ledger l ≡ ok l
    → find (with_id id) l.blocks ≡ some b
    → KeepsBlock b c
    → (lane : String) → open_count lane (put_block id c l.blocks) ≤ max 1 (open_count lane l.blocks)
unfolding put_block
put_block-lanes l id {b} c made found keeps lane = omega (
  arith,
  open_count-Extends lane l.blocks (put_block id c l.blocks)
      (put_block-Extends l id c made found keeps)
      (sym (length-replace_where (with_id id) c l.blocks)),
)

-- The ledger after an edit follows the one before.
pub Follows-edit :
    (l m : QueueLedger) {n : QueueLedger}
    → m.revision ≡ incℤ l.revision
    → m.active_block_id ≡ l.active_block_id
    → Extends KeepsBlock l.blocks m.blocks
    → Extends KeepsJob l.jobs m.jobs
    → ((lane : String) → open_count lane m.blocks ≤ max 1 (open_count lane l.blocks))
    → All (λ b. make_block b ≡ ok b) m.blocks
    → All (λ j. make_job j ≡ ok j) m.jobs
    → make_ledger m ≡ ok n
    → Follows l n
Follows-edit l m revision active blocks jobs lanes blocks_made jobs_made made =
    subst (λ x. Follows l x) (sym (make_ledger-eq m made))
      (record {
        revision = rw revision (leℤ-incℤ l.revision);
        active_block_id = active;
        blocks = blocks;
        jobs = jobs;
        lanes = lanes;
        valid = record {
          made = made ∙ ap ok (make_ledger-eq m made);
          blocks = blocks_made;
          jobs = jobs_made;
        };
      })

-- The constructor keeps what it is given, once the target is frozen already.
pub make_job-frozen :
    (j k : QueueJob) {c : QueueJob}
    → make_job j ≡ ok j
    → k.adapter_target_snapshot ≡ j.adapter_target_snapshot
    → make_job k ≡ ok c
    → c ≡ k
make_job-frozen j k {c} old same new = ground (arith, make_job-eq j old, make_job-eq k new)

-- One block and some jobs are replaced.
pub Follows-batch :
    (l : QueueLedger) (id : String) (b c : QueueBlock) (jobs : List QueueJob)
    (reconciled : Option DateTime) {m : QueueLedger}
    → IsValid l
    → find (with_id id) l.blocks ≡ some b
    → KeepsBlock b c
    → make_block c ≡ ok c
    → Extends KeepsJob l.jobs jobs × All (λ j. make_job j ≡ ok j) jobs
    → make_ledger (record l {
      revision = incℤ l.revision;
      blocks = put_block id c l.blocks;
      jobs = jobs;
      last_reconciled_at = reconciled;
    })
      ≡ ok m
    → Follows l m
unfolding put_block
Follows-batch l id b c jobs reconciled v found keeps checked (kept, jobs_made) made =
    Follows-edit l
      (record l {
        revision = incℤ l.revision;
        blocks = put_block id c l.blocks;
        jobs = jobs;
        last_reconciled_at = reconciled;
      })
      refl refl (put_block-Extends l id c v.made found keeps) kept
      (put_block-lanes l id c v.made found keeps)
      (replace_where-All (λ b. make_block b ≡ ok b) (with_id id) c l.blocks checked v.blocks)
      jobs_made made

module _ (id : String) (Q : QueueJob → Bool) (change : QueueJob → QueueJob)
    (keeps : (j : QueueJob) → Q j ≡ true → KeepsJob j (change j)) where
  -- The jobs of a block are changed together, if all of them have the state that `Q` asks for.
  pub change_jobs_of-Extends :
      (js ks : List QueueJob)
      → All (λ j. make_job j ≡ ok j) js
      → any (λ j. not (Q j)) (jobs_of id js) ≡ false
      → change_jobs_of id change js ≡ ok ks
      → Extends KeepsJob js ks × All (λ j. make_job j ≡ ok j) ks
  unfolding change_jobs_of jobs_of select any
  change_jobs_of-Extends [] ks made q h =
      (tt, subst (All (λ j. make_job j ≡ ok j)) {x = []} (ground arith) tt)
  change_jobs_of-Extends (j ∷ js) [] made q h = absurd (ground arith)
  change_jobs_of-Extends (j ∷ js) (k ∷ ks) made q h = elim (Bool-cases (j.block_id == id)) [
    | inl e ↦
        let kept = keeps j (ground arith) in
        let new : make_job (change j) ≡ ok k = ground arith in
        let same : k ≡ change j =
          make_job-frozen j (change j) made.0 kept.adapter_target_snapshot new in
        let (rest, rest_made) = change_jobs_of-Extends js ks made.1 (ground arith) (ground arith) in
        (
          (subst (λ x. KeepsJob j x) (sym same) kept, rest),
          (make_job_idem (change j) new, rest_made),
        )
    | inr e ↦
        let same : j ≡ k = ground arith in
        let (rest, rest_made) = change_jobs_of-Extends js ks made.1 (ground arith) (ground arith) in
        (
          (subst (λ x. KeepsJob j x) same (KeepsJob-refl j), rest),
          (subst (λ x. make_job x ≡ ok x) same made.0, rest_made),
        )
  ]
