-- ===== src/Rules/Dispatch.antt =====
-- `_validate_job_dispatch`: no job is sent before its turn.
use ha_vacuum_planner.Base.{
  All, Bool, List, Option, String, [], any, ap, arith, contains, distinct, false, find, int_eq,
  list_beq, ltℤ, nat_eq, none, not, ok, refl, some, string_eq, subst, take_before, true, ◌&&◌, ◌++◌,
  ◌==◌, ◌∙◌, ◌∷◌, ◌≡◌, ◌⊎◌,
}
use ha_vacuum_planner.Models.{
  BlockState, DateTime, DispatchStrategy, JobChange, JobState, QueueBlock, QueueJob, QueueLedger,
  block_beq, block_guarantee_eq, block_ids_of, block_kind_eq, block_state_eq, dispatch_strategy_eq,
  is_terminal_block, is_terminal_job, job_state_eq, job_transitions, make_ledger, mode_eq,
  option_beq, preferred_mode_eq, replace_job_state, time_beq, validate_job_dispatch,
}
use ha_vacuum_planner.Laws.Keyed.{All-map_impl}
use ha_vacuum_planner.Safety.Moves.{replace_job_state-JobMove, with_id, with_job_id}
use ha_vacuum_planner.Safety.Edits.{distinct_ids}

any-All : {A : Type 0} (p : A → Bool) (xs : List A) → any p xs ≡ false → All (λ x. p x ≡ false) xs
unfolding any
any-All p [] h = tt
any-All p (x ∷ xs) h = (ground arith, any-All p xs (ground arith))

list_beq_refl :
    {A : Type 0} (beq : A → A → Bool) (xs : List A)
    → ((a : A) → beq a a ≡ true)
    → list_beq beq xs xs ≡ true
unfolding list_beq
list_beq_refl beq [] h = refl
list_beq_refl beq (x ∷ xs) h = ground (arith, h x, list_beq_refl beq xs h)

option_beq_refl :
    {A : Type 0} (beq : A → A → Bool) (o : Option A)
    → ((a : A) → beq a a ≡ true)
    → option_beq beq o o ≡ true
option_beq_refl beq none h = refl
option_beq_refl beq (some a) h = h a

time_beq_refl : (t : DateTime) → time_beq t t ≡ true
time_beq_refl t = ground arith

string_beq_refl : (s : String) → string_eq.beq s s ≡ true
string_beq_refl s = (string_eq.beq_iff s s).1 refl

block_beq_refl : (b : QueueBlock) → block_beq b b ≡ true
unfolding block_beq
block_beq_refl b = ground (
  arith,
  string_beq_refl b.block_id,
  string_beq_refl b.lane_id,
  string_beq_refl b.plan_revision,
  string_beq_refl b.idempotency_key,
  (block_kind_eq.beq_iff b.kind b.kind).1 refl,
  (block_state_eq.beq_iff b.state b.state).1 refl,
  (dispatch_strategy_eq.beq_iff b.dispatch_strategy b.dispatch_strategy).1 refl,
  (block_guarantee_eq.beq_iff b.guarantee b.guarantee).1 refl,
  list_beq_refl string_eq.beq b.job_ids string_beq_refl,
  option_beq_refl time_beq b.sealed_at time_beq_refl,
  option_beq_refl time_beq b.committed_at time_beq_refl,
  option_beq_refl time_beq b.completed_at time_beq_refl,
  option_beq_refl string_eq.beq b.adapter_run_id string_beq_refl,
)

block_beq-ids : (b c : QueueBlock) → block_beq b c ≡ true → (b.block_id == c.block_id) ≡ true
unfolding block_beq
block_beq-ids b c h = ground arith

contains-middle :
    (b : QueueBlock) (xs ys : List QueueBlock) (id : String)
    → (id == b.block_id) ≡ true
    → contains id (block_ids_of (xs ++ (b ∷ ys))) ≡ true
unfolding contains
contains-middle b [] ys id h = ground arith
contains-middle b (x ∷ xs) ys id h = ground (arith, contains-middle b xs ys id h)

-- In a list of distinct blocks, what stands before the first block equal to `b` stands before `b`.
take_before-append :
    (b : QueueBlock) (xs ys : List QueueBlock)
    → distinct (block_ids_of (xs ++ (b ∷ ys))) ≡ true
    → take_before (λ c. block_beq c b) (xs ++ (b ∷ ys)) ≡ xs
unfolding take_before distinct
take_before-append b [] ys d = ground (arith, block_beq_refl b)
take_before-append b (x ∷ xs) ys d =
    ground
      (arith, take_before-append b xs ys, block_beq-ids x b, contains-middle b xs ys x.block_id)

-- What holds of the ledger when a job may be sent.
pub record MayDispatch (l : QueueLedger) (job : QueueJob) (parent : QueueBlock) : Type 0 where
  pub committed : (parent.state ≡ BlockState.committed) ⊎ (parent.state ≡ BlockState.running)
  -- every block of the lane that stands before the job's block has ended
  pub earlier :
      (before behind : List QueueBlock)
      → l.blocks ≡ before ++ (parent ∷ behind)
      → All (λ b. (b.lane_id == parent.lane_id) ≡ true → is_terminal_block b ≡ true) before
  -- in a sequential block, the jobs before it have ended, and those behind it have not been touched
  pub previous :
      parent.dispatch_strategy ≡ DispatchStrategy.planner_sequential
      → All
          (λ j.
            (j.block_id == parent.block_id) ≡ true
            → ltℤ j.position job.position ≡ true
            → is_terminal_job j ≡ true)
          l.jobs
  pub later :
      parent.dispatch_strategy ≡ DispatchStrategy.planner_sequential
      → All
          (λ j.
            (j.block_id == parent.block_id) ≡ true
            → ltℤ job.position j.position ≡ true
            → j.state ≡ JobState.pending)
          l.jobs

-- The check passes only where a job may be sent.
validate_job_dispatch-MayDispatch :
    (l : QueueLedger) (job : QueueJob) (parent : QueueBlock)
    → make_ledger l ≡ ok l
    → validate_job_dispatch parent job l.blocks l.jobs ≡ ok tt
    → MayDispatch l job parent
unfolding validate_job_dispatch contains
validate_job_dispatch-MayDispatch l job parent made h = record {
  committed = ground arith;
  earlier = λ before behind e.
      All-map_impl _ _ before (λ b k same. ground arith)
        (subst (All (λ b. (b.lane_id == parent.lane_id && not (is_terminal_block b)) ≡ false))
          (ap (take_before (λ c. block_beq c parent)) e
            ∙ take_before-append parent before behind
                (subst (λ bs. distinct (block_ids_of bs) ≡ true) e (distinct_ids l made).0))
          (any-All _ (take_before (λ c. block_beq c parent) l.blocks) (ground arith)));
  previous = λ s.
      All-map_impl _ _ l.jobs (λ j k same lt. ground arith)
        (any-All
          (λ j.
            j.block_id == parent.block_id && ltℤ j.position job.position && not (is_terminal_job j))
          l.jobs (ground arith));
  later = λ s.
      All-map_impl _ _ l.jobs (λ j k same lt. ground arith)
        (any-All
          (λ j.
            j.block_id == parent.block_id
            && ltℤ job.position j.position
            && not (j.state == JobState.pending))
          l.jobs (ground arith));
}

-- A transition of a job to `dispatching` succeeds only for a pending or failed job that may be sent:
-- its block is committed or running, every earlier block of its lane has ended and, in a sequential
-- block, the jobs before it have ended and those behind it are pending.
pub replace_job_state-MayDispatch :
    (l : QueueLedger) (id : String) (at : DateTime) (w : JobChange) {m : QueueLedger}
    → make_ledger l ≡ ok l
    → replace_job_state l id JobState.dispatching at w ≡ ok m
    → (job : QueueJob) × (parent : QueueBlock) × (find (with_job_id id) l.jobs ≡ some job)
      × (find (with_id job.block_id) l.blocks ≡ some parent)
      × ((job.state ≡ JobState.pending) ⊎ (job.state ≡ JobState.failed))
      × MayDispatch l job parent
unfolding contains
replace_job_state-MayDispatch l id at w made h =
    let move = replace_job_state-JobMove l id JobState.dispatching at w h in
    (
      move.current,
      move.parent,
      move.found,
      move.owned,
      sendable move.current move.edge,
      validate_job_dispatch-MayDispatch l move.current move.parent made move.dispatchable,
    )
  where
    sendable :
        (j : QueueJob)
        → contains JobState.dispatching (job_transitions j.state) ≡ true
        → (j.state ≡ JobState.pending) ⊎ (j.state ≡ JobState.failed)
    sendable j e = ground arith
