-- ===== src/Safety/Moves.antt =====
-- `replace_block_state` and `replace_job_state`: what a successful call has checked and written.
use ha_vacuum_planner.Base.{
  Bool, List, Option, Result, String, [], any, arith, contains, err, false, find, incℤ, int_eq,
  nat_eq, none, not, ok, refl, some, string_eq, true, ◌&&◌, ◌==◌, ◌∷◌, ◌≡◌,
}
use ha_vacuum_planner.Models.{
  BlockState, DateTime, JobChange, JobState, QueueBlock, QueueJob, QueueLedger, block_after,
  block_guarantee_eq, block_kind_eq, block_state_eq, block_terminal_states, block_transitions,
  check_dispatch, dispatch_strategy_eq, find_block, find_job, is_terminal_block, is_terminal_job,
  job_after, job_state_eq, job_transitions, jobs_of, make_block, make_job, make_ledger, mode_eq,
  parent_of, preferred_mode_eq, put_block, put_job, replace_block_state, replace_job_state,
  validate_terminal_block_result,
}

abbrev pub with_id : String → QueueBlock → Bool
with_id id b = b.block_id == id

abbrev pub with_job_id : String → QueueJob → Bool
with_job_id id j = j.job_id == id

-- the ledger with its revision counted up and other blocks and jobs
abbrev pub next_ledger : QueueLedger → List QueueBlock → List QueueJob → QueueLedger
next_ledger l blocks jobs = record l { revision = incℤ l.revision; blocks = blocks; jobs = jobs }

pub record BlockMove (l : QueueLedger) (id : String) (s : BlockState) (at : DateTime)
    (run : Option String) (m : QueueLedger) : Type 0 where
  pub current : QueueBlock
  pub found : find (with_id id) l.blocks ≡ some current
  pub edge : contains s (block_transitions current.state) ≡ true
  pub agrees : validate_terminal_block_result s (jobs_of id l.jobs) ≡ ok tt
  pub ended :
      (contains s block_terminal_states && any (λ j. not (is_terminal_job j)) (jobs_of id l.jobs))
      ≡ false
  pub checked : make_block (block_after current s at run) ≡ ok (block_after current s at run)
  pub made :
      make_ledger (next_ledger l (put_block id (block_after current s at run) l.blocks) l.jobs)
      ≡ ok m

module _ (l : QueueLedger) (id : String) (s : BlockState) (at : DateTime) (run : Option String)
    {m : QueueLedger} (h : replace_block_state l id s at run ≡ ok m) where
  move_of : (o : Option QueueBlock) → find (with_id id) l.blocks ≡ o → BlockMove l id s at run m
  unfolding replace_block_state find_block make_block
  move_of none f = absurd (ground arith)
  move_of (some c) f = record {
    current = c;
    found = f;
    edge = ground arith;
    agrees = ground arith;
    ended = ground arith;
    checked = ground arith;
    made = ground arith;
  }

  pub replace_block_state-BlockMove : BlockMove l id s at run m
  replace_block_state-BlockMove = move_of (find (with_id id) l.blocks) refl

-- the parent of a job is not terminal and not uncertain
pub record JobMove (l : QueueLedger) (id : String) (s : JobState) (at : DateTime) (w : JobChange)
    (m : QueueLedger) : Type 0 where
  pub current : QueueJob
  pub parent : QueueBlock
  pub changed : QueueJob
  pub found : find (with_job_id id) l.jobs ≡ some current
  pub owned : find (with_id current.block_id) l.blocks ≡ some parent
  pub open_parent : is_terminal_block parent ≡ false
  pub certain_parent : (parent.state == BlockState.uncertain) ≡ false
  pub dispatchable : check_dispatch s parent current l.blocks l.jobs ≡ ok tt
  pub edge : contains s (job_transitions current.state) ≡ true
  pub confirmed :
      (s == JobState.cancelled
        && contains current.state (JobState.accepted ∷ JobState.running ∷ [])
        && not w.adapter_confirmed)
      ≡ false
  pub checked : make_job (job_after current s at w) ≡ ok changed
  pub made : make_ledger (next_ledger l l.blocks (put_job id changed l.jobs)) ≡ ok m

module _ (l : QueueLedger) (id : String) (s : JobState) (at : DateTime) (w : JobChange)
    {m : QueueLedger} (h : replace_job_state l id s at w ≡ ok m) where
  JobMove-of :
      (c : QueueJob) (q : Option QueueBlock) (r : Result QueueJob)
      → find (with_job_id id) l.jobs ≡ some c
      → find (with_id c.block_id) l.blocks ≡ q
      → make_job (job_after c s at w) ≡ r
      → JobMove l id s at w m
  unfolding replace_job_state find_job parent_of
  JobMove-of c none r f owned made = absurd (ground arith)
  JobMove-of c (some p) (err e) f owned made = absurd (ground arith)
  JobMove-of c (some p) (ok j) f owned made = record {
    current = c;
    parent = p;
    changed = j;
    found = f;
    owned = owned;
    open_parent = ground arith;
    certain_parent = ground arith;
    dispatchable = ground arith;
    edge = ground arith;
    confirmed = ground arith;
    checked = made;
    made = ground arith;
  }

  JobMove-from : (o : Option QueueJob) → find (with_job_id id) l.jobs ≡ o → JobMove l id s at w m
  unfolding replace_job_state find_job
  JobMove-from none f = absurd (ground arith)
  JobMove-from (some c) f = JobMove-of c _ _ f refl refl

  pub replace_job_state-JobMove : JobMove l id s at w m
  replace_job_state-JobMove = JobMove-from (find (with_job_id id) l.jobs) refl
