-- ===== src/Safety/Batches.antt =====
-- The commands that change a block together with all of its jobs keep the ledger's history.
use ha_vacuum_planner.Base.{
  List, Option, Result, String, arith, contains, err, find, incℤ, int_eq, nat_eq, none, ok, refl,
  some, string_eq, true, ◌==◌, ◌≡◌,
}
use ha_vacuum_planner.Models.{
  BlockState, DateTime, JobState, QueueBlock, QueueJob, QueueLedger, block_guarantee_eq,
  block_kind_eq, block_state_eq, dispatch_strategy_eq, find_block, job_state_eq, make_block,
  mode_eq, preferred_mode_eq,
}
use ha_vacuum_planner.Queue.{
  begin_native_batch_commit, change_jobs_of, fail_block_commit, quarantine_block_dispatch,
}
use ha_vacuum_planner.Laws.History.{Follows, IsValid, KeepsJob}
use ha_vacuum_planner.Safety.Moves.{with_id}
use ha_vacuum_planner.Safety.Edits.{Follows-batch, change_jobs_of-Extends}

pending_fails :
    (at : DateTime) (code : String) (detail : Option String) (j : QueueJob)
    → (j.state == JobState.pending) ≡ true
    → KeepsJob j (record j {
      state = JobState.failed;
      finished_at = some at;
      error_code = some code;
      error_detail = detail;
    })
unfolding contains
pending_fails at code detail j h = ground arith

module _ (l : QueueLedger) (id : String) (at : DateTime) (code : String) (detail : Option String)
    {m : QueueLedger} (v : IsValid l) (h : fail_block_commit l id at code detail ≡ ok m) where
  fail_of :
      (o : Option QueueBlock) (r : Result (List QueueJob))
      → find (with_id id) l.blocks ≡ o
      → change_jobs_of id
          (λ j. record j {
            state = JobState.failed;
            finished_at = some at;
            error_code = some code;
            error_detail = detail;
          })
          l.jobs
        ≡ r
      → Follows l m
  unfolding fail_block_commit find_block make_block contains
  fail_of none r f c = absurd (ground arith)
  fail_of (some b) (err e) f c = absurd (ground arith)
  fail_of (some b) (ok js) f c =
      Follows-batch l id b (record b { state = BlockState.failed }) js l.last_reconciled_at v f
        (ground arith) (ground arith)
        (change_jobs_of-Extends id (λ j. j.state == JobState.pending) _
          (pending_fails at code detail) l.jobs js v.jobs (ground arith) c)
        (ground arith)

  -- A failed commit ends its block and its unsent jobs, and changes nothing else.
  pub fail_block_commit-Follows : Follows l m
  fail_block_commit-Follows = fail_of _ _ refl refl

pending_dispatches :
    (at : DateTime) (j : QueueJob)
    → (j.state == JobState.pending) ≡ true
    → KeepsJob j
        (record j { state = JobState.dispatching; attempt = incℤ j.attempt; sent_at = some at })
unfolding contains
pending_dispatches at j h = ground arith

module _ (l : QueueLedger) (id : String) (at : DateTime) {m : QueueLedger} (v : IsValid l)
    (h : begin_native_batch_commit l id at ≡ ok m) where
  begin_of :
      (o : Option QueueBlock) (r : Result (List QueueJob))
      → find (with_id id) l.blocks ≡ o
      → change_jobs_of id
          (λ j. record j {
            state = JobState.dispatching;
            attempt = incℤ j.attempt;
            sent_at = some at;
          })
          l.jobs
        ≡ r
      → Follows l m
  unfolding begin_native_batch_commit find_block make_block contains
  begin_of none r f c = absurd (ground arith)
  begin_of (some b) (err e) f c = absurd (ground arith)
  begin_of (some b) (ok js) f c =
      Follows-batch l id b (record b { state = BlockState.committing }) js l.last_reconciled_at v f
        (ground arith) (ground arith)
        (change_jobs_of-Extends id (λ j. j.state == JobState.pending) _ (pending_dispatches at)
          l.jobs js v.jobs (ground arith) c)
        (ground arith)

  -- A begun batch dispatches the pending jobs of its sealed block, and changes nothing else.
  pub begin_native_batch_commit-Follows : Follows l m
  begin_native_batch_commit-Follows = begin_of _ _ refl refl

dispatching_quarantined :
    (j : QueueJob)
    → (j.state == JobState.dispatching) ≡ true
    → KeepsJob j (record j { state = JobState.uncertain })
unfolding contains
dispatching_quarantined j h = ground arith

module _ (l : QueueLedger) (id : String) (at : DateTime) {m : QueueLedger} (v : IsValid l)
    (h : quarantine_block_dispatch l id at ≡ ok m) where
  quarantine_of :
      (o : Option QueueBlock) (r : Result (List QueueJob))
      → find (with_id id) l.blocks ≡ o
      → change_jobs_of id (λ j. record j { state = JobState.uncertain }) l.jobs ≡ r
      → Follows l m
  unfolding quarantine_block_dispatch find_block make_block contains
  quarantine_of none r f c = absurd (ground arith)
  quarantine_of (some b) (err e) f c = absurd (ground arith)
  quarantine_of (some b) (ok js) f c =
      Follows-batch l id b (record b { state = BlockState.uncertain }) js (some at) v f
        (ground arith) (ground arith)
        (change_jobs_of-Extends id (λ j. j.state == JobState.dispatching) _ dispatching_quarantined
          l.jobs js v.jobs (ground arith) c)
        (ground arith)

  -- A quarantined batch makes its block and its dispatched jobs uncertain, and changes nothing else.
  pub quarantine_block_dispatch-Follows : Follows l m
  quarantine_block_dispatch-Follows = quarantine_of _ _ refl refl
