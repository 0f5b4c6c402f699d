-- ===== src/Safety/Commands.antt =====
-- The commands as one step relation, and what holds however often they are given.
use ha_vacuum_planner.Base.{Option, String, ap, arith, ok, subst, sym, ℕ, ◌∙◌, ◌≡◌, ◌≤◌}
use ha_vacuum_planner.Models.{
  BlockState, DateTime, JobChange, JobState, PlanRevision, PlanSnapshot, PlannerState, QueueLedger,
  empty_ledger, replace_block_state, replace_job_state,
}
use ha_vacuum_planner.Queue.{
  CompletionResult, StartRequest, StartResult, begin_native_batch_commit,
  complete_job_and_advance_plan, fail_block_commit, quarantine_ambiguous_dispatches,
  quarantine_block_dispatch, resolve_uncertain_block, resolve_uncertain_job, retry_safe,
  start_due_block,
}
use ha_vacuum_planner.Laws.Constructors.{make_ledger-eq}
use ha_vacuum_planner.Laws.History.{Follows, Follows-refl, Follows-trans, IsValid, open_count}
use ha_vacuum_planner.Safety.Histories.{replace_block_state-Follows, replace_job_state-Follows}
use ha_vacuum_planner.Safety.Endings.{
  complete_job_and_advance_plan-Follows, start_due_block-Follows,
}
use ha_vacuum_planner.Observations.{ObservationOutcome}
use ha_vacuum_planner.Observer.{Environment, observation_command}
use ha_vacuum_planner.Actions.{cancel_pending_block}
use ha_vacuum_planner.Safety.Batches.{
  begin_native_batch_commit-Follows, fail_block_commit-Follows, quarantine_block_dispatch-Follows,
}
use ha_vacuum_planner.Safety.Resolutions.{
  quarantine_ambiguous_dispatches-Follows, resolve_uncertain_block-Follows,
  resolve_uncertain_job-Follows,
}
use ha_vacuum_planner.Safety.Observed.{cancel_pending_block-Progress, observation_command-Follows}

pub data Command (l m : QueueLedger) : Type 0 where
  start :
      (snapshot : PlanSnapshot) (request : StartRequest) (ids : ℕ → String) (r : StartResult)
      → start_due_block l snapshot request ids ≡ ok r
      → r.ledger ≡ m
      → Command l m
  change_block :
      (id : String) (s : BlockState) (at : DateTime) (run : Option String)
      → replace_block_state l id s at run ≡ ok m
      → Command l m
  change_job :
      (id : String) (s : JobState) (at : DateTime) (w : JobChange)
      → replace_job_state l id s at w ≡ ok m
      → Command l m
  begin_batch :
      (id : String) (at : DateTime) → begin_native_batch_commit l id at ≡ ok m → Command l m
  fail_commit :
      (id : String) (at : DateTime) (code : String) (detail : Option String)
      → fail_block_commit l id at code detail ≡ ok m
      → Command l m
  quarantine_batch :
      (id : String) (at : DateTime) → quarantine_block_dispatch l id at ≡ ok m → Command l m
  resolve_job :
      (id : String) (at : DateTime) → resolve_uncertain_job l id retry_safe at ≡ ok m → Command l m
  resolve_block : (id : String) → resolve_uncertain_block l id retry_safe ≡ ok m → Command l m
  restart : (at : DateTime) → quarantine_ambiguous_dispatches l at ≡ ok m → Command l m
  complete :
      (plan : PlanRevision) (id : String) (at : DateTime) (next : String) (r : CompletionResult)
      → complete_job_and_advance_plan l plan id at next ≡ ok r
      → r.ledger ≡ m
      → Command l m
  observation :
      (e : Environment) (outcome : ObservationOutcome) (s t : PlannerState) (at : DateTime)
      → observation_command e outcome s at ≡ ok t
      → s.ledger ≡ l
      → t.ledger ≡ m
      → Command l m
  cancel :
      (s t : PlannerState) (id : String) (at : DateTime)
      → cancel_pending_block s id at ≡ ok t
      → s.ledger ≡ l
      → t.ledger ≡ m
      → Command l m

pub data Reach (l : QueueLedger) : QueueLedger → Type 0 where
  here : Reach l l
  after : {m n : QueueLedger} → Reach l m → Command m n → Reach l n

between : {l m n o : QueueLedger} → l ≡ n → m ≡ o → Follows l m → Follows n o
between {l} {m} {n} {o} from to f = subst (λ x. Follows x o) from (subst (λ x. Follows l x) to f)

Command-Follows : (l m : QueueLedger) → IsValid l → Command l m → Follows l m
Command-Follows l m v (start snapshot request ids r h e) =
    subst (λ x. Follows l x) e (start_due_block-Follows l snapshot request ids v h)
Command-Follows l m v (change_block id s at run h) = replace_block_state-Follows l id s at run v h
Command-Follows l m v (change_job id s at w h) = replace_job_state-Follows l id s at w v h
Command-Follows l m v (begin_batch id at h) = begin_native_batch_commit-Follows l id at v h
Command-Follows l m v (fail_commit id at code detail h) =
    fail_block_commit-Follows l id at code detail v h
Command-Follows l m v (quarantine_batch id at h) = quarantine_block_dispatch-Follows l id at v h
Command-Follows l m v (resolve_job id at h) = resolve_uncertain_job-Follows l id at v h
Command-Follows l m v (resolve_block id h) = resolve_uncertain_block-Follows l id v h
Command-Follows l m v (restart at h) = quarantine_ambiguous_dispatches-Follows l at v h
Command-Follows l m v (complete plan id at next r h e) =
    subst (λ x. Follows l x) e (complete_job_and_advance_plan-Follows l plan id at next v h)
Command-Follows l m v (observation e outcome s t at h from to) =
    between from to (observation_command-Follows e outcome s at (subst IsValid (sym from) v) h)
Command-Follows l m v (cancel s t id at h from to) =
    between from to (cancel_pending_block-Progress s id at (subst IsValid (sym from) v) h).ledger

-- Whatever commands succeed from a valid ledger, in whatever order, observations and cancellations
-- among them: the ledger stays valid, its revision does not fall, its `active_block_id` stays the same,
-- every block and every job keeps its place and its identity (of a block the lane, plan, key, time of
-- creation and sealing, job list, strategy and guarantee; of a job the block, area, target, mode,
-- position and planned time), a block of which something was sent does not go back to those of which
-- nothing was, a job that is not pending does not become so, a block that has ended and a job that is completed, skipped or cancelled keep every
-- field, and no lane has more blocks that have not ended than it had, but for a first one.
pub Reach-Follows : {l m : QueueLedger} → IsValid l → Reach l m → Follows l m
Reach-Follows v here = Follows-refl v
Reach-Follows v (after {m} {n} r c) =
    let before = Reach-Follows v r in Follows-trans before (Command-Follows m n before.valid c)

pub empty-IsValid : {l : QueueLedger} → empty_ledger ≡ ok l → IsValid l
unfolding empty_ledger
empty-IsValid {l} h =
    subst IsValid (sym (make_ledger-eq _ h))
      (record { made = h ∙ ap ok (make_ledger-eq _ h); blocks = tt; jobs = tt })

-- In a ledger that commands have built from the empty one, no lane has two blocks that have not
-- ended.
pub one_open_block :
    {l m : QueueLedger}
    → empty_ledger ≡ ok l
    → Reach l m
    → (lane : String) → open_count lane m.blocks ≤ 1
unfolding empty_ledger open_count
one_open_block {l} {m} e r lane = omega (
  arith,
  (Reach-Follows (empty-IsValid e) r).lanes lane,
  ap (λ (x : QueueLedger). open_count lane x.blocks) (make_ledger-eq _ e),
)
