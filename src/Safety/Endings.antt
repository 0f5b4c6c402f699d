-- ===== src/Safety/Endings.antt =====
-- `start_due_block` and `complete_job_and_advance_plan` keep the ledger's history.
use Prim.Native.Nat.{max}
use ha_vacuum_planner.Base.{
  All, Bool-cases, List, Option, Result, String, [], all, any, ap, arith, draw_ids, err, false,
  find, incℤ, inl, inr, int_eq, is_empty, nat_eq, none, ok, refl, some, string_eq, subst, true, ℕ,
  ◌++◌, ◌+◌, ◌==◌, ◌∷◌, ◌≡◌, ◌≤◌,
}
use ha_vacuum_planner.Models.{
  BlockState, DateTime, JobState, PlanRevision, PlanSnapshot, QueueBlock, QueueJob, QueueLedger,
  SnapshotJob, block_guarantee_eq, block_kind_eq, block_state_eq, dispatch_strategy_eq, find_job,
  is_terminal_job, job_state_eq, jobs_of, make_block, make_job, make_ledger, mode_eq, no_change,
  parent_of, preferred_mode_eq, replace_job_state,
}
use ha_vacuum_planner.Queue.{
  CompletionResult, StartRequest, StartResult, complete_job_and_advance_plan, final_state,
  finish_block, is_open_in, is_repeated, latest_finish, planned_job, planned_jobs, seal_block,
  sealed_block, start_committed, start_due_block, start_new_block,
}
use ha_vacuum_planner.Laws.Keyed.{All-append}
use ha_vacuum_planner.Laws.Constructors.{make_job_idem}
use ha_vacuum_planner.Laws.History.{
  Extends-append, Follows, Follows-refl, Follows-trans, IsValid, KeepsBlock, KeepsBlock-refl,
  KeepsJob, KeepsJob-refl, open_count, open_count-append,
}
use ha_vacuum_planner.Safety.Moves.{with_id, with_job_id}
use ha_vacuum_planner.Safety.Edits.{Follows-edit}
use ha_vacuum_planner.Safety.Histories.{replace_block_state-Follows, replace_job_state-Follows}

planned_jobs-made :
    (request : StartRequest) (block_id : String) (i : ℕ) (ids : List String) (es : List SnapshotJob)
    (js : List QueueJob)
    → planned_jobs request block_id i ids es ≡ ok js
    → All (λ j. make_job j ≡ ok j) js
unfolding planned_jobs
planned_jobs-made request block_id i ids es [] h = tt
planned_jobs-made request block_id i [] [] (j ∷ js) h = absurd (ground arith)
planned_jobs-made request block_id i [] (e ∷ es) (j ∷ js) h = absurd (ground arith)
planned_jobs-made request block_id i (id ∷ ids) [] (j ∷ js) h = absurd (ground arith)
planned_jobs-made request block_id i (id ∷ ids) (e ∷ es) (j ∷ js) h = (
  make_job_idem (planned_job request block_id i id e) (ground arith),
  planned_jobs-made request block_id (i + 1) ids es js (ground arith),
)

no_open :
    (lane : String) (bs : List QueueBlock)
    → any (is_open_in lane) bs ≡ false
    → open_count lane bs ≡ 0
unfolding any open_count
no_open lane [] h = refl
no_open lane (b ∷ bs) h = ground (arith, no_open lane bs)

-- A block that is appended to a lane with no open block leaves every lane in bounds.
sealed_lanes :
    (lane : String) (bs : List QueueBlock) (c : QueueBlock)
    → open_count c.lane_id bs ≡ 0
    → open_count lane (bs ++ (c ∷ [])) ≤ max 1 (open_count lane bs)
unfolding is_open_in
sealed_lanes lane bs c h = elim (Bool-cases (c.lane_id == lane)) [
  | inl e ↦
      let same : c.lane_id ≡ lane = (string_eq.beq_iff c.lane_id lane).0 e in
      ground (arith, open_count-append lane bs c, ap (λ x. open_count x bs) same)
  | inr e ↦ ground (arith, open_count-append lane bs c)
]

module _ (l : QueueLedger) (snapshot : PlanSnapshot) (request : StartRequest) (block_id : String)
    (job_ids : List String) {r : StartResult} (v : IsValid l)
    (free : any (is_open_in request.lane_id) l.blocks ≡ false)
    (h : seal_block l snapshot request block_id job_ids ≡ ok r) where
  seal_of :
      (q : Result (List QueueJob))
      → planned_jobs request block_id 0 job_ids snapshot.jobs ≡ q
      → Follows l r.ledger
  unfolding seal_block make_block make_ledger
  seal_of (err e) f = absurd (ground arith)
  seal_of (ok js) f =
      let b = sealed_block request snapshot block_id job_ids in
      let n : QueueLedger = record l {
        revision = incℤ l.revision;
        blocks = l.blocks ++ (b ∷ []);
        jobs = l.jobs ++ js;
      } in
      Follows-edit l n refl refl (Extends-append KeepsBlock KeepsBlock-refl l.blocks (b ∷ []))
        (Extends-append KeepsJob KeepsJob-refl l.jobs js)
        (λ lane. omega (arith, sealed_lanes lane l.blocks b (no_open b.lane_id l.blocks free)))
        (All-append (λ b. make_block b ≡ ok b) l.blocks (b ∷ []) v.blocks (ground arith, tt))
        (All-append (λ j. make_job j ≡ ok j) l.jobs js v.jobs
          (planned_jobs-made request block_id 0 job_ids snapshot.jobs js f))
        (ground arith)

  pub seal_block-Follows : Follows l r.ledger
  seal_block-Follows = seal_of _ refl

module _ (l : QueueLedger) (snapshot : PlanSnapshot) (request : StartRequest) (ids : ℕ → String)
    {r : StartResult} (v : IsValid l) (h : start_due_block l snapshot request ids ≡ ok r) where
  start_of : (o : Option QueueBlock) → find (is_repeated request) l.blocks ≡ o → Follows l r.ledger
  unfolding start_due_block start_new_block
  start_of (some b) f = subst (λ x. Follows l x) {x = l} (ground arith) (Follows-refl v)
  start_of none f = elim (Bool-cases (is_empty snapshot.jobs)) [
    | inl e ↦ subst (λ x. Follows l x) {x = l} (ground arith) (Follows-refl v)
    | inr e ↦
        seal_block-Follows l snapshot request (ids 0) (draw_ids ids 1 snapshot.jobs) {r = r} v
          (ground arith) (ground arith)
  ]

  -- A start appends one block and its jobs, or leaves the ledger as it was.
  pub start_due_block-Follows : Follows l r.ledger
  start_due_block-Follows = start_of _ refl

start_committed-Follows :
    (parent : QueueBlock) (l : QueueLedger) (at : DateTime) {n : QueueLedger}
    → IsValid l
    → start_committed parent l at ≡ ok n
    → Follows l n
start_committed-Follows parent l at {n} v h =
    elim (Bool-cases (parent.state == BlockState.committed)) [
      | inl e ↦
          replace_block_state-Follows l parent.block_id BlockState.running at none {m = n} v
            (ground arith)
      | inr e ↦ subst (λ x. Follows l x) {x = l} (ground arith) (Follows-refl v)
    ]

module _ (parent : QueueBlock) (l : QueueLedger) {m : QueueLedger} (v : IsValid l)
    (h : finish_block parent l ≡ ok m) where
  finish_from :
      (r : Result DateTime)
      → all is_terminal_job (jobs_of parent.block_id l.jobs) ≡ true
      → latest_finish (jobs_of parent.block_id l.jobs) ≡ r
      → Follows l m
  unfolding finish_block
  finish_from (err x) e f = absurd (ground arith)
  finish_from (ok at) e f = ended (start_committed parent l at) refl
    where
      ended : (p : Result QueueLedger) → start_committed parent l at ≡ p → Follows l m
      ended (err x) i = absurd (ground arith)
      ended (ok n) i =
          let first = start_committed-Follows parent l at v i in
          Follows-trans first (
            replace_block_state-Follows n parent.block_id
              (final_state (jobs_of parent.block_id l.jobs)) at none {m = m} first.valid
              (ground arith))

  pub finish_block-Follows : Follows l m
  unfolding finish_block
  finish_block-Follows = elim (Bool-cases (all is_terminal_job (jobs_of parent.block_id l.jobs))) [
    | inl e ↦ finish_from _ e refl
    | inr e ↦ subst (λ x. Follows l x) {x = l} (ground arith) (Follows-refl v)
  ]

module _ (l : QueueLedger) (plan : PlanRevision) (id : String) (at : DateTime) (next : String)
    {r : CompletionResult} (v : IsValid l)
    (h : complete_job_and_advance_plan l plan id at next ≡ ok r) where
  complete_of :
      (j : QueueJob) (q : Option QueueBlock) (p : Result QueueLedger)
      → find (with_job_id id) l.jobs ≡ some j
      → find (with_id j.block_id) l.blocks ≡ q
      → replace_job_state l id JobState.completed at no_change ≡ p
      → Follows l r.ledger
  unfolding complete_job_and_advance_plan find_job parent_of
  complete_of j none p f g i = absurd (ground arith)
  complete_of j (some b) (err e) f g i = absurd (ground arith)
  complete_of j (some b) (ok n) f g i =
      let first = replace_job_state-Follows l id JobState.completed at no_change v i in
      Follows-trans first (finish_block-Follows b n {m = r.ledger} first.valid (ground arith))

  complete_from : (o : Option QueueJob) → find (with_job_id id) l.jobs ≡ o → Follows l r.ledger
  unfolding complete_job_and_advance_plan find_job
  complete_from none f = absurd (ground arith)
  complete_from (some j) f = complete_of j _ _ f refl refl

  -- A completion ends one job and, with its last job, its block, and changes nothing else.
  pub complete_job_and_advance_plan-Follows : Follows l r.ledger
  complete_job_and_advance_plan-Follows = complete_from _ refl
