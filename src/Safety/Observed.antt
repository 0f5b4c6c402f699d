-- ===== src/Safety/Observed.antt =====
-- The observer's commands and the cancellation of a block, on the planner's state.
use ha_vacuum_planner.Base.{
  >>-eq-ok, >>=-eq-ok, Bool, Bool-cases, List, Result, String, [], any, arith, false, if◌then◌else◌,
  inl, inr, int_eq, is_empty, nat_eq, none, ok, refl, string_eq, subst, sym, true, ℕ, ◌+◌, ◌==◌,
  ◌∷◌, ◌≡◌,
}
use ha_vacuum_planner.Models.{
  BlockState, DateTime, JobState, PlannerState, QueueJob, QueueLedger, block_guarantee_eq,
  block_kind_eq, block_state_eq, dispatch_strategy_eq, find_block, job_state_eq, jobs_of,
  make_state, mode_eq, no_change, preferred_mode_eq, replace_block_state, replace_job_state,
}
use ha_vacuum_planner.Queue.{complete_job_and_advance_plan}
use ha_vacuum_planner.Laws.Constructors.{make_state-eq}
use ha_vacuum_planner.Laws.History.{Follows, Follows-refl, Follows-trans, IsValid}
use ha_vacuum_planner.Safety.Histories.{replace_block_state-Follows, replace_job_state-Follows}
use ha_vacuum_planner.Safety.Live.{OfLive, affected-OfLive, dispatching-OfLive}
use ha_vacuum_planner.Safety.Endings.{complete_job_and_advance_plan-Follows}
use ha_vacuum_planner.Observations.{ObservationOutcome}
use ha_vacuum_planner.Observer.{
  Environment, active_block_ids, affected_block_ids, complete_one, complete_running,
  dispatching_block_ids, doubt_block, doubt_job, fail_block, fail_job, observation_command,
  observe_completed, observe_failed, observe_running, observe_uncertain, run_blocks, settle_ledger,
  start_dispatched,
}
use ha_vacuum_planner.Actions.{cancel_jobs, cancel_pending_block}
use ha_vacuum_planner.Safety.Observing.{
  doubt-Follows, fail-Follows, run_blocks-Follows, start-Follows,
}

-- `t` comes after `s`, with the same plan.
pub record Progress (s t : PlannerState) : Type 0 where
  pub plan_revision : t.plan_revision ≡ s.plan_revision
  pub ledger : Follows s.ledger t.ledger

Progress-refl : (s : PlannerState) → IsValid s.ledger → Progress s s
Progress-refl s v = record { plan_revision = refl; ledger = Follows-refl v }

-- the last step of each command: the new ledger is written into the state
stored :
    (s : PlannerState) (l : QueueLedger) {t : PlannerState}
    → Follows s.ledger l
    → make_state (record s { ledger = l }) ≡ ok t
    → Progress s t
stored s l {t} f h =
    subst (λ x. Progress s x) (sym (make_state-eq (record s { ledger = l }) h))
      (record { plan_revision = refl; ledger = f })

-- the state is kept, or the command goes on
kept_or :
    (b : Bool) (s : PlannerState) (change : Result PlannerState) {t : PlannerState}
    → IsValid s.ledger
    → (change ≡ ok t → Progress s t)
    → (if b then ok s else change) ≡ ok t
    → Progress s t
kept_or true s change {t} v next h =
    subst (λ x. Progress s x) {x = s} {y = t} (ground arith) (Progress-refl s v)
kept_or false s change v next h = next h

start_dispatched-Follows :
    (s : PlannerState) (at : DateTime) (ids : List String) {m : QueueLedger}
    → IsValid s.ledger
    → OfLive s.ledger ids
    → start_dispatched ids s.ledger at ≡ ok m
    → Follows s.ledger m
unfolding start_dispatched
start_dispatched-Follows s at ids {m} v live h = elim (Bool-cases (is_empty ids)) [
  | inl e ↦ subst (λ x. Follows s.ledger x) {x = s.ledger} {y = m} (ground arith) (Follows-refl v)
  | inr e ↦ start-Follows s.ledger ids at {m = m} v live (ground arith)
]

module _ (s : PlannerState) (at : DateTime) {t : PlannerState} (v : IsValid s.ledger) where
  pub observe_running-Progress :
      (order : List String → List String) → observe_running order s at ≡ ok t → Progress s t
  unfolding observe_running
  observe_running-Progress order h =
      let (ids, sent, h1) = >>=-eq-ok (dispatching_block_ids s.ledger at) _ {result = t} h in
      kept_or (is_empty (active_block_ids s.ledger ids)) s _ v
        (λ change.
          let (n, started, h2) =
            >>=-eq-ok (start_dispatched ids s.ledger at) _ {result = t} change in
          let (o, run, made) =
            >>=-eq-ok (run_blocks at (order (active_block_ids s.ledger ids)) n) _ {result = t} h2 in
          let first =
            start_dispatched-Follows s at ids v (dispatching-OfLive s.ledger at sent) started in
          stored s o
            (Follows-trans first
              (run_blocks-Follows at (order (active_block_ids s.ledger ids)) n first.valid run))
            made)
        h1

  pub observe_failed-Progress : observe_failed s at ≡ ok t → Progress s t
  unfolding observe_failed
  observe_failed-Progress h =
      let (ids, hit, h1) = >>=-eq-ok (affected_block_ids s.ledger at) _ {result = t} h in
      kept_or (is_empty ids) s _ v
        (λ change.
          let (n, done, made) =
            >>=-eq-ok (settle_ledger s.ledger (fail_block ids at) (fail_job ids at) at) _
              {result = t} change in
          stored s n (fail-Follows s.ledger ids at v (affected-OfLive s.ledger at hit) done) made)
        h1

  pub observe_uncertain-Progress : observe_uncertain s at ≡ ok t → Progress s t
  unfolding observe_uncertain
  observe_uncertain-Progress h =
      let (ids, hit, h1) = >>=-eq-ok (affected_block_ids s.ledger at) _ {result = t} h in
      kept_or (is_empty ids) s _ v
        (λ change.
          let (n, done, made) =
            >>=-eq-ok (settle_ledger s.ledger (doubt_block ids) (doubt_job ids) at) _ {result = t}
              change in
          stored s n (doubt-Follows s.ledger ids at v (affected-OfLive s.ledger at hit) done) made)
        h1

complete_one-Follows :
    (s : PlannerState) (id : String) (at : DateTime) (next : String) {t : PlannerState}
    → IsValid s.ledger
    → complete_one s id at next ≡ ok t
    → Follows s.ledger t.ledger
unfolding complete_one
complete_one-Follows s id at next {t} v h =
    let (r, done, made) =
      >>=-eq-ok (complete_job_and_advance_plan s.ledger s.plan_revision id at next) _ {result = t}
        h in
    subst (λ (x : PlannerState). Follows s.ledger x.ledger) (sym (make_state-eq _ made))
      (complete_job_and_advance_plan-Follows s.ledger s.plan_revision id at next v done)

complete_running-Follows :
    (ids : ℕ → String) (n : ℕ) (at : DateTime) (js : List QueueJob) (s : PlannerState)
    {t : PlannerState}
    → IsValid s.ledger
    → complete_running ids n at js s ≡ ok t
    → Follows s.ledger t.ledger
unfolding complete_running
complete_running-Follows ids n at [] s {t} v h =
    subst (λ (x : PlannerState). Follows s.ledger x.ledger) {x = s} {y = t} (ground arith)
      (Follows-refl v)
complete_running-Follows ids n at (j ∷ js) s {t} v h =
    elim (Bool-cases (j.state == JobState.running)) [
      | inl e ↦
          let (u, one, rest) =
            >>=-eq-ok (complete_one s j.job_id at (ids n)) (complete_running ids (n + 1) at js)
              {result = t} (ground arith) in
          let first = complete_one-Follows s j.job_id at (ids n) v one in
          Follows-trans first (complete_running-Follows ids (n + 1) at js u first.valid rest)
      | inr e ↦ complete_running-Follows ids n at js s {t = t} v (ground arith)
    ]

pub observe_completed-Follows :
    (ids : ℕ → String) (s : PlannerState) (at : DateTime) {t : PlannerState}
    → IsValid s.ledger
    → observe_completed ids s at ≡ ok t
    → Follows s.ledger t.ledger
unfolding observe_completed
observe_completed-Follows ids s at {t} v h =
    elim (Bool-cases (any (λ j. j.state == JobState.running) s.ledger.jobs)) [
      | inl e ↦ complete_running-Follows ids 0 at s.ledger.jobs s {t = t} v (ground arith)
      | inr e ↦
          subst (λ (x : PlannerState). Follows s.ledger x.ledger) {x = s} {y = t} (ground arith)
            (Follows-refl v)
    ]

-- Whatever the observation, its command keeps the ledger's history.
pub observation_command-Follows :
    (e : Environment) (outcome : ObservationOutcome) (s : PlannerState) (at : DateTime)
    {t : PlannerState}
    → IsValid s.ledger
    → observation_command e outcome s at ≡ ok t
    → Follows s.ledger t.ledger
observation_command-Follows e ObservationOutcome.running s at v h =
    (observe_running-Progress s at v e.order h).ledger
observation_command-Follows e ObservationOutcome.completed s at v h =
    observe_completed-Follows e.new_ids s at v h
observation_command-Follows e ObservationOutcome.failed s at v h =
    (observe_failed-Progress s at v h).ledger
observation_command-Follows e ObservationOutcome.uncertain s at v h =
    (observe_uncertain-Progress s at v h).ledger
observation_command-Follows e ObservationOutcome.no_change s at {t} v h =
    subst (λ (x : PlannerState). Follows s.ledger x.ledger) {x = s} {y = t} (ground arith)
      (Follows-refl v)

cancel_jobs-Follows :
    (at : DateTime) (js : List QueueJob) (l : QueueLedger) {m : QueueLedger}
    → IsValid l
    → cancel_jobs at js l ≡ ok m
    → Follows l m
unfolding cancel_jobs
cancel_jobs-Follows at [] l {m} v h =
    subst (λ x. Follows l x) {x = l} {y = m} (ground arith) (Follows-refl v)
cancel_jobs-Follows at (j ∷ js) l {m} v h =
    let (n, one, rest) =
      >>=-eq-ok (replace_job_state l j.job_id JobState.cancelled at no_change) _ {result = m} h in
    let first = replace_job_state-Follows l j.job_id JobState.cancelled at no_change v one in
    Follows-trans first (cancel_jobs-Follows at js n first.valid rest)

-- A cancellation keeps the plan and the ledger's history.
pub cancel_pending_block-Progress :
    (s : PlannerState) (id : String) (at : DateTime) {t : PlannerState}
    → IsValid s.ledger
    → cancel_pending_block s id at ≡ ok t
    → Progress s t
unfolding cancel_pending_block
cancel_pending_block-Progress s id at {t} v h =
    let (b, found, h1) = >>=-eq-ok (find_block s.ledger.blocks id) _ {result = t} h in
    let (sealed, h2) = >>-eq-ok _ _ {result = t} h1 in
    let (pending, h3) = >>-eq-ok _ _ {result = t} h2 in
    let (n, jobs, h4) =
      >>=-eq-ok (cancel_jobs at (jobs_of id s.ledger.jobs) s.ledger) _ {result = t} h3 in
    let (o, block, made) =
      >>=-eq-ok (replace_block_state n id BlockState.cancelled at none) _ {result = t} h4 in
    let first = cancel_jobs-Follows at (jobs_of id s.ledger.jobs) s.ledger v jobs in
    stored s o
      (Follows-trans first
        (replace_block_state-Follows n id BlockState.cancelled at none first.valid block))
      made
