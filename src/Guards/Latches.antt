-- ===== src/Guards/Latches.antt =====
-- `fail_closed`: a lost topology refuses every command, and quarantines what is on its way.
use ha_vacuum_planner.Base.{
  All, Bool, Bool-cases, List, Option, [], any, arith, contains, err, false, if◌then◌else◌, inl,
  inr, int_eq, nat_eq, none, refl, some, string_eq, true, ℕ, ◌&&◌, ◌==◌, ◌↔◌, ◌∷◌, ◌≡◌, ◌⊎◌,
}
use ha_vacuum_planner.Models.{
  BlockState, DateTime, JobState, PlannerState, QueueBlock, QueueJob, QueueLedger,
  block_guarantee_eq, block_kind_eq, block_state_eq, dispatch_strategy_eq, job_state_eq, mode_eq,
  preferred_mode_eq,
}
use ha_vacuum_planner.Queue.{active_block_states, active_job_states}
use ha_vacuum_planner.Coordinator.{publish}
use ha_vacuum_planner.Runtime.{
  VacuumPlannerRuntimeData, capture_command_generation, inactive, invalidate_observations,
  not_ready, require_command_generation, require_runtime_generation, runtime_state,
}
use ha_vacuum_planner.Topology.{IssueCondition}
use ha_vacuum_planner.Dispatch.{World, latch}
use ha_vacuum_planner.Setup.{fail_closed, has_active_external_work, or_value}

abbrev pub Refuses : VacuumPlannerRuntimeData → ℕ → Type 0
Refuses r generation =
    ((capture_command_generation r ≡ err inactive) ⊎ (capture_command_generation r ≡ err not_ready))
    × ((require_command_generation r generation ≡ err inactive)
        ⊎ (require_command_generation r generation ≡ err not_ready))

-- A latched runtime captures no command generation and accepts none, whatever was captured before.
latched-Refuses :
    (r : VacuumPlannerRuntimeData) (generation : ℕ)
    → r.topology_ready ≡ false
    → Refuses r generation
unfolding capture_command_generation require_command_generation require_runtime_generation
latched-Refuses r generation h = (ground (arith, h), ground (arith, h))

any-none :
    {A : Type 0} (p : A → Bool) (xs : List A) → (any p xs ≡ false) ↔ All (λ x. p x ≡ false) xs
unfolding any
any-none p [] = (λ h. tt, λ h. refl)
any-none p (x ∷ xs) = (
  λ h. (ground (arith, h), (any-none p xs).0 (ground (arith, h))),
  λ h. ground (arith, h.0, (any-none p xs).1 h.1),
)

All-iff :
    {A : Type 0} (P Q : A → Type 0) (xs : List A) → ((a : A) → P a ↔ Q a) → All P xs ↔ All Q xs
All-iff P Q [] k = (λ h. tt, λ h. tt)
All-iff P Q (x ∷ xs) k =
    (λ h. ((k x).0 h.0, (All-iff P Q xs k).0 h.1), λ h. ((k x).1 h.0, (All-iff P Q xs k).1 h.1))

-- nothing of the block, or of the job, is on its way
abbrev pub IsRestingBlock : QueueBlock → Type 0
IsRestingBlock b =
    ((b.state == BlockState.committing) ≡ false)
    × ((b.state == BlockState.committed) ≡ false)
    × ((b.state == BlockState.running) ≡ false)

abbrev pub IsRestingJob : QueueJob → Type 0
IsRestingJob j =
    ((j.state == JobState.dispatching) ≡ false)
    × ((j.state == JobState.accepted) ≡ false)
    × ((j.state == JobState.running) ≡ false)

abbrev pub IsResting : QueueLedger → Type 0
IsResting l = All IsRestingBlock l.blocks × All IsRestingJob l.jobs

resting_block : (b : QueueBlock) → (contains b.state active_block_states ≡ false) ↔ IsRestingBlock b
unfolding contains
resting_block b = (
  λ h. (ground (arith, h), ground (arith, h), ground (arith, h)),
  λ h. ground (arith, h.0, h.1, h.2),
)

resting_job : (j : QueueJob) → (contains j.state active_job_states ≡ false) ↔ IsRestingJob j
unfolding contains
resting_job j = (
  λ h. (ground (arith, h), ground (arith, h), ground (arith, h)),
  λ h. ground (arith, h.0, h.1, h.2),
)

-- There is no external work exactly when all blocks and jobs are at rest.
has_active_external_work-IsResting :
    (s : PlannerState) → (has_active_external_work (some s) ≡ false) ↔ IsResting s.ledger
unfolding has_active_external_work
has_active_external_work-IsResting s =
    let blocks =
      any-none (λ (b : QueueBlock). contains b.state active_block_states) s.ledger.blocks in
    let jobs = any-none (λ (j : QueueJob). contains j.state active_job_states) s.ledger.jobs in
    let each_block =
      All-iff (λ (b : QueueBlock). contains b.state active_block_states ≡ false) IsRestingBlock
        s.ledger.blocks resting_block in
    let each_job =
      All-iff (λ (j : QueueJob). contains j.state active_job_states ≡ false) IsRestingJob
        s.ledger.jobs resting_job in
    (
      λ h. (each_block.0 (blocks.0 (ground (arith, h))), each_job.0 (jobs.0 (ground (arith, h)))),
      λ (b, j). ground (arith, blocks.1 (each_block.1 b), jobs.1 (each_job.1 j)),
    )

-- the time of the event, or of the clock
abbrev pub event_time : Option DateTime → DateTime → DateTime
event_time none now = now
event_time (some at) now = at

module _ {S : Type 0} (conditions : List IssueCondition) (observed_at : Option DateTime)
    (now : DateTime) (w : World S) where
  latched : (fail_closed conditions observed_at now w).world.runtime.topology_ready ≡ false
  unfolding fail_closed latch invalidate_observations
  latched = elim (Bool-cases w.runtime.topology_ready) [ inl e ↦ rw e refl | inr e ↦ simp (e) refl ]

  quarantine-eq : (fail_closed conditions observed_at now w).quarantine ≡ (
      if w.runtime.topology_ready
        && has_active_external_work (runtime_state w.runtime w.coordinator)
      then some (or_value observed_at now)
      else none)
  unfolding fail_closed
  quarantine-eq = elim (Bool-cases w.runtime.topology_ready) [
    | inl e ↦ rw e refl
    | inr e ↦ simp (e) refl
  ]

  -- no quarantine stands for no external work
  chosen :
      (busy : Bool) {q : Option DateTime}
      → q ≡ (if busy then some (or_value observed_at now) else none)
      → (q ≡ none) ↔ (busy ≡ false)
  chosen true e = (λ h. absurd (ground (arith, e, h)), λ h. cc)
  chosen false e = (λ h. refl, λ h. e)

  idle_of :
      (latchable has : Bool)
      → (latchable && has_active_external_work (if has then some w.coordinator.state else none)
          ≡ false)
        ↔ ((latchable ≡ false) ⊎ (has ≡ false) ⊎ IsResting w.coordinator.state.ledger)
  unfolding has_active_external_work
  idle_of false has = (λ h. inl refl, λ h. refl)
  idle_of true false = (λ h. inr (inl refl), λ h. refl)
  idle_of true true = (
    λ h. inr (inr ((has_active_external_work-IsResting w.coordinator.state).0 h)),
    λ h. elim h [
      | inl a ↦ absurd (cc)
      | inr (inl a) ↦ absurd (cc)
      | inr (inr a) ↦ (has_active_external_work-IsResting w.coordinator.state).1 a
    ],
  )

  quarantine-IsResting : ((fail_closed conditions observed_at now w).quarantine ≡ none) ↔ (
      (w.runtime.topology_ready ≡ false)
      ⊎ (w.runtime.has_coordinator ≡ false)
      ⊎ IsResting w.coordinator.state.ledger)
  quarantine-IsResting =
      let none_is = chosen _ quarantine-eq in
      let idle = idle_of w.runtime.topology_ready w.runtime.has_coordinator in
      (λ h. idle.0 (none_is.0 h), λ h. none_is.1 (idle.1 h))

  quarantine-time :
      ((fail_closed conditions observed_at now w).quarantine ≡ none)
      ⊎ ((fail_closed conditions observed_at now w).quarantine ≡ some (event_time observed_at now))
  quarantine-time = by_choice _ observed_at quarantine-eq
    where
      by_choice :
          (busy : Bool) (at : Option DateTime) {q : Option DateTime}
          → q ≡ (if busy then some (or_value at now) else none)
          → (q ≡ none) ⊎ (q ≡ some (event_time at now))
      by_choice true none e = inr e
      by_choice true (some at) e = inr e
      by_choice false at e = inl e

  -- Behind `fail_closed` the runtime captures no command generation and accepts none, whichever was
  -- captured before, and the planner's state is untouched. It starts no quarantine exactly when the
  -- runtime was not ready before, has no state, or no block is committing, committed or running and no job
  -- dispatching, accepted or running. The quarantine has the time of the event, or of the clock where the
  -- event has none.
  pub fail_closed-latches :
      (generation : ℕ)
      → Refuses (fail_closed conditions observed_at now w).world.runtime generation
        × ((fail_closed conditions observed_at now w).world.coordinator.state ≡ w.coordinator.state)
        × (((fail_closed conditions observed_at now w).quarantine ≡ none) ↔ (
            (w.runtime.topology_ready ≡ false)
            ⊎ (w.runtime.has_coordinator ≡ false)
            ⊎ IsResting w.coordinator.state.ledger))
        × (((fail_closed conditions observed_at now w).quarantine ≡ none)
            ⊎ ((fail_closed conditions observed_at now w).quarantine
                ≡ some (event_time observed_at now)))
  unfolding fail_closed latch publish
  fail_closed-latches generation = (
    latched-Refuses (fail_closed conditions observed_at now w).world.runtime generation latched,
    elim (Bool-cases w.runtime.topology_ready) [
      | inl e ↦ rw e (latched_state w.runtime.has_coordinator)
      | inr e ↦ simp (e) refl
    ],
    quarantine-IsResting,
    quarantine-time,
  )
    where
      latched_state :
          (b : Bool)
          → (if b then publish w.coordinator else w.coordinator).state ≡ w.coordinator.state
      latched_state true = refl
      latched_state false = refl
