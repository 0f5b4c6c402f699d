-- ===== src/Safety/Clearing.antt =====
-- integration_observer.py: what a failure or an unclear state makes of each job.
use ha_vacuum_planner.Base.{
  >>=-eq-ok, All, Bool, Bool-cases, List, Result, String, [], ap, arith, contains, false,
  if◌then◌else◌, inl, inr, int_eq, is_empty, map, map_result, nat_eq, ok, refl, select, some,
  string_eq, subst, sym, to_set, true, ◌++◌, ◌>>=◌, ◌∙◌, ◌∷◌, ◌≡◌, ◌⊎◌,
}
use ha_vacuum_planner.Models.{
  DateTime, JobState, PlannerState, QueueBlock, QueueJob, QueueLedger, block_guarantee_eq,
  block_kind_eq, block_state_eq, dispatch_strategy_eq, job_state_eq, mode_eq, preferred_mode_eq,
}
use ha_vacuum_planner.Queue.{active_job_states}
use ha_vacuum_planner.Laws.Keyed.{All-map_impl, contains-append}
use ha_vacuum_planner.Laws.Constructors.{make_job-eq, make_ledger-eq, make_state-eq}
use ha_vacuum_planner.Laws.Sets.{contains-to_set_lem}
use ha_vacuum_planner.Observer.{
  affected_block_ids, dispatching_block_ids, doubt_block, doubt_job, fail_block, fail_job,
  is_affected, observe_failed, observe_uncertain, settle_ledger, with_ledger,
}

abbrev pub is_started : QueueJob → Bool
is_started j = contains j.state (JobState.accepted ∷ JobState.running ∷ [])

-- the block of a started job is among these
abbrev Covered : List String → QueueJob → Type 0
Covered ids j = is_started j ≡ true → contains j.block_id ids ≡ true

select-Covered :
    (js : List QueueJob) → All (Covered (map (λ j. j.block_id) (select is_started js))) js
unfolding select contains
select-Covered [] = tt
select-Covered (j ∷ js) = (
  λ t. ground (arith, string_eq.beq_iff j.block_id j.block_id),
  All-map_impl (Covered (map (λ j. j.block_id) (select is_started js)))
      (Covered (map (λ j. j.block_id) (select is_started (j ∷ js)))) js
      (λ k c started_k. ground (arith, c started_k)) (select-Covered js),
)

-- The affected blocks are those of all started jobs, at least.
affected-Covered :
    (l : QueueLedger) (at : DateTime) {ids : List String}
    → affected_block_ids l at ≡ ok ids
    → All (Covered ids) l.jobs
unfolding affected_block_ids
affected-Covered l at {ids} h =
    let (flying, run, last) = >>=-eq-ok (dispatching_block_ids l at) _ {result = ids} h in
    let own = map (λ (j : QueueJob). j.block_id) (select is_started l.jobs) in
    let same : to_set (own ++ flying) ≡ ids = ground arith in
    All-map_impl (Covered own) (Covered ids) l.jobs
      (λ j c started_j.
        subst (λ x. contains j.block_id x ≡ true) same
          (contains-to_set_lem j.block_id (own ++ flying)
            ∙ ground (arith, contains-append j.block_id own flying, c started_j)))
      (select-Covered l.jobs)

-- the two lists are related member by member
abbrev pub Each : {A : Type 0} → (A → A → Type 0) → List A → List A → Type 0
Each K [] [] = Unit
Each K (x ∷ xs) (y ∷ ys) = K x y × Each K xs ys
Each K _ _ = ⊥

map_result-Each :
    {A : Type 0} (P : A → Type 0) (K : A → A → Type 0) (f : A → Result A)
    → ((a b : A) → P a → f a ≡ ok b → K a b)
    → (xs ys : List A) → All P xs
    → map_result f xs ≡ ok ys
    → Each K xs ys
unfolding map_result
map_result-Each P K f k [] [] h e = tt
map_result-Each P K f k [] (y ∷ ys) h e = absurd (ground arith)
map_result-Each P K f k (x ∷ xs) [] h e = absurd (ground arith)
map_result-Each P K f k (x ∷ xs) (y ∷ ys) h e =
    (k x y h.0 (ground arith), map_result-Each P K f k xs ys h.1 (ground arith))

-- A job on its way is in the new state, or it was neither accepted nor running and is as it was.
abbrev pub Becomes : JobState → QueueJob → QueueJob → Type 0
Becomes target j k =
    ((contains j.state active_job_states ≡ true) × (k.state ≡ target) × (k.job_id ≡ j.job_id))
    ⊎ ((is_started j ≡ false) × (k ≡ j))

fail_job-Becomes :
    (ids : List String) (at : DateTime) (j k : QueueJob)
    → Covered ids j
    → fail_job ids at j ≡ ok k
    → Becomes JobState.failed j k
unfolding fail_job contains
fail_job-Becomes ids at j k c h = elim (Bool-cases (is_affected ids j)) [
  | inl e ↦
      let new =
        (make_job-eq
          (record j {
            state = JobState.failed;
            finished_at = some at;
            error_code = some "vacuum_reported_failure";
          })
          {k = k} (ground arith)).0 in
      inl (ground (arith, e), ap (λ x. x.state) new, ap (λ x. x.job_id) new)
  | inr e ↦ inr (ground (arith, c), ground arith)
]

doubt_job-Becomes :
    (ids : List String) (j k : QueueJob)
    → Covered ids j
    → doubt_job ids j ≡ ok k
    → Becomes JobState.uncertain j k
unfolding doubt_job contains
doubt_job-Becomes ids j k c h = elim (Bool-cases (is_affected ids j)) [
  | inl e ↦
      let new = (make_job-eq (record j { state = JobState.uncertain }) {k = k} (ground arith)).0 in
      inl (ground (arith, e), ap (λ x. x.state) new, ap (λ x. x.job_id) new)
  | inr e ↦ inr (ground (arith, c), ground arith)
]

settle-Each :
    (K : QueueJob → QueueJob → Type 0) (l : QueueLedger) (ids : List String)
    (f : QueueBlock → Result QueueBlock) (g : QueueJob → Result QueueJob) (at : DateTime)
    {m : QueueLedger}
    → All (Covered ids) l.jobs
    → ((j k : QueueJob) → Covered ids j → g j ≡ ok k → K j k)
    → settle_ledger l f g at ≡ ok m
    → Each K l.jobs m.jobs
unfolding settle_ledger
settle-Each K l ids f g at {m} covered related h =
    let (js, hj, h1) = >>=-eq-ok (map_result g l.jobs) _ {result = m} h in
    let (bs, hb, made) = >>=-eq-ok (map_result f l.blocks) _ {result = m} h1 in
    subst (λ (x : QueueLedger). Each K l.jobs x.jobs) (sym (make_ledger-eq _ made))
      (map_result-Each (Covered ids) K g related l.jobs js covered hj)

-- Without an affected block no job was accepted or running.
unaffected :
    (target : JobState) (js : List QueueJob) → All (Covered []) js → Each (Becomes target) js js
unfolding contains
unaffected target [] a = tt
unaffected target (j ∷ js) a = (inr (ground (arith, a.0), refl), unaffected target js a.1)

module _ (s : PlannerState) (at : DateTime) {t : PlannerState} where
  settled_by :
      (target : JobState) (ids : List String) (f : QueueBlock → Result QueueBlock)
      (g : QueueJob → Result QueueJob)
      → All (Covered ids) s.ledger.jobs
      → ((j k : QueueJob) → Covered ids j → g j ≡ ok k → Becomes target j k)
      → (if is_empty ids
          then ok s
          else (settle_ledger s.ledger f g at >>= λ ledger. with_ledger s ledger))
        ≡ ok t
      → Each (Becomes target) s.ledger.jobs t.ledger.jobs
  settled_by target [] f g covered related h =
      subst (λ (x : PlannerState). Each (Becomes target) s.ledger.jobs x.ledger.jobs) {x = s}
        {y = t} (ground arith) (unaffected target s.ledger.jobs covered)
  settled_by target (i ∷ ids) f g covered related h =
      let (m, done, made) = >>=-eq-ok (settle_ledger s.ledger f g at) _ {result = t} h in
      subst (λ (x : PlannerState). Each (Becomes target) s.ledger.jobs x.ledger.jobs)
        (sym (make_state-eq _ made))
        (settle-Each (Becomes target) s.ledger (i ∷ ids) f g at covered related done)

  -- An observed failure makes every job that was accepted or running a failed one, and an unclear state
  -- makes it an uncertain one. A job that was being dispatched becomes the same or stays as it was, and
  -- all other jobs stay as they were, each at its place.
  pub observed_failure-clears :
      (target : JobState)
      → ((observe_failed s at ≡ ok t) × (target ≡ JobState.failed))
        ⊎ ((observe_uncertain s at ≡ ok t) × (target ≡ JobState.uncertain))
      → Each (Becomes target) s.ledger.jobs t.ledger.jobs
  unfolding observe_failed observe_uncertain
  observed_failure-clears target (inl (h, is_target)) =
      let (ids, hit, h1) = >>=-eq-ok (affected_block_ids s.ledger at) _ {result = t} h in
      subst (λ x. Each (Becomes x) s.ledger.jobs t.ledger.jobs) (sym is_target)
        (settled_by JobState.failed ids (fail_block ids at) (fail_job ids at)
          (affected-Covered s.ledger at hit) (fail_job-Becomes ids at) h1)
  observed_failure-clears target (inr (h, is_target)) =
      let (ids, hit, h1) = >>=-eq-ok (affected_block_ids s.ledger at) _ {result = t} h in
      subst (λ x. Each (Becomes x) s.ledger.jobs t.ledger.jobs) (sym is_target)
        (settled_by JobState.uncertain ids (doubt_block ids) (doubt_job ids)
          (affected-Covered s.ledger at hit) (doubt_job-Becomes ids) h1)
