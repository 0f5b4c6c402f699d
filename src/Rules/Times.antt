-- ===== src/Rules/Times.antt =====
-- The checks of timestamps, and what a job that its constructor accepts looks like.
use ha_vacuum_planner.Base.{
  List, Ordered, [], arith, contains, false, int_eq, is_some, list_beq, ltℤ, nat_eq, none, ok, pos,
  refl, some, sort_by, sort_by-Ordered, sort_by_fixed, string_eq, true, ◌↔◌, ◌∷◌, ◌≡◌, ◌≢◌, ◌⊎◌,
}
use ha_vacuum_planner.Models.{
  Ascending, DateTime, JobState, QueueJob, block_guarantee_eq, block_kind_eq, block_state_eq,
  dispatch_strategy_eq, is_chronological, is_naive?, job_state_eq, job_timestamps, lt_time,
  make_job, mode_eq, preferred_mode_eq, time_beq, validate_job_lifecycle,
}
use ha_vacuum_planner.Laws.Constructors.{make_job-eq, make_job_idem}

lt_time-asym : (a b : DateTime) → lt_time a b ≡ true → lt_time b a ≡ false
lt_time-asym a b h = ground arith

time_beq_refl : (ts : List DateTime) → list_beq time_beq ts ts ≡ true
unfolding list_beq
time_beq_refl [] = refl
time_beq_refl (t ∷ ts) = ground (arith, time_beq_refl ts)

Ordered-Ascending : (ts : List DateTime) → Ordered lt_time ts → Ascending ts
Ordered-Ascending [] h = tt
Ordered-Ascending (t ∷ []) h = tt
Ordered-Ascending (t ∷ u ∷ us) h = (ground arith, Ordered-Ascending (u ∷ us) h.1)

Ascending-Ordered : (ts : List DateTime) → Ascending ts → Ordered lt_time ts
Ascending-Ordered [] h = tt
Ascending-Ordered (t ∷ []) h = tt
Ascending-Ordered (t ∷ u ∷ us) h = (ground arith, Ascending-Ordered (u ∷ us) h.1)

-- Times with the instants of ascending ones ascend.
Ascending-beq :
    (ts us : List DateTime) → list_beq time_beq ts us ≡ true → Ascending us → Ascending ts
unfolding list_beq
Ascending-beq [] us h k = tt
Ascending-beq (t ∷ []) us h k = tt
Ascending-beq (t ∷ t' ∷ ts) [] h k = absurd (ground arith)
Ascending-beq (t ∷ t' ∷ ts) (u ∷ []) h k = absurd (ground arith)
Ascending-beq (t ∷ t' ∷ ts) (u ∷ u' ∷ us) h k =
    (ground (arith, k.0), Ascending-beq (t' ∷ ts) (u' ∷ us) (ground arith) k.1)

-- The comparison of the timestamps with their sorted copy passes exactly when none lies before the
-- one that precedes it.
pub is_chronological_iff : (ts : List DateTime) → (is_chronological ts ≡ true) ↔ Ascending ts
unfolding is_chronological
is_chronological_iff ts = (
  λ h.
      Ascending-beq ts (sort_by lt_time ts) h
        (Ordered-Ascending (sort_by lt_time ts) (sort_by-Ordered lt_time lt_time-asym ts)),
  λ h. rw (sort_by_fixed lt_time ts (Ascending-Ordered ts h)) (time_beq_refl ts),
)

-- the states after a dispatch whose outcome is not a failure or a cancellation
abbrev pub sent_states : List JobState
sent_states =
    JobState.dispatching ∷ JobState.accepted ∷ JobState.running ∷ JobState.completed
    ∷ JobState.uncertain ∷ []

-- the states in which a job has ended
abbrev pub ended_states : List JobState
ended_states = JobState.completed ∷ JobState.failed ∷ JobState.skipped ∷ JobState.cancelled ∷ []

-- The life of a job as its fields tell it.
pub record TellsLife (j : QueueJob) : Type 0 where
  pub counted : ltℤ j.attempt (pos 0) ≡ false
  pub untouched :
      j.state ≡ JobState.pending
      → (j.attempt ≡ pos 0)
        × (j.adapter_token ≡ none)
        × (j.sent_at ≡ none)
        × (j.started_at ≡ none)
        × (j.finished_at ≡ none)
  pub sent : contains j.state sent_states ≡ true → (j.attempt ≢ pos 0) × (is_some j.sent_at ≡ true)
  pub started :
      (j.state ≡ JobState.running) ⊎ (j.state ≡ JobState.completed) → is_some j.started_at ≡ true
  pub ended : is_some j.finished_at ≡ contains j.state ended_states
  pub ascending : Ascending (job_timestamps j)

abbrev NoNaive : QueueJob → Type 0
NoNaive j =
    (is_naive? (some j.planned_at) ≡ false)
    × (is_naive? j.sent_at ≡ false)
    × (is_naive? j.started_at ≡ false)
    × (is_naive? j.finished_at ≡ false)

module _ (j : QueueJob) (h : validate_job_lifecycle j ≡ ok tt) where
  lifecycle-counted : ltℤ j.attempt (pos 0) ≡ false
  unfolding validate_job_lifecycle
  lifecycle-counted = ground arith

  lifecycle-untouched :
      j.state ≡ JobState.pending
      → (j.attempt ≡ pos 0)
        × (j.adapter_token ≡ none)
        × (j.sent_at ≡ none)
        × (j.started_at ≡ none)
        × (j.finished_at ≡ none)
  unfolding validate_job_lifecycle
  lifecycle-untouched s = ground (arith, int_eq.beq_iff j.attempt (pos 0))

  lifecycle-sent :
      contains j.state sent_states ≡ true → (j.attempt ≢ pos 0) × (is_some j.sent_at ≡ true)
  unfolding validate_job_lifecycle
  lifecycle-sent s = (λ e. ground (arith, int_eq.beq_iff j.attempt (pos 0)), ground arith)

  lifecycle-started :
      (j.state ≡ JobState.running) ⊎ (j.state ≡ JobState.completed) → is_some j.started_at ≡ true
  unfolding validate_job_lifecycle contains
  lifecycle-started s = ground arith

  lifecycle-ended : is_some j.finished_at ≡ contains j.state ended_states
  unfolding validate_job_lifecycle contains
  lifecycle-ended = ground arith

  lifecycle-Ascending : Ascending (job_timestamps j)
  unfolding validate_job_lifecycle
  lifecycle-Ascending = (is_chronological_iff (job_timestamps j)).0 (ground arith)

-- A job that its constructor accepts tells its life consistently: no attempt is negative; a pending
-- job has no trace of a dispatch; a job that was sent has an attempt and a time of sending; a running
-- or completed one has a time of starting; a time of ending stands exactly in the jobs that are
-- completed, failed, skipped or cancelled; and its times ascend.
pub make_job-TellsLife : (j : QueueJob) {k : QueueJob} → make_job j ≡ ok k → TellsLife k
make_job-TellsLife j {k} h =
    let again = make_job-eq k (make_job_idem j h) in
    let life = again.4 in
    record {
      counted = lifecycle-counted k life;
      untouched = lifecycle-untouched k life;
      sent = lifecycle-sent k life;
      started = lifecycle-started k life;
      ended = lifecycle-ended k life;
      ascending = lifecycle-Ascending k life;
    }
