-- ===== src/Rules/Results.antt =====
-- `_validate_terminal_block_result`: when the outcome of a block agrees with those of its jobs.
use ha_vacuum_planner.Base.{
  Bool, List, [], all, any, ap, arith, contains, false, int_eq, is_empty, length, ltb, nat_beq,
  nat_eq, not, ok, refl, set_eq, string_eq, subset, true, ◌&&◌, ◌==◌, ◌||◌, ◌↔◌, ◌∙◌, ◌∷◌, ◌≡◌,
}
use ha_vacuum_planner.Models.{
  BlockState, JobState, QueueJob, block_guarantee_eq, block_kind_eq, block_state_eq,
  dispatch_strategy_eq, is_terminal_job, job_state_eq, job_terminal_states, mode_eq,
  preferred_mode_eq, state_set, states_of, validate_terminal_block_result,
}
use ha_vacuum_planner.Laws.Sets.{
  all-to_set, contains-any, contains-to_set_lem, length-to_set-lt_two, length-to_set-zero,
}

-- the rule without sets
abbrev pub agrees : BlockState → List QueueJob → Bool
agrees BlockState.completed js = not (is_empty js) && all (λ j. j.state == JobState.completed) js
agrees BlockState.partial js =
    all is_terminal_job js
    && any (λ j. j.state == JobState.completed) js
    && any (λ j. not (j.state == JobState.completed)) js
agrees BlockState.failed js =
    any (λ j. j.state == JobState.failed) js || not (all is_terminal_job js)
agrees _ js = true

any-map :
    (p : JobState → Bool) (js : List QueueJob) → any p (states_of js) ≡ any (λ j. p j.state) js
unfolding any
any-map p [] = refl
any-map p (j ∷ js) = ground (arith, any-map p js)

all-map :
    (p : JobState → Bool) (js : List QueueJob) → all p (states_of js) ≡ all (λ j. p j.state) js
unfolding all
all-map p [] = refl
all-map p (j ∷ js) = ground (arith, all-map p js)

state_set-contains :
    (s : JobState) (js : List QueueJob) → contains s (state_set js) ≡ any (λ j. j.state == s) js
unfolding state_set
state_set-contains s js =
    contains-to_set_lem s (states_of js) ∙ contains-any s (states_of js) ∙ any-map (λ x. x == s) js

state_set-subset :
    (js : List QueueJob) (ss : List JobState)
    → subset (state_set js) ss ≡ all (λ j. contains j.state ss) js
unfolding state_set subset
state_set-subset js ss =
    all-to_set (λ x. contains x ss) (states_of js) ∙ all-map (λ x. contains x ss) js

is_empty-states : (js : List QueueJob) → is_empty (states_of js) ≡ is_empty js
is_empty-states [] = refl
is_empty-states (j ∷ js) = refl

state_set-empty : (js : List QueueJob) → nat_beq (length (state_set js)) 0 ≡ is_empty js
unfolding state_set
state_set-empty js = length-to_set-zero (states_of js) ∙ is_empty-states js

state_set-lt_two :
    (js : List QueueJob)
    → any (λ j. j.state == JobState.completed) js ≡ true
    → ltb (length (state_set js)) 2 ≡ not (any (λ j. not (j.state == JobState.completed)) js)
unfolding state_set
state_set-lt_two js h =
    length-to_set-lt_two JobState.completed (states_of js) (
      contains-any JobState.completed (states_of js)
      ∙ any-map (λ x. x == JobState.completed) js
      ∙ h)
    ∙ ap not (any-map (λ x. not (x == JobState.completed)) js)

all-one :
    (js : List QueueJob)
    → all (λ j. contains j.state (JobState.completed ∷ [])) js
      ≡ all (λ j. j.state == JobState.completed) js
unfolding all contains
all-one [] = refl
all-one (j ∷ js) = ground (arith, all-one js)

-- The states are exactly `{completed}` if some job is completed, and all are.
state_set-completed :
    (js : List QueueJob)
    → set_eq (state_set js) (JobState.completed ∷ [])
      ≡ (all (λ j. j.state == JobState.completed) js && any (λ j. j.state == JobState.completed) js)
unfolding set_eq
state_set-completed js = ground (
  arith,
  state_set-subset js (JobState.completed ∷ []),
  all-one js,
  state_set-contains JobState.completed js,
  only_one (state_set js),
)
  where
    only_one :
        (ss : List JobState) → subset (JobState.completed ∷ []) ss ≡ contains JobState.completed ss
    only_one ss = ground arith

some_completed :
    (js : List QueueJob)
    → (not (is_empty js) && all (λ j. j.state == JobState.completed) js)
      ≡ (all (λ j. j.state == JobState.completed) js && any (λ j. j.state == JobState.completed) js)
unfolding all any
some_completed [] = refl
some_completed (j ∷ js) = ground arith

nonempty :
    (js : List QueueJob) → any (λ j. j.state == JobState.completed) js ≡ true → is_empty js ≡ false
unfolding any
nonempty [] h = cc
nonempty (j ∷ js) h = refl

-- For every final state and all jobs, the check passes exactly when the rule holds: a completed block
-- has jobs, all completed; a partial one has only ended jobs, some completed and some not; a failed
-- one has a failed job, or one that has not ended.
pub validate_terminal_block_result_iff :
    (s : BlockState) (js : List QueueJob)
    → (validate_terminal_block_result s js ≡ ok tt) ↔ (agrees s js ≡ true)
unfolding validate_terminal_block_result
validate_terminal_block_result_iff s js = (forth, back)
  where
    forth : validate_terminal_block_result s js ≡ ok tt → agrees s js ≡ true
    forth h = ground (
      arith,
      state_set-completed js,
      some_completed js,
      nonempty js,
      state_set-subset js job_terminal_states,
      state_set-empty js,
      state_set-contains JobState.completed js,
      state_set-contains JobState.failed js,
      state_set-lt_two js,
    )

    back : agrees s js ≡ true → validate_terminal_block_result s js ≡ ok tt
    back h = ground (
      arith,
      state_set-completed js,
      some_completed js,
      nonempty js,
      state_set-subset js job_terminal_states,
      state_set-empty js,
      state_set-contains JobState.completed js,
      state_set-contains JobState.failed js,
      state_set-lt_two js,
    )
