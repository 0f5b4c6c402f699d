-- ===== src/Guards/Loads.antt =====
-- `_async_load_planner_state`: what a restart leaves is stored, and nothing in it is ambiguous.
use ha_vacuum_planner.Base.{
  >>=-eq-ok, All, Bool, Bool-cases, List, Option, String, [], ap, arith, contains, false, inl, inr,
  int_eq, list_beq, map_result, nat_eq, none, not, ok, refl, some, string_eq, subst, sym, true,
  ◌&&◌, ◌==◌, ◌>>=◌, ◌∙◌, ◌∷◌, ◌≡◌,
}
use ha_vacuum_planner.Models.{
  DateTime, JobState, PlannerState, QueueJob, QueueLedger, block_beq, block_guarantee_eq,
  block_kind_eq, block_state_eq, dispatch_strategy_eq, empty_ledger, job_beq, job_state_eq,
  make_revision, make_state, mode_eq, option_beq, preferred_mode_eq,
}
use ha_vacuum_planner.Queue.{
  active_job_states, has_external_correlation, is_uncorrelated_active,
  quarantine_ambiguous_dispatches,
}
use ha_vacuum_planner.Setup.{
  ConfigEntry, async_load_planner_state, configured_area_plans, initial_planner_state, initial_room,
  initialize_state, lane_of, load_or_initialize, recover_state,
}
use ha_vacuum_planner.Codec.{IsoFormat}
use ha_vacuum_planner.Storage.{Backend, async_load, async_save}
use ha_vacuum_planner.Laws.Constructors.{make_ledger-eq, make_state-eq}
use ha_vacuum_planner.Rules.Restart.{quarantine_ambiguous_dispatches-settles}

-- no job is in an external state without a token
abbrev pub Settled : PlannerState → Type 0
Settled s = All (λ j. is_uncorrelated_active j ≡ false) s.ledger.jobs

option_string-eq : (a b : Option String) → option_beq string_eq.beq a b ≡ true → a ≡ b
option_string-eq none none h = refl
option_string-eq none (some b) h = cc
option_string-eq (some a) none h = cc
option_string-eq (some a) (some b) h = ap some ((string_eq.beq_iff a b).0 h)

job_beq-state : (j k : QueueJob) → job_beq j k ≡ true → (j.state == k.state) ≡ true
unfolding job_beq
job_beq-state j k h = ground arith

job_beq-token :
    (j k : QueueJob)
    → job_beq j k ≡ true
    → option_beq string_eq.beq j.adapter_token k.adapter_token ≡ true
unfolding job_beq
job_beq-token j k h = ground arith

-- the test of a job, as a function of what it reads
abbrev is_active_without : JobState → Option String → Bool
is_active_without state token =
    contains state active_job_states && not (has_external_correlation token)

same_activity :
    (j k : QueueJob) → job_beq j k ≡ true → is_uncorrelated_active j ≡ is_uncorrelated_active k
unfolding is_uncorrelated_active
same_activity j k h =
    ap (λ s. is_active_without s j.adapter_token)
      ((job_state_eq.beq_iff j.state k.state).0 (job_beq-state j k h))
    ∙ ap (is_active_without k.state)
        (option_string-eq j.adapter_token k.adapter_token (job_beq-token j k h))

settled_like :
    (js ks : List QueueJob)
    → list_beq job_beq js ks ≡ true
    → All (λ j. is_uncorrelated_active j ≡ false) js
    → All (λ j. is_uncorrelated_active j ≡ false) ks
unfolding list_beq
settled_like [] [] h a = tt
settled_like [] (k ∷ ks) h a = absurd (cc)
settled_like (j ∷ js) [] h a = absurd (cc)
settled_like (j ∷ js) (k ∷ ks) h a =
    (ground (arith, a.0, same_activity j k), settled_like js ks (ground arith) a.1)

-- How a loaded state came about, from what the store held: `stored` behind the load.
pub data Loaded {S : Type 0} (backend : Backend S) (iso : IsoFormat) (now : DateTime) (stored : S)
    : Option PlannerState → PlannerState × S → Type 0 where
  -- nothing was held: a state with an empty queue was saved
  initialized :
      {result : PlannerState × S}
      → result.0.ledger.blocks ≡ []
      → result.0.ledger.jobs ≡ []
      → async_save backend iso result.0 stored ≡ ok result.1
      → Loaded backend iso now stored none result
  -- the held state needed no recovery
  kept :
      (state : PlannerState) {recovered : QueueLedger}
      → quarantine_ambiguous_dispatches state.ledger now ≡ ok recovered
      → list_beq block_beq recovered.blocks state.ledger.blocks ≡ true
      → list_beq job_beq recovered.jobs state.ledger.jobs ≡ true
      → Loaded backend iso now stored (some state) (state, stored)
  -- the held state was recovered, and the recovered one was saved
  recovered :
      (state : PlannerState) {result : PlannerState × S}
      → quarantine_ambiguous_dispatches state.ledger now ≡ ok result.0.ledger
      → result.0.plan_revision ≡ state.plan_revision
      → async_save backend iso result.0 stored ≡ ok result.1
      → Loaded backend iso now stored (some state) result

Loaded-Settled :
    {S : Type 0} (backend : Backend S) (iso : IsoFormat) (now : DateTime) (stored : S)
    (held : Option PlannerState) (result : PlannerState × S)
    → Loaded backend iso now stored held result
    → Settled result.0
Loaded-Settled backend iso now stored held result (initialized no_blocks no_jobs saved) =
    subst (All (λ j. is_uncorrelated_active j ≡ false)) (sym no_jobs) tt
Loaded-Settled backend iso now stored held result (kept state {recovered = l} found same alike) =
    settled_like l.jobs state.ledger.jobs alike
      (quarantine_ambiguous_dispatches-settles state.ledger now found).0
Loaded-Settled backend iso now stored held result (recovered state found same saved) =
    (quarantine_ambiguous_dispatches-settles state.ledger now found).0

module _ {S : Type 0} (backend : Backend S) (iso : IsoFormat) (e : ConfigEntry) (new_id : String)
    (now : DateTime) where
  recover_state-Loaded :
      (state : PlannerState) (s : S) {result : PlannerState × S}
      → recover_state backend iso e new_id now state s ≡ ok result
      → Loaded backend iso now s (some state) result
  unfolding recover_state
  recover_state-Loaded state s {result} h =
      let (l, found, h1) =
        >>=-eq-ok (quarantine_ambiguous_dispatches state.ledger now) _ {result = result} h in
      elim (Bool-cases (
        list_beq block_beq l.blocks state.ledger.blocks
        && list_beq job_beq l.jobs state.ledger.jobs)) [
          | inl same ↦
              subst (Loaded backend iso now s (some state)) {x = (state, s)} {y = result}
                (ground arith) (kept state found (ground arith) (ground arith))
          | inr other ↦
              let (updated, made, h2) =
                >>=-eq-ok (make_state (record state { ledger = l }))
                  (λ u. async_save backend iso u s >>= λ n. ok (u, n)) {result = result}
                  (ground arith) in
              let (stored, saved, last) =
                >>=-eq-ok (async_save backend iso updated s) _ {result = result} h2 in
              let new = make_state-eq _ made in
              subst (Loaded backend iso now s (some state)) {x = (updated, stored)} {y = result}
                (ground arith)
                (recovered state (found ∙ ap (λ (x : PlannerState). ok x.ledger) (sym new))
                  (ap (λ (x : PlannerState). x.plan_revision) new) saved)
        ]

  initialize_state-Loaded :
      (s : S) {result : PlannerState × S}
      → initialize_state backend iso e new_id now s ≡ ok result
      → Loaded backend iso now s none result
  unfolding initialize_state initial_planner_state empty_ledger
  initialize_state-Loaded s {result} h =
      let (state, built, h1) =
        >>=-eq-ok (initial_planner_state e new_id now) _ {result = result} h in
      let (rooms, planned, h2) =
        >>=-eq-ok (map_result (initial_room (lane_of e)) (configured_area_plans e)) _
          {result = state} built in
      let (revision, made, h3) =
        >>=-eq-ok
          (make_revision (record { revision_id = new_id; created_at = now; room_plans = rooms })) _
          {result = state} h2 in
      let (ledger, empty, h4) = >>=-eq-ok empty_ledger _ {result = state} h3 in
      let (stored, saved, last) =
        >>=-eq-ok (async_save backend iso state s) _ {result = result} h1 in
      let of_state : state.ledger ≡ ledger =
        ap (λ (x : PlannerState). x.ledger) (make_state-eq _ h4) in
      let of_ledger = of_state ∙ make_ledger-eq _ empty in
      subst (Loaded backend iso now s none) {x = (state, stored)} {y = result} (ground arith) (
        initialized (ap (λ (x : QueueLedger). x.blocks) of_ledger)
          (ap (λ (x : QueueLedger). x.jobs) of_ledger) saved)

  -- What a setup loads has no job in an external state without a token. It is the state that the store
  -- held, which the quarantine at a restart leaves as it is; or that state with the quarantined ledger and
  -- the same plan, saved before it is returned; or, where the store held none, a state with an empty
  -- queue, saved as well.
  pub async_load_planner_state-Settled :
      (s : S) {result : PlannerState × S}
      → async_load_planner_state backend iso e new_id now s ≡ ok result
      → Settled result.0
        × (held : Option PlannerState) × (stored : S) × (async_load backend iso s
            ≡ ok (held, stored))
        × Loaded backend iso now stored held result
  unfolding async_load_planner_state
  async_load_planner_state-Settled s {result} h =
      let ((held, stored), found, next) =
        >>=-eq-ok (async_load backend iso s) _ {result = result} h in
      let loaded = from_held held stored next in
      (Loaded-Settled backend iso now stored held result loaded, held, stored, found, loaded)
    where
      from_held :
          (held : Option PlannerState) (stored : S)
          → load_or_initialize backend iso e new_id now (held, stored) ≡ ok result
          → Loaded backend iso now stored held result
      from_held none stored k = initialize_state-Loaded stored k
      from_held (some state) stored k = recover_state-Loaded state stored k
