-- ===== src/Safety/Resolutions.antt =====
-- The resolution of uncertainty and the quarantine at a restart keep the ledger's history.
use ha_vacuum_planner.Base.{
  Bool, Bool-cases, List, Option, Result, String, any, arith, contains, err, find, inl, inr, int_eq,
  map_result, nat_eq, none, ok, refl, some, string_eq, subst, sym, true, ◌&&◌, ◌==◌, ◌≡◌,
}
use ha_vacuum_planner.Models.{
  BlockState, DateTime, JobState, QueueBlock, QueueJob, QueueLedger, block_guarantee_eq,
  block_kind_eq, block_state_eq, dispatch_strategy_eq, find_block, find_job, job_state_eq,
  make_block, make_job, mode_eq, parent_of, preferred_mode_eq, put_job,
}
use ha_vacuum_planner.Queue.{
  active_block_states, ambiguous_block_ids, is_ambiguous, is_uncorrelated_active,
  quarantine_ambiguous_dispatches, quarantine_block, quarantine_job, resolve_uncertain_block,
  resolve_uncertain_job, resumed_block, resumed_state, retry_safe,
}
use ha_vacuum_planner.Laws.Keyed.{find-All, find-holds, replace_where-All}
use ha_vacuum_planner.Laws.Constructors.{make_block_idem, make_job_idem}
use ha_vacuum_planner.Laws.History.{
  Extends-refl, Follows, IsValid, KeepsBlock, KeepsJob, KeepsJob-refl,
}
use ha_vacuum_planner.Safety.Moves.{with_id, with_job_id}
use ha_vacuum_planner.Safety.Edits.{Follows-batch, make_job-frozen, put_job-Extends}
use ha_vacuum_planner.Safety.Rewrites.{Follows-rewrite}

resumed_block-KeepsBlock :
    (remaining : Bool) (b : QueueBlock) (at : DateTime)
    → (b.state == BlockState.uncertain) ≡ true
    → KeepsBlock b (resumed_block remaining b at)
unfolding resumed_block contains
resumed_block-KeepsBlock remaining b at h = ground arith

-- the uncertain job that is resolved
abbrev pub resolved : QueueJob → DateTime → QueueJob
resolved job at = record job {
  state = JobState.failed;
  finished_at = some at;
  error_code = some "recovery_retry_safe";
  error_detail = none;
}

resolved-KeepsJob :
    (j : QueueJob) (at : DateTime)
    → (j.state == JobState.uncertain) ≡ true
    → KeepsJob j (resolved j at)
unfolding contains
resolved-KeepsJob j at h = ground arith

-- the test for what stays uncertain in the block
abbrev pub remains : String → List QueueJob → Bool
remains id jobs = any (λ j. j.block_id == id && is_ambiguous j) jobs

module _ (l : QueueLedger) (id : String) (at : DateTime) {m : QueueLedger} (v : IsValid l)
    (h : resolve_uncertain_job l id retry_safe at ≡ ok m) where
  resolve_of :
      (j : QueueJob) (q : Option QueueBlock) (r : Result QueueJob)
      → find (with_job_id id) l.jobs ≡ some j
      → find (with_id j.block_id) l.blocks ≡ q
      → make_job (resolved j at) ≡ r
      → Follows l m
  unfolding resolve_uncertain_job find_job parent_of make_block put_job
  resolve_of j none r f g made = absurd (ground arith)
  resolve_of j (some b) (err e) f g made = absurd (ground arith)
  resolve_of j (some b) (ok k) f g made =
      let jobs = put_job id k l.jobs in
      let old : make_job j ≡ ok j =
        find-All (λ j. make_job j ≡ ok j) (with_job_id id) l.jobs f v.jobs in
      let same : k ≡ resolved j at = make_job-frozen j (resolved j at) old refl made in
      let owner : b.block_id ≡ j.block_id =
        (string_eq.beq_iff _ _).0 (find-holds (with_id j.block_id) l.blocks g) in
      Follows-batch l b.block_id b (resumed_block (remains b.block_id jobs) b at) jobs
        l.last_reconciled_at v (subst (λ i. find (with_id i) l.blocks ≡ some b) (sym owner) g)
        (resumed_block-KeepsBlock (remains b.block_id jobs) b at (ground arith)) (ground arith)
        (
          put_job-Extends l id k v.made f
              (subst (λ x. KeepsJob j x) (sym same) (resolved-KeepsJob j at (ground arith))),
          replace_where-All (λ j. make_job j ≡ ok j) (with_job_id id) k l.jobs
              (make_job_idem (resolved j at) made) v.jobs,
        )
        (ground arith)

  resolve_from : (o : Option QueueJob) → find (with_job_id id) l.jobs ≡ o → Follows l m
  unfolding resolve_uncertain_job find_job
  resolve_from none f = absurd (ground arith)
  resolve_from (some j) f = resolve_of j _ _ f refl refl

  -- A resolved job fails, its block goes on or ends, and nothing else changes.
  pub resolve_uncertain_job-Follows : Follows l m
  resolve_uncertain_job-Follows = resolve_from _ refl

resumed_state-KeepsBlock :
    (b : QueueBlock)
    → (b.state == BlockState.uncertain) ≡ true
    → KeepsBlock b (record b { state = resumed_state b })
unfolding contains
resumed_state-KeepsBlock b h = ground arith

module _ (l : QueueLedger) (id : String) {m : QueueLedger} (v : IsValid l)
    (h : resolve_uncertain_block l id retry_safe ≡ ok m) where
  release_of : (o : Option QueueBlock) → find (with_id id) l.blocks ≡ o → Follows l m
  unfolding resolve_uncertain_block find_block make_block
  release_of none f = absurd (ground arith)
  release_of (some b) f =
      Follows-batch l id b (record b { state = resumed_state b }) l.jobs l.last_reconciled_at v f
        (resumed_state-KeepsBlock b (ground arith)) (ground arith)
        (Extends-refl KeepsJob KeepsJob-refl l.jobs, v.jobs) (ground arith)

  -- A released block goes on, and nothing else changes.
  pub resolve_uncertain_block-Follows : Follows l m
  resolve_uncertain_block-Follows = release_of _ refl

quarantine_block-KeepsBlock :
    (ids : List String) (b c : QueueBlock)
    → make_block b ≡ ok b
    → quarantine_block ids b ≡ ok c
    → KeepsBlock b c
unfolding quarantine_block make_block contains
quarantine_block-KeepsBlock ids b c old h = ground arith

quarantine_job-KeepsJob :
    (j k : QueueJob) → make_job j ≡ ok j → quarantine_job j ≡ ok k → KeepsJob j k
unfolding quarantine_job is_uncorrelated_active contains
quarantine_job-KeepsJob j k old h =
    ground (arith, make_job-frozen j (record j { state = JobState.uncertain }) {c = k} old refl)

quarantine_block-made :
    (ids : List String) (b c : QueueBlock)
    → make_block b ≡ ok b
    → quarantine_block ids b ≡ ok c
    → make_block c ≡ ok c
unfolding quarantine_block
quarantine_block-made ids b c old h =
    elim (Bool-cases (contains b.block_id ids && contains b.state active_block_states)) [
      | inl e ↦ make_block_idem (record b { state = BlockState.uncertain }) (ground arith)
      | inr e ↦ subst (λ x. make_block x ≡ ok x) {x = b} (ground arith) old
    ]

quarantine_job-made :
    (j k : QueueJob) → make_job j ≡ ok j → quarantine_job j ≡ ok k → make_job k ≡ ok k
unfolding quarantine_job
quarantine_job-made j k old h = elim (Bool-cases (is_uncorrelated_active j)) [
  | inl e ↦ make_job_idem (record j { state = JobState.uncertain }) (ground arith)
  | inr e ↦ subst (λ x. make_job x ≡ ok x) {x = j} (ground arith) old
]

module _ (l : QueueLedger) (at : DateTime) {m : QueueLedger} (v : IsValid l)
    (h : quarantine_ambiguous_dispatches l at ≡ ok m) where
  restart_of :
      (r : Result (List QueueBlock)) (q : Result (List QueueJob))
      → map_result (quarantine_block (ambiguous_block_ids l)) l.blocks ≡ r
      → map_result quarantine_job l.jobs ≡ q
      → Follows l m
  unfolding quarantine_ambiguous_dispatches
  restart_of (err e) q f g = absurd (ground arith)
  restart_of (ok bs) (err e) f g = absurd (ground arith)
  restart_of (ok bs) (ok js) f g =
      let ids = ambiguous_block_ids l in
      Follows-rewrite l at (quarantine_block ids) quarantine_job (λ b. make_block b ≡ ok b)
        (λ b c old e.
          (quarantine_block-KeepsBlock ids b c old e, quarantine_block-made ids b c old e))
        (λ j k old e. (quarantine_job-KeepsJob j k old e, quarantine_job-made j k old e)) v v.blocks
        f g (ground arith)

  -- The quarantine at a restart writes states alone.
  pub quarantine_ambiguous_dispatches-Follows : Follows l m
  quarantine_ambiguous_dispatches-Follows = restart_of _ _ refl refl
