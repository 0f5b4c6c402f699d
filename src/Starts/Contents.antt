-- ===== src/Starts/Contents.antt =====
-- What a start seals: all entries of the snapshot, in their order, or nothing.
use mathlib.Core.Path.{ap₂}
use ha_vacuum_planner.Base.{
  All, Bool-cases, List, Option, Result, String, [], ap, arith, draw_ids, err, find, inl, inr,
  is_empty, length, map, none, ok, pos, refl, some, subst, sym, ℕ, ◌++◌, ◌+◌, ◌∷◌, ◌≡◌, ◌≢◌, ◌⊎◌,
}
use ha_vacuum_planner.Models.{
  BlockState, DateTime, JobState, PlanSnapshot, QueueBlock, QueueJob, QueueLedger, SnapshotJob,
  job_ids_of, make_block, make_job, make_ledger, range_from,
}
use ha_vacuum_planner.Queue.{
  StartRequest, StartResult, created, is_repeated, planned_job, planned_jobs, seal_block,
  sealed_block, start_due_block, start_new_block,
}
use ha_vacuum_planner.Laws.Constructors.{make_job-eq}

-- The jobs that are planned from the entries `es` for the block `id`.
pub record Plans (id : String) (now : DateTime) (i : ℕ) (es : List SnapshotJob) (js : List QueueJob)
    : Type 0 where
  pub areas : map (λ j. j.area_id) js ≡ map (λ e. e.area_id) es
  pub modes : map (λ j. j.mode) js ≡ map (λ e. e.mode) es
  pub places : map (λ j. j.position) js ≡ range_from i (length es)
  pub fresh :
      All
        (λ j.
          (j.state ≡ JobState.pending)
          × (j.block_id ≡ id)
          × (j.planned_at ≡ now)
          × (j.attempt ≡ pos 0)
          × (j.adapter_token ≡ none))
        js

pub planned_jobs-Plans :
    (request : StartRequest) (id : String) (i : ℕ) (ids : List String) (es : List SnapshotJob)
    (js : List QueueJob)
    → planned_jobs request id i ids es ≡ ok js
    → Plans id request.now i es js × (job_ids_of js ≡ ids)
unfolding planned_jobs range_from
planned_jobs-Plans request id i [] [] [] h =
    (record { areas = refl; modes = refl; places = refl; fresh = tt }, refl)
planned_jobs-Plans request id i [] [] (j ∷ js) h = absurd (ground arith)
planned_jobs-Plans request id i [] (e ∷ es) js h = absurd (ground arith)
planned_jobs-Plans request id i (x ∷ ids) [] js h = absurd (ground arith)
planned_jobs-Plans request id i (x ∷ ids) (e ∷ es) [] h = absurd (ground arith)
planned_jobs-Plans request id i (x ∷ ids) (e ∷ es) (j ∷ js) h =
    let new : make_job (planned_job request id i x e) ≡ ok j = ground arith in
    let same = (make_job-eq (planned_job request id i x e) new).0 in
    let (p, names) = planned_jobs-Plans request id (i + 1) ids es js (ground arith) in
    (
      record {
        areas = ap₂ ◌∷◌ (ap (λ k. k.area_id) same) p.areas;
        modes = ap₂ ◌∷◌ (ap (λ k. k.mode) same) p.modes;
        places = ap₂ ◌∷◌ (ap (λ k. k.position) same) p.places;
        fresh = (
          (
            ap (λ k. k.state) same,
            ap (λ k. k.block_id) same,
            ap (λ k. k.planned_at) same,
            ap (λ k. k.attempt) same,
            ap (λ k. k.adapter_token) same,
          ),
          p.fresh,
        );
      },
      ap₂ ◌∷◌ (ap (λ k. k.job_id) same) names,
    )

-- The ledger `r.ledger` is `l` with one sealed block and its jobs behind all others.
pub record Seals (l : QueueLedger) (snapshot : PlanSnapshot) (request : StartRequest)
    (r : StartResult) : Type 0 where
  pub block : QueueBlock
  pub returned : r.block ≡ some block
  pub status : r.status ≡ created
  pub blocks : r.ledger.blocks ≡ l.blocks ++ (block ∷ [])
  pub jobs : r.ledger.jobs ≡ l.jobs ++ r.jobs
  pub state : block.state ≡ BlockState.sealed
  pub lane_id : block.lane_id ≡ request.lane_id
  pub idempotency_key : block.idempotency_key ≡ request.idempotency_key
  pub job_ids : block.job_ids ≡ job_ids_of r.jobs
  pub plans : Plans block.block_id request.now 0 snapshot.jobs r.jobs
  pub made : make_ledger r.ledger ≡ ok r.ledger

module _ (l : QueueLedger) (snapshot : PlanSnapshot) (request : StartRequest) (block_id : String)
    (ids : List String) {r : StartResult}
    (h : seal_block l snapshot request block_id ids ≡ ok r) where
  Seals-of :
      (q : Result (List QueueJob))
      → planned_jobs request block_id 0 ids snapshot.jobs ≡ q
      → Seals l snapshot request r
  unfolding seal_block make_block make_ledger
  Seals-of (err e) f = absurd (ground arith)
  Seals-of (ok js) f =
      let b = sealed_block request snapshot block_id ids in
      let (plans, names) = planned_jobs-Plans request block_id 0 ids snapshot.jobs js f in
      let same : js ≡ r.jobs = ground arith in
      record {
        block = b;
        returned = ground arith;
        status = ground arith;
        blocks = ground arith;
        jobs = ground arith;
        state = refl;
        lane_id = refl;
        idempotency_key = refl;
        job_ids = sym (subst (λ x. job_ids_of x ≡ ids) same names);
        plans = subst (λ x. Plans block_id request.now 0 snapshot.jobs x) same plans;
        made = ground arith;
      }

  pub seal_block-Seals : Seals l snapshot request r
  seal_block-Seals = Seals-of _ refl

module _ (l : QueueLedger) (snapshot : PlanSnapshot) (request : StartRequest) (ids : ℕ → String)
    {r : StartResult} (h : start_due_block l snapshot request ids ≡ ok r) where
  outcome_of :
      (o : Option QueueBlock)
      → find (is_repeated request) l.blocks ≡ o
      → Seals l snapshot request r ⊎ ((r.ledger ≡ l) × (r.status ≢ created))
  unfolding start_due_block start_new_block
  outcome_of (some b) f = inr (ground arith, ground arith)
  outcome_of none f = elim (Bool-cases (is_empty snapshot.jobs)) [
    | inl e ↦ inr (ground arith, ground arith)
    | inr e ↦ inl (
        seal_block-Seals l snapshot request (ids 0) (draw_ids ids 1 snapshot.jobs) {r = r}
          (ground arith))
  ]

  -- A start that returns has sealed one block that plans every entry of the snapshot, in the order of
  -- the snapshot, at the positions from 0 on, as pending jobs behind all older ones; or it has left
  -- the ledger as it was.
  pub start_due_block-Seals : Seals l snapshot request r ⊎ ((r.ledger ≡ l) × (r.status ≢ created))
  start_due_block-Seals = outcome_of _ refl
