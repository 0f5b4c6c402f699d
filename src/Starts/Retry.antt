-- ===== src/Starts/Retry.antt =====
-- A start that is repeated with the same lane and key returns the same block and the same jobs, and
-- changes nothing, whatever else the repeated request says.
use ha_vacuum_planner.Base.{
  List, Option, String, [], any, ap, arith, contains, distinct, false, find, inl, inr, int_eq,
  map_result, nat_eq, none, ok, refl, some, string_eq, subst, sym, true, ℕ, ◌++◌, ◌∷◌, ◌≡◌,
}
use ha_vacuum_planner.Models.{
  PlanSnapshot, QueueBlock, QueueJob, QueueLedger, block_guarantee_eq, block_kind_eq,
  block_state_eq, dispatch_strategy_eq, job_by_id, job_ids_of, job_state_eq, mode_eq,
  preferred_mode_eq, require_job,
}
use ha_vacuum_planner.Queue.{
  StartRequest, StartResult, created, existing, is_open_in, is_repeated, jobs_for_block,
  start_due_block, start_new_block,
}
use ha_vacuum_planner.Safety.Edits.{distinct_ids}
use ha_vacuum_planner.Starts.Contents.{start_due_block-Seals}

job_by_id-append :
    (xs ys : List QueueJob) (id : String) {j : QueueJob}
    → job_by_id ys id ≡ some j
    → job_by_id (xs ++ ys) id ≡ some j
unfolding job_by_id
job_by_id-append [] ys id h = h
job_by_id-append (x ∷ xs) ys id h = ground (arith, job_by_id-append xs ys id h)

job_by_id-absent :
    (js : List QueueJob) (id : String)
    → contains id (job_ids_of js) ≡ false
    → job_by_id js id ≡ none
unfolding job_by_id contains
job_by_id-absent [] id h = refl
job_by_id-absent (j ∷ js) id h =
    ground
      (arith, job_by_id-absent js id, string_eq.beq_iff id j.job_id, string_eq.beq_iff j.job_id id)

job_by_id-head :
    (j : QueueJob) (js : List QueueJob)
    → contains j.job_id (job_ids_of js) ≡ false
    → job_by_id (j ∷ js) j.job_id ≡ some j
unfolding job_by_id
job_by_id-head j js h =
    ground (arith, job_by_id-absent js j.job_id h, string_eq.beq_iff j.job_id j.job_id)

append-step :
    (xs : List QueueJob) (j : QueueJob) (js : List QueueJob)
    → xs ++ (j ∷ js) ≡ (xs ++ (j ∷ [])) ++ js
append-step [] j js = refl
append-step (x ∷ xs) j js = ap (◌∷◌ x) (append-step xs j js)

-- Jobs with distinct identities are found again by their identities.
require_jobs-append :
    (xs js : List QueueJob)
    → distinct (job_ids_of js) ≡ true
    → map_result (require_job (xs ++ js)) (job_ids_of js) ≡ ok js
unfolding map_result require_job distinct
require_jobs-append xs [] d = refl
require_jobs-append xs (j ∷ js) d =
    let rest : map_result (require_job (xs ++ (j ∷ js))) (job_ids_of js) ≡ ok js =
      subst (λ ys. map_result (require_job ys) (job_ids_of js) ≡ ok js) (sym (append-step xs j js))
        (require_jobs-append (xs ++ (j ∷ [])) js (ground arith)) in
    let first : job_by_id (xs ++ (j ∷ js)) j.job_id ≡ some j =
      job_by_id-append xs (j ∷ js) j.job_id (job_by_id-head j js (ground arith)) in
    ground (arith, first, rest)

distinct-append :
    (xs js : List QueueJob)
    → distinct (job_ids_of (xs ++ js)) ≡ true
    → distinct (job_ids_of js) ≡ true
unfolding distinct
distinct-append [] js d = d
distinct-append (x ∷ xs) js d = distinct-append xs js (ground arith)

-- Where no block of the lane is open, the new block is the first that a repeated start meets.
find_repeated :
    (request : StartRequest) (bs : List QueueBlock) (b : QueueBlock)
    → any (is_open_in request.lane_id) bs ≡ false
    → is_repeated request b ≡ true
    → find (is_repeated request) (bs ++ (b ∷ [])) ≡ some b
unfolding any find is_open_in is_repeated
find_repeated request [] b h k = ground arith
find_repeated request (c ∷ bs) b h k = ground (arith, find_repeated request bs b)

-- A start that creates its block has found no open block in the lane.
start-free :
    (l : QueueLedger) (snapshot : PlanSnapshot) (request : StartRequest) (ids : ℕ → String)
    {r : StartResult}
    → start_due_block l snapshot request ids ≡ ok r
    → r.status ≡ created
    → any (is_open_in request.lane_id) l.blocks ≡ false
unfolding start_due_block start_new_block
start-free l snapshot request ids h s = free_of _ refl
  where
    free_of :
        (o : Option QueueBlock)
        → find (is_repeated request) l.blocks ≡ o
        → any (is_open_in request.lane_id) l.blocks ≡ false
    free_of (some b) f = absurd (ground arith)
    free_of none f = ground arith

-- After a start that has created a block, every start with the same lane and key, whatever its
-- snapshot, instant, strategy, guarantee, expected revision and identities, returns `existing` with
-- the same block and jobs, and leaves the ledger as it is.
pub start_due_block-retry :
    (l : QueueLedger) (snapshot : PlanSnapshot) (request : StartRequest) (ids : ℕ → String)
    {r : StartResult}
    → start_due_block l snapshot request ids ≡ ok r
    → r.status ≡ created
    → (snapshot' : PlanSnapshot) (request' : StartRequest) (ids' : ℕ → String)
    → request'.lane_id ≡ request.lane_id
    → request'.idempotency_key ≡ request.idempotency_key
    → start_due_block r.ledger snapshot' request' ids' ≡ ok (record r { status = existing })
unfolding start_due_block jobs_for_block is_repeated contains
start_due_block-retry l snapshot request ids {r} h s snapshot' request' ids' lane key =
    elim (start_due_block-Seals l snapshot request ids h) [
      | inr (same, other) ↦ absurd (other s)
      | inl seals ↦
          let b = seals.block in
          let free : any (is_open_in request'.lane_id) l.blocks ≡ false =
            rw lane (start-free l snapshot request ids h s) in
          let repeated : is_repeated request' b ≡ true = ground (
            arith,
            seals.lane_id,
            seals.state,
            seals.idempotency_key,
            string_eq.beq_iff b.lane_id request'.lane_id,
            string_eq.beq_iff b.idempotency_key request'.idempotency_key,
          ) in
          let found : find (is_repeated request') r.ledger.blocks ≡ some b =
            rw seals.blocks (find_repeated request' l.blocks b free repeated) in
          let distinct_jobs : distinct (job_ids_of r.jobs) ≡ true = distinct-append l.jobs r.jobs (
            subst (λ js. distinct (job_ids_of js) ≡ true) seals.jobs
              (distinct_ids r.ledger seals.made).1) in
          let jobs : map_result (require_job r.ledger.jobs) b.job_ids ≡ ok r.jobs =
            rw (seals.jobs, seals.job_ids) (require_jobs-append l.jobs r.jobs distinct_jobs) in
          ground (arith, found, jobs, seals.returned)
    ]
