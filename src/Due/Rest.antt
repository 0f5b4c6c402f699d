-- ===== src/Due/Rest.antt =====
-- A room that was cleaned is not due again before its interval is over.
use ha_vacuum_planner.Base.{
  All, Bool, Bool-cases, List, Option, Result, String, [], any, arith, err, false, if◌then◌else◌,
  inl, inr, int_eq, ltb, map_result, nat_eq, negsuc, none, ok, pos, refl, some, string_eq, subst,
  sym, true, ℤ, ◌==◌, ◌∷◌, ◌≡◌, ◌≤◌,
}
use ha_vacuum_planner.Models.{
  DateTime, Mode, PlanRevision, PreferredMode, QueueJob, QueueLedger, RoomPlan, block_guarantee_eq,
  block_kind_eq, block_state_eq, dispatch_strategy_eq, find_job, job_state_eq, max_time, mode_eq,
  preferred_mode_eq,
}
use ha_vacuum_planner.Queue.{
  CompletionResult, advance_plan, advance_room, complete_job_and_advance_plan, latest_completion,
}
use ha_vacuum_planner.Due.Rooms.{days_after, is_due, is_over, latest}
use ha_vacuum_planner.Laws.Keyed.{All-map_impl}
use ha_vacuum_planner.Laws.Constructors.{make_revision-eq, make_room-eq}

-- a completion at `at` or later
record IsSince (at : DateTime) (o : Option DateTime) : Type 0 where
  last : DateTime
  noted : o ≡ some last
  later : at.instant ≤ last.instant

-- what the completion of `job` at `at` leaves in a room of its area
record IsCleaned (job : QueueJob) (at : DateTime) (p : RoomPlan) : Type 0 where
  vacuumed : IsSince at p.last_completed_vacuum_at
  mopped : job.mode ≡ Mode.vacuum_and_mop → IsSince at p.last_completed_vacuum_and_mop_at

latest_completion-later :
    (o : Option DateTime) (at : DateTime) → at.instant ≤ (latest_completion o at).instant
unfolding latest_completion
latest_completion-later none at = omega arith
latest_completion-later (some t) at = ground arith

advance_room-IsCleaned :
    (job : QueueJob) (at : DateTime) (p : RoomPlan) {q : RoomPlan}
    → advance_room job at p ≡ ok q
    → q.area_id ≡ job.area_id
    → IsCleaned job at q
unfolding advance_room
advance_room-IsCleaned job at p {q} h e = elim (Bool-cases (p.area_id == job.area_id)) [
  | inr f ↦ absurd (ground (arith, string_eq.beq_iff p.area_id job.area_id))
  | inl f ↦
      let same =
        make_room-eq
          (record p {
            last_completed_vacuum_at = some (latest_completion p.last_completed_vacuum_at at);
            last_completed_vacuum_and_mop_at =
                if job.mode == Mode.vacuum_and_mop
                then some (latest_completion p.last_completed_vacuum_and_mop_at at)
                else p.last_completed_vacuum_and_mop_at;
          })
          {q = q} (ground arith) in
      subst (IsCleaned job at) (sym same) (record {
        vacuumed = record {
          last = latest_completion p.last_completed_vacuum_at at;
          noted = refl;
          later = latest_completion-later p.last_completed_vacuum_at at;
        };
        mopped = λ m. record {
          last = latest_completion p.last_completed_vacuum_and_mop_at at;
          noted = rw m refl;
          later = latest_completion-later p.last_completed_vacuum_and_mop_at at;
        };
      })
]

rooms-IsCleaned :
    (job : QueueJob) (at : DateTime) (ps qs : List RoomPlan)
    → map_result (advance_room job at) ps ≡ ok qs
    → All (λ q. q.area_id ≡ job.area_id → IsCleaned job at q) qs
unfolding map_result
rooms-IsCleaned job at ps [] h = tt
rooms-IsCleaned job at [] (q ∷ qs) h = absurd (ground arith)
rooms-IsCleaned job at (p ∷ ps) (q ∷ qs) h = (
  advance_room-IsCleaned job at p {q = q} (ground arith),
  rooms-IsCleaned job at ps qs (ground arith),
)

no_room-IsCleaned :
    (job : QueueJob) (at : DateTime) (ps : List RoomPlan)
    → any (λ r. r.area_id == job.area_id) ps ≡ false
    → All (λ q. q.area_id ≡ job.area_id → IsCleaned job at q) ps
unfolding any
no_room-IsCleaned job at [] h = tt
no_room-IsCleaned job at (p ∷ ps) h = (
  λ e. absurd (ground (arith, string_eq.beq_iff p.area_id job.area_id)),
  no_room-IsCleaned job at ps (ground arith),
)

advance_plan-IsCleaned :
    (plan : PlanRevision) (job : QueueJob) (at : DateTime) (next : String) {plan' : PlanRevision}
    → advance_plan plan job at next ≡ ok plan'
    → All (λ q. q.area_id ≡ job.area_id → IsCleaned job at q) plan'.room_plans
unfolding advance_plan
advance_plan-IsCleaned plan job at next {plan'} h =
    by_rooms (any (λ r. r.area_id == job.area_id) plan.room_plans) refl
      (map_result (advance_room job at) plan.room_plans) refl
  where
    by_rooms :
        (b : Bool)
        → any (λ r. r.area_id == job.area_id) plan.room_plans ≡ b
        → (r : Result (List RoomPlan)) → map_result (advance_room job at) plan.room_plans ≡ r
        → All (λ q. q.area_id ≡ job.area_id → IsCleaned job at q) plan'.room_plans
    by_rooms false e r f =
        subst (λ x. All (λ q. q.area_id ≡ job.area_id → IsCleaned job at q) x.room_plans) {x = plan}
          {y = plan'} (ground arith) (no_room-IsCleaned job at plan.room_plans e)
    by_rooms true e (err x) f = absurd (ground arith)
    by_rooms true e (ok qs) f =
        let same =
          make_revision-eq
            (record {
              revision_id = next;
              created_at = max_time plan.created_at at;
              room_plans = qs;
            })
            {q = plan'} (ground arith) in
        subst (λ x. All (λ q. q.area_id ≡ job.area_id → IsCleaned job at q) x.room_plans) (sym same)
          (rooms-IsCleaned job at plan.room_plans qs f)

is_over-later :
    (at t now : DateTime) (days : ℤ)
    → at.instant ≤ t.instant
    → ltb now.instant (days_after at days) ≡ true
    → is_over (some t) days now ≡ false
is_over-later at t now (pos n) h k = ground arith
is_over-later at t now (negsuc n) h k = ground arith

latest-IsSince : (at : DateTime) (a b : Option DateTime) → IsSince at a → IsSince at (latest a b)
latest-IsSince at none b h = absurd (ground (arith, h.noted))
latest-IsSince at (some a) none h = h
latest-IsSince at (some a) (some b) h = elim (Bool-cases (ltb a.instant b.instant)) [
  | inl e ↦ rw e (record { last = b; noted = refl; later = ground (arith, h.noted, h.later) })
  | inr e ↦ rw e h
]

is_over-IsSince :
    (at now : DateTime) (o : Option DateTime) (days : ℤ)
    → IsSince at o
    → ltb now.instant (days_after at days) ≡ true
    → is_over o days now ≡ false
is_over-IsSince at now o days h k = rw h.noted (is_over-later at h.last now days h.later k)

-- when a room rests after the completion of a job of this mode at `at`
pub data Rests (mode : Mode) (at now : DateTime) (p : RoomPlan) : Type 0 where
  vacuumed :
      p.preferred_mode ≡ PreferredMode.vacuum
      → ltb now.instant (days_after at p.vacuum_interval_days) ≡ true
      → Rests mode at now p
  mopped :
      mode ≡ Mode.vacuum_and_mop
      → p.preferred_mode ≡ PreferredMode.vacuum_and_mop
      → (days : ℤ) → p.vacuum_and_mop_interval_days ≡ some days
      → ltb now.instant (days_after at days) ≡ true
      → Rests mode at now p

Rests-is_due :
    (job : QueueJob) (at now : DateTime) (p : RoomPlan)
    → IsCleaned job at p
    → Rests job.mode at now p
    → is_due now p ≡ false
Rests-is_due job at now p h (vacuumed m k) =
    let over =
      is_over-IsSince at now (latest p.last_completed_vacuum_at p.last_completed_vacuum_and_mop_at)
        p.vacuum_interval_days
        (latest-IsSince at p.last_completed_vacuum_at p.last_completed_vacuum_and_mop_at h.vacuumed)
        k in
    ground (arith, m, over)
Rests-is_due job at now p h (mopped c m days d k) =
    let over = is_over-IsSince at now p.last_completed_vacuum_and_mop_at days (h.mopped c) k in
    ground (arith, m, d, over)

-- When a job is completed and the plan advanced, no room of the job's area is due again before its
-- interval, counted from the completion, is over: a room to be vacuumed after any job, a room to be
-- mopped after a job that mopped.
pub complete_job_and_advance_plan-Rests :
    (l : QueueLedger) (plan : PlanRevision) (id : String) (at : DateTime) (next : String)
    {r : CompletionResult}
    → complete_job_and_advance_plan l plan id at next ≡ ok r
    → (job : QueueJob) × (find_job l.jobs id ≡ ok job)
      × All
          (λ p.
            p.area_id ≡ job.area_id
            → (now : DateTime) → Rests job.mode at now p
            → is_due now p ≡ false)
          r.plan_revision.room_plans
unfolding complete_job_and_advance_plan
complete_job_and_advance_plan-Rests l plan id at next {r} h = by_job (find_job l.jobs id) refl
  where
    by_job :
        (j : Result QueueJob)
        → find_job l.jobs id ≡ j
        → (job : QueueJob) × (find_job l.jobs id ≡ ok job)
          × All
              (λ p.
                p.area_id ≡ job.area_id
                → (now : DateTime) → Rests job.mode at now p
                → is_due now p ≡ false)
              r.plan_revision.room_plans
    by_job (err e) f = absurd (ground arith)
    by_job (ok job) f = (
      job,
      f,
      All-map_impl _ _ r.plan_revision.room_plans (λ p c e now k. Rests-is_due job at now p (c e) k)
          (advance_plan-IsCleaned plan job at next {plan' = r.plan_revision} (ground arith)),
    )
