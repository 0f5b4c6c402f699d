-- ===== src/Due/Order.antt =====
-- The snapshot of `build_due_snapshot`: every due room once, by priority, due date and area.
use mathlib.Core.Path.{ap₂}
use mathlib.Core.List.{Perm}
use mathlib.Core.List.Perm
use ha_vacuum_planner.Base.{
  >>=-eq-ok, All, Bool, Bool-cases, List, Option, Ordered, Result, String, [], ap, arith, err,
  false, has_duplicates, if◌then◌else◌, inl, inr, insert_by, int_beq_iff, int_eq, ltℤ, ltℤ-asym,
  map, map_result, nat_eq, none, not, ok, refl, select, some, sort_by, sort_by-Ordered, string_eq,
  string_lt, string_lt-asym, subst, sym, true, ◌==◌, ◌∙◌, ◌∷◌, ◌≡◌,
}
use ha_vacuum_planner.Models.{
  DateTime, Mode, PlanRevision, PlanSnapshot, RoomPlan, SnapshotJob, block_guarantee_eq,
  block_kind_eq, block_state_eq, dispatch_strategy_eq, job_state_eq, lt_time, make_snapshot,
  make_snapshot_job, mode_eq, preferred_mode_eq, time_beq,
}
use ha_vacuum_planner.Planning.{
  AreaBinding, Bindings, Candidate, build_due_snapshot, candidate_lt, evaluate_rooms, materialise,
  snapshot_job_of,
}
use ha_vacuum_planner.Due.Rooms.{is_due, mode_of}
use ha_vacuum_planner.Due.Candidates.{IsFound, evaluate_rooms-is_due}

insert_by-Perm :
    {A : Type 0} (lt : A → A → Bool) (x : A) (ys : List A) → Perm (insert_by lt x ys) (x ∷ ys)
unfolding insert_by
insert_by-Perm lt x [] = Perm.refl (x ∷ [])
insert_by-Perm lt x (y ∷ ys) = elim (Bool-cases (lt y x)) [
  | inl e ↦ rw e (Perm.trans (Perm.cons y (insert_by-Perm lt x ys)) (Perm.swap x y ys))
  | inr e ↦ rw e (Perm.refl (x ∷ y ∷ ys))
]

sort_by-Perm : {A : Type 0} (lt : A → A → Bool) (xs : List A) → Perm (sort_by lt xs) xs
unfolding sort_by
sort_by-Perm lt [] = Perm.refl []
sort_by-Perm lt (x ∷ xs) =
    Perm.trans (insert_by-Perm lt x (sort_by lt xs)) (Perm.cons x (sort_by-Perm lt xs))

candidate_lt-asym : (a b : Candidate) → candidate_lt a b ≡ true → candidate_lt b a ≡ false
unfolding candidate_lt
candidate_lt-asym a b h = ground (
  arith,
  string_lt-asym a.plan.area_id b.plan.area_id,
  ltℤ-asym a.plan.priority b.plan.priority,
  ltℤ-asym b.plan.priority a.plan.priority,
  int_beq_iff a.plan.priority b.plan.priority,
  int_beq_iff b.plan.priority a.plan.priority,
)

-- the order of the jobs: by falling priority, then by due instant, then by area
abbrev pub job_lt : SnapshotJob → SnapshotJob → Bool
job_lt a b =
    if not (a.priority == b.priority)
    then ltℤ b.priority a.priority
    else if not (time_beq a.due_at b.due_at)
    then lt_time a.due_at b.due_at
    else string_lt a.area_id b.area_id

-- the job of a candidate
record IsJobOf (c : Candidate) (j : SnapshotJob) : Type 0 where
  area_id : j.area_id ≡ c.plan.area_id
  mode : j.mode ≡ c.mode
  priority : j.priority ≡ c.plan.priority
  due_at : j.due_at ≡ c.due_at

snapshot_job_of-IsJobOf :
    (bindings : Bindings) (c : Candidate) {j : SnapshotJob}
    → snapshot_job_of bindings c ≡ ok j
    → IsJobOf c j
unfolding snapshot_job_of make_snapshot_job
snapshot_job_of-IsJobOf bindings c {j} h = by_binding (bindings c.plan.area_id) refl
  where
    by_binding : (o : Option AreaBinding) → bindings c.plan.area_id ≡ o → IsJobOf c j
    by_binding none e = absurd (ground arith)
    by_binding (some b) e = record {
      area_id = ground arith;
      mode = ground arith;
      priority = ground arith;
      due_at = ground arith;
    }

candidate_lt-job_lt :
    (c d : Candidate) (j k : SnapshotJob)
    → IsJobOf c j
    → IsJobOf d k
    → candidate_lt c d ≡ job_lt j k
unfolding candidate_lt
candidate_lt-job_lt c d j k h g =
    rw (h.area_id, h.priority, h.due_at, g.area_id, g.priority, g.due_at) refl

-- the area and the mode, of a job, a candidate and a room
abbrev pub job_plan : SnapshotJob → String × Mode
job_plan j = (j.area_id, j.mode)

abbrev candidate_plan : Candidate → String × Mode
candidate_plan c = (c.plan.area_id, c.mode)

abbrev pub room_plan : RoomPlan → String × Mode
room_plan p = (p.area_id, mode_of p.preferred_mode)

map_result-plans :
    (bindings : Bindings) (cs : List Candidate) (js : List SnapshotJob)
    → map_result (snapshot_job_of bindings) cs ≡ ok js
    → map job_plan js ≡ map candidate_plan cs
unfolding map_result
map_result-plans bindings [] [] h = refl
map_result-plans bindings [] (j ∷ js) h = absurd (ground arith)
map_result-plans bindings (c ∷ cs) [] h = absurd (ground arith)
map_result-plans bindings (c ∷ cs) (j ∷ js) h =
    let job = snapshot_job_of-IsJobOf bindings c {j = j} (ground arith) in
    ap₂ ◌∷◌ (ap₂ (λ a m. (a, m)) job.area_id job.mode)
      (map_result-plans bindings cs js (ground arith))

candidate_plans :
    (cs : List Candidate)
    → All (λ c. c.mode ≡ mode_of c.plan.preferred_mode) cs
    → map candidate_plan cs ≡ map room_plan (map (λ c. c.plan) cs)
candidate_plans [] h = refl
candidate_plans (c ∷ cs) h = ap₂ ◌∷◌ (ap (λ m. (c.plan.area_id, m)) h.0) (candidate_plans cs h.1)

map_result-Ordered :
    (bindings : Bindings) (cs : List Candidate) (js : List SnapshotJob)
    → map_result (snapshot_job_of bindings) cs ≡ ok js
    → Ordered candidate_lt cs
    → Ordered job_lt js
unfolding map_result
map_result-Ordered bindings cs [] h o = tt
map_result-Ordered bindings cs (j ∷ []) h o = tt
map_result-Ordered bindings [] (j ∷ k ∷ js) h o = absurd (ground arith)
map_result-Ordered bindings (c ∷ []) (j ∷ k ∷ js) h o = absurd (ground arith)
map_result-Ordered bindings (c ∷ d ∷ cs) (j ∷ k ∷ js) h o =
    let first = snapshot_job_of-IsJobOf bindings c {j = j} (ground arith) in
    let second = snapshot_job_of-IsJobOf bindings d {j = k} (ground arith) in
    (
      sym (candidate_lt-job_lt d c k j second first) ∙ o.0,
      map_result-Ordered bindings (d ∷ cs) (k ∷ js) (ground arith) o.1,
    )

-- what a snapshot holds
pub record PlansDue (revision : PlanRevision) (now : DateTime) (s : PlanSnapshot) : Type 0 where
  pub plan_revision : s.plan_revision ≡ revision.revision_id
  pub evaluated_at : s.evaluated_at ≡ now
  pub rooms : Perm (map job_plan s.jobs) (map room_plan (select (is_due now) revision.room_plans))
  pub ordered : Ordered job_lt s.jobs
  pub distinct_areas : has_duplicates (map (λ j. j.area_id) s.jobs) ≡ false

materialise-PlansDue :
    (revision : PlanRevision) (bindings : Bindings) (lane : String) (now : DateTime)
    (found : List Candidate × List String) {s : PlanSnapshot}
    → IsFound now revision.room_plans found.0
    → materialise bindings revision lane now found ≡ ok s
    → PlansDue revision now s
unfolding materialise make_snapshot
materialise-PlansDue revision bindings lane now (cs, errors) {s} found h =
    by_jobs (map_result (snapshot_job_of bindings) (sort_by candidate_lt cs)) refl
  where
    by_jobs :
        (r : Result (List SnapshotJob))
        → map_result (snapshot_job_of bindings) (sort_by candidate_lt cs) ≡ r
        → PlansDue revision now s
    by_jobs (err e) f = absurd (ground arith)
    by_jobs (ok js) f =
        let same : s.jobs ≡ js = ground arith in
        let perm : Perm (map candidate_plan (sort_by candidate_lt cs)) (map candidate_plan cs) =
          Perm.map candidate_plan (sort_by-Perm candidate_lt cs) in
        let rooms : map candidate_plan cs
            ≡ map room_plan (select (is_due now) revision.room_plans) =
          candidate_plans cs found.1 ∙ ap (map room_plan) found.0 in
        record {
          plan_revision = ground arith;
          evaluated_at = ground arith;
          rooms =
              subst (λ x. Perm (map job_plan s.jobs) x) rooms
                (rw (same, map_result-plans bindings (sort_by candidate_lt cs) js f) perm);
          ordered = rw same (
              map_result-Ordered bindings (sort_by candidate_lt cs) js f
                (sort_by-Ordered candidate_lt candidate_lt-asym cs));
          distinct_areas = ground arith;
        }

-- A snapshot that is built plans exactly the rooms that are due, each once: its areas and modes are
-- those of the due rooms of the plan, in some order, where a room's mode is the one that it prefers;
-- no area stands twice; and the jobs stand by falling priority, then by due instant, then by area.
pub build_due_snapshot-PlansDue :
    (revision : PlanRevision) (bindings : Bindings) (now : DateTime) {s : PlanSnapshot}
    → build_due_snapshot revision bindings now ≡ ok s
    → PlansDue revision now s
unfolding build_due_snapshot
build_due_snapshot-PlansDue revision bindings now {s} h = by_rooms revision.room_plans refl
  where
    by_rooms : (ps : List RoomPlan) → revision.room_plans ≡ ps → PlansDue revision now s
    by_rooms [] e = absurd (ground arith)
    by_rooms (p ∷ ps) e =
        let (found, evaluated, rest) =
          >>=-eq-ok (evaluate_rooms bindings now revision.room_plans)
            (λ found. materialise bindings revision p.lane_id now found) {result = s}
            (ground arith) in
        materialise-PlansDue revision bindings p.lane_id now found
          (evaluate_rooms-is_due bindings now revision.room_plans evaluated) rest
