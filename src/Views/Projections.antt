-- ===== src/Views/Projections.antt =====
-- entity.py: the bounds of the queue's projection, and what readiness means for the status.
use Prim.Native.Nat.{min}
use ha_vacuum_planner.Base.{
  All, Bool, Bool-cases, List, [], ap, arith, code_points, drop_last_spaces, drop_spaces, false,
  inl, inr, int_eq, length, ltb, map, nat_eq, not, refl, select, some, string_eq, suc, true, zero,
  ℕ, ◌++◌, ◌+◌, ◌↔◌, ◌∷◌, ◌≡◌, ◌≢◌, ◌≤◌,
}
use ha_vacuum_planner.Models.{
  PlannerState, QueueJob, block_guarantee_eq, block_kind_eq, block_state_eq, dispatch_strategy_eq,
  is_terminal_job, job_state_eq, mode_eq, preferred_mode_eq,
}
use ha_vacuum_planner.Runtime.{VacuumPlannerRuntimeData}
use ha_vacuum_planner.Entities.{
  QueueProjection, attention, attention_required, or_dash, paused, planner_ready, planner_status,
  projected_jobs, projection_item, queue_projection, reverse_onto, reversed, safe_area_name, take,
}

length-take : {A : Type 0} (n : ℕ) (xs : List A) → length (take n xs) ≡ min n (length xs)
unfolding take
length-take zero xs = omega arith
length-take (suc n) [] = omega arith
length-take (suc n) (x ∷ xs) = omega (arith, length-take n xs)

length-map : {A B : Type 0} (f : A → B) (xs : List A) → length (map f xs) ≡ length xs
length-map f [] = refl
length-map f (x ∷ xs) = ap suc (length-map f xs)

length-append : {A : Type 0} (xs ys : List A) → length (xs ++ ys) ≡ length xs + length ys
length-append [] ys = omega arith
length-append (x ∷ xs) ys = omega (arith, length-append xs ys)

-- how many jobs are terminal, counted through the reversal
length-reversed :
    (p : QueueJob → Bool) (js ks : List QueueJob)
    → length (select (λ j. not (p j)) js) + length (select p (reverse_onto js ks))
      ≡ length js + length (select p ks)
unfolding select reverse_onto
length-reversed p [] ks = refl
length-reversed p (j ∷ js) ks = ground (arith, length-reversed p js (j ∷ ks))

length-projected_jobs : (js : List QueueJob) → length (projected_jobs js) ≡ length js
unfolding select
length-projected_jobs js = omega (
  arith,
  length-append (select (λ j. not (is_terminal_job j)) js) (select is_terminal_job (reversed js)),
  length-reversed is_terminal_job js [],
)

length-or_dash :
    (cs : List ℕ) → length cs ≤ 80 → (1 ≤ length (or_dash cs)) × (length (or_dash cs) ≤ 80)
length-or_dash [] h = (omega arith, omega arith)
length-or_dash (c ∷ cs) h = (omega arith, omega arith)

-- the bounds of a projection of `total` jobs
pub record Bounded (total : ℕ) (q : QueueProjection) : Type 0 where
  pub projected_count : q.projected_count ≡ min 20 total
  pub total_count : q.total_count ≡ total
  pub items : length q.items ≡ q.projected_count
  pub truncated : q.truncated ≡ ltb 20 total
  -- a name is neither empty nor long
  pub names : All (λ i. (1 ≤ length i.area_name) × (length i.area_name ≤ 80)) q.items

names_bounded :
    (is_printable : ℕ → Bool) (js : List QueueJob)
    → All
        (λ i. (1 ≤ length i.area_name) × (length i.area_name ≤ 80))
        (map (projection_item is_printable) js)
unfolding projection_item safe_area_name
names_bounded is_printable [] = tt
names_bounded is_printable (j ∷ js) = (
  length-or_dash _ (
      omega (
        arith,
        length-take 80 (
            drop_last_spaces
              (drop_spaces (select is_printable (code_points j.area_name_snapshot)))),
      )),
  names_bounded is_printable js,
)

-- Of any planner state the queue's projection shows at most twenty jobs, all of them unless there are
-- more, says so when it leaves some out, and shows names of one to eighty characters.
pub queue_projection-Bounded :
    (is_printable : ℕ → Bool) (s : PlannerState)
    → Bounded (length s.ledger.jobs) (queue_projection is_printable (some s))
unfolding queue_projection
queue_projection-Bounded is_printable s =
    let jobs = projected_jobs s.ledger.jobs in
    let shown = length-map (projection_item is_printable) (take 20 jobs) in
    let all_of = length-projected_jobs s.ledger.jobs in
    record {
      projected_count = omega (arith, shown, length-take 20 jobs, all_of);
      total_count = refl;
      items = refl;
      truncated = ground (arith, shown, length-take 20 jobs, all_of);
      names = names_bounded is_printable (take 20 jobs);
    }

-- A planner whose state is loaded is ready exactly when its status is neither `attention` nor `paused`.
pub planner_ready-planner_status :
    (r : VacuumPlannerRuntimeData) (s : PlannerState)
    → (planner_ready r (some s) ≡ true)
      ↔ ((planner_status r (some s) ≢ attention) × (planner_status r (some s) ≢ paused))
unfolding planner_ready planner_status attention_required
planner_ready-planner_status r s = (
  λ h. (λ e. ground (arith, h, e), λ e. ground (arith, h, e)),
  λ (calm, on). elim (Bool-cases (planner_ready r (some s))) [
    | inl e ↦ e
    | inr e ↦ absurd (unready e calm on)
  ],
)
  where
    unready :
        planner_ready r (some s) ≡ false
        → planner_status r (some s) ≢ attention
        → planner_status r (some s) ≢ paused
        → ⊥
    unready e calm on = elim (Bool-cases r.topology_ready) [
      | inr t ↦ calm (ground arith)
      | inl t ↦ elim (Bool-cases r.planning_enabled) [
        | inr p ↦ on (ground arith)
        | inl p ↦ calm (ground arith)
      ]
    ]
