-- ===== src/Due/Skips.antt =====
-- public_actions.py: an area that is postponed, or skipped for today, is not planned before its time.
use ha_vacuum_planner.Base.{
  >>-eq-ok, >>=-eq-ok, All, Bool-cases, List, Result, String, [], ap, arith, false, inl, inr,
  int_eq, ltb, map_result, nat_eq, negsuc, ok, pos, select, some, string_eq, subst, sym, true, ℕ, ℤ,
  ◌+◌, ◌==◌, ◌∷◌, ◌≡◌,
}
use ha_vacuum_planner.Models.{
  DateTime, PlanRevision, PlannerState, RoomPlan, add_days, block_guarantee_eq, block_kind_eq,
  block_state_eq, dispatch_strategy_eq, job_state_eq, make_revision, make_room, mode_eq,
  preferred_mode_eq,
}
use ha_vacuum_planner.Planning.{Bindings, Candidate, evaluate_rooms}
use ha_vacuum_planner.Actions.{
  TimeZones, find_zone, next_midnight, postpone_area, skip_area, skip_area_today, skip_room,
}
use ha_vacuum_planner.Due.Rooms.{days_after, is_due}
use ha_vacuum_planner.Due.Candidates.{evaluate_rooms-is_due}
use ha_vacuum_planner.Laws.Constructors.{make_revision-eq, make_room-eq, make_state-eq}
use ha_vacuum_planner.Safety.Graph.{All-map, All-unit}
use ha_vacuum_planner.Safety.Rewrites.{map_result-All}

-- the rooms of the area are skipped until the time that was computed
abbrev SkippedUntil : String → Result DateTime → RoomPlan → Type 0
SkippedUntil area until q =
    (q.area_id == area) ≡ true → (at : DateTime) × (until ≡ ok at) × (q.skip_until ≡ some at)

skip_room-SkippedUntil :
    (area : String) (until : Result DateTime) (p q : RoomPlan)
    → skip_room area until p ≡ ok q
    → SkippedUntil area until q
unfolding skip_room
skip_room-SkippedUntil area until p q h = elim (Bool-cases (p.area_id == area)) [
  | inl e ↦
      let (at, computed, made) =
        >>=-eq-ok until (λ at. make_room (record p { skip_until = some at })) {result = q}
          (ground arith) in
      λ same. (at, computed, ap (λ (x : RoomPlan). x.skip_until) (make_room-eq _ made))
  | inr e ↦
      let kept : p ≡ q = ground arith in
      λ same.
        absurd
          (ground (arith, subst (λ (x : RoomPlan). (x.area_id == area) ≡ true) (sym kept) same))
]

skip_area-SkippedUntil :
    (s : PlannerState) (area : String) (now : DateTime) (until : Result DateTime)
    (revision : String) {t : PlannerState}
    → skip_area s area now until revision ≡ ok t
    → All (SkippedUntil area until) t.plan_revision.room_plans
unfolding skip_area
skip_area-SkippedUntil s area now until revision {t} h =
    let (known, h1) = >>-eq-ok _ _ {result = t} h in
    let (plans, skipped, h2) =
      >>=-eq-ok (map_result (skip_room area until) s.plan_revision.room_plans) _ {result = t} h1 in
    let (r, made, h3) =
      >>=-eq-ok
        (make_revision (record { revision_id = revision; created_at = now; room_plans = plans })) _
        {result = t} h2 in
    subst (λ (x : PlannerState). All (SkippedUntil area until) x.plan_revision.room_plans)
      (sym (make_state-eq _ h3))
      (subst (λ (x : PlanRevision). All (SkippedUntil area until) x.room_plans)
        (sym (make_revision-eq _ made))
        (map_result-All (λ _. Unit {0}) (SkippedUntil area until) (skip_room area until)
          (λ p q u e. skip_room-SkippedUntil area until p q e) s.plan_revision.room_plans plans
          (All-unit s.plan_revision.room_plans) skipped))

-- no room of the area is among the chosen ones
select-skipped :
    (area : String) (until : Result DateTime) (later : DateTime) (ps : List RoomPlan)
    → ((at : DateTime) → until ≡ ok at → ltb later.instant at.instant ≡ true)
    → All (SkippedUntil area until) ps
    → All (λ p. (p.area_id == area) ≡ false) (select (is_due later) ps)
unfolding select
select-skipped area until later [] early h = tt
select-skipped area until later (p ∷ ps) early h = elim (Bool-cases (is_due later p)) [
  | inr no_due ↦ rw (no_due, select) (select-skipped area until later ps early h.1)
  | inl due ↦
      rw (due, select)
        (
          elim (Bool-cases (p.area_id == area)) [
            | inr other ↦ other
            | inl same ↦
                let (at, computed, skipped) = h.0 same in
                absurd (ground (arith, skipped, early at computed))
          ],
          select-skipped area until later ps early h.1,
        )
]

-- An area that is skipped until some time is planned by no evaluation before it.
not_found :
    (s : PlannerState) (area : String) (now : DateTime) (until : Result DateTime)
    (revision : String) {t : PlannerState}
    → skip_area s area now until revision ≡ ok t
    → (bindings : Bindings) (later : DateTime) (found : List Candidate × List String)
    → ((at : DateTime) → until ≡ ok at → ltb later.instant at.instant ≡ true)
    → evaluate_rooms bindings later t.plan_revision.room_plans ≡ ok found
    → All (λ c. (c.plan.area_id == area) ≡ false) found.0
not_found s area now until revision {t} h bindings later found early evaluated =
    All-map (λ (p : RoomPlan). (p.area_id == area) ≡ false) (λ c. c.plan) found.0
      (subst (All (λ (p : RoomPlan). (p.area_id == area) ≡ false))
        (sym (evaluate_rooms-is_due bindings later t.plan_revision.room_plans evaluated).0)
        (select-skipped area until later t.plan_revision.room_plans early
          (skip_area-SkippedUntil s area now until revision h)))

-- the days are added to the instant
add_days-instant :
    (t : DateTime) (n : ℕ) (at : DateTime)
    → add_days t (pos n) ≡ ok at
    → at.instant ≡ days_after t (pos n)
unfolding add_days
add_days-instant t n at h = ground arith

-- An area that is postponed by a number of days is planned by no evaluation before those days are over.
pub postpone_area-not_found :
    (s : PlannerState) (area : String) (now : DateTime) (days : ℤ) (revision : String)
    {t : PlannerState}
    → postpone_area s area now days revision ≡ ok t
    → (bindings : Bindings) (later : DateTime) (found : List Candidate × List String)
    → ltb later.instant (days_after now days) ≡ true
    → evaluate_rooms bindings later t.plan_revision.room_plans ≡ ok found
    → All (λ c. (c.plan.area_id == area) ≡ false) found.0
unfolding postpone_area
postpone_area-not_found s area now (negsuc n) revision {t} h bindings later found early evaluated =
    absurd (ground arith)
postpone_area-not_found s area now (pos n) revision {t} h bindings later found early evaluated =
    not_found s area now (add_days now (pos n)) revision {t = t} (ground arith) bindings later found
      (λ at added.
        subst (λ i. ltb later.instant i ≡ true) (sym (add_days-instant now n at added)) early)
      evaluated

-- the start of the day that follows the one of `now` in the zone
abbrev pub IsNextMidnight : TimeZones → String → DateTime → DateTime → Type 0
IsNextMidnight zones time_zone now at =
    (zone : zones.Zone) × (zones.zone_info time_zone ≡ some zone)
    × (date : ℕ) × (zones.local_date zone now ≡ ok date)
    × (zones.midnight zone (date + 1) ≡ ok at)

IsNextMidnight-same :
    (zones : TimeZones) (time_zone : String) (now at found : DateTime)
    → IsNextMidnight zones time_zone now at
    → next_midnight zones now time_zone ≡ ok found
    → found ≡ at
unfolding next_midnight find_zone
IsNextMidnight-same zones time_zone now at found (zone, known, date, today, tomorrow) h =
    ground (arith, known, today, tomorrow, h)

-- An area that is skipped for today is planned by no evaluation before the midnight that begins the day
-- behind today, where today is the date of the skip in the configured time zone.
pub skip_area_today-not_found :
    (zones : TimeZones) (s : PlannerState) (area : String) (now : DateTime)
    (time_zone revision : String) {t : PlannerState}
    → skip_area_today zones s area now time_zone revision ≡ ok t
    → (at : DateTime) → IsNextMidnight zones time_zone now at
    → (bindings : Bindings) (later : DateTime) (found : List Candidate × List String)
    → ltb later.instant at.instant ≡ true
    → evaluate_rooms bindings later t.plan_revision.room_plans ≡ ok found
    → All (λ c. (c.plan.area_id == area) ≡ false) found.0
unfolding skip_area_today
skip_area_today-not_found zones s area now time_zone revision {t} h at midnight bindings later found
      early evaluated =
    let (at', computed, skipped) = >>=-eq-ok (next_midnight zones now time_zone) _ {result = t} h in
    let right = IsNextMidnight-same zones time_zone now at at' midnight computed in
    not_found s area now (ok at') revision skipped bindings later found
      (λ at'' same.
        subst (λ (x : DateTime). ltb later.instant x.instant ≡ true) {x = at} {y = at''}
          (ground (arith, right)) early)
      evaluated
