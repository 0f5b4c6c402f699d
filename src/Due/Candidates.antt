-- ===== src/Due/Candidates.antt =====
-- What `candidate_of` and the loop over the rooms find: the rooms that are due, in their order.
use mathlib.Core.Option
use mathlib.Core.Path.{ap₂}
use ha_vacuum_planner.Base.{
  >>=-eq-ok, All, Bool, List, Option, Result, String, [], ap, arith, false, if◌then◌else◌, is_some,
  leb, map, none, ok, refl, select, some, subst, sym, true, ℤ, ◌>>=◌, ◌∙◌, ◌∷◌, ◌≡◌,
}
use ha_vacuum_planner.Models.{DateTime, Mode, PreferredMode, RoomPlan, compare_le}
use ha_vacuum_planner.Planning.{
  Bindings, Candidate, candidate_of, choose_due, due_at_of, due_by, due_by?, evaluate_rooms,
  found_with, is_skipped, max_optional, mop_due_of, select_due,
}
use ha_vacuum_planner.Due.Rooms.{
  due_at_of-instant, due_by-is_some, is_due, is_due_mode, is_over, max_optional-latest, mode_of,
  skips,
}

-- the candidate is of its room, in the mode that the room prefers
pub record IsCandidate (p : RoomPlan) (c : Candidate) : Type 0 where
  pub plan : c.plan ≡ p
  pub mode : c.mode ≡ mode_of p.preferred_mode

due_by-mode :
    (mode : Mode) (due now : DateTime) {s : Mode × DateTime}
    → due_by mode due now ≡ ok (some s)
    → s.0 ≡ mode
unfolding due_by
due_by-mode mode due now h = ground arith

mop_due_of-is_over :
    (p : RoomPlan) (now : DateTime) (days : ℤ) {m : Option DateTime}
    → p.vacuum_and_mop_interval_days ≡ some days
    → mop_due_of p now ≡ ok m
    → (t : DateTime) × (m ≡ some t)
      × (leb t.instant now.instant ≡ is_over p.last_completed_vacuum_and_mop_at days now)
unfolding mop_due_of
mop_due_of-is_over p now days {m} d h =
    let (t, due, same) =
      >>=-eq-ok (due_at_of p.last_completed_vacuum_and_mop_at days now) (λ t. ok (some t))
        (subst
          (λ x.
            elim x as (λ _. Result (Option DateTime)) [
              | none ↦ ok none
              | some n ↦ due_at_of p.last_completed_vacuum_and_mop_at n now >>= λ t. ok (some t)
            ]
            ≡ ok m)
          d h) in
    (t, ground arith, due_at_of-instant p.last_completed_vacuum_and_mop_at days now due)

module _ (p : RoomPlan) (now : DateTime) {v : DateTime} {m : Option DateTime}
    (vacuum_due : due_at_of
        (max_optional p.last_completed_vacuum_at p.last_completed_vacuum_and_mop_at)
        p.vacuum_interval_days
        now
      ≡ ok v)
    (mop_due : mop_due_of p now ≡ ok m) where
  choose_due-is_some :
      (mode : PreferredMode) {o : Option (Mode × DateTime)}
      → choose_due mode v m now ≡ ok o
      → is_some o ≡ is_due_mode mode p now
  unfolding choose_due due_by? mop_due_of
  choose_due-is_some PreferredMode.vacuum h =
      due_by-is_some Mode.vacuum v now h
      ∙ due_at_of-instant _ p.vacuum_interval_days now vacuum_due
      ∙ ap (λ l. is_over l p.vacuum_interval_days now)
          (max_optional-latest p.last_completed_vacuum_at p.last_completed_vacuum_and_mop_at)
  choose_due-is_some PreferredMode.vacuum_and_mop {o} h =
      by_days p.vacuum_and_mop_interval_days refl
    where
      by_days :
          (d : Option ℤ)
          → p.vacuum_and_mop_interval_days ≡ d
          → is_some o ≡ is_due_mode PreferredMode.vacuum_and_mop p now
      by_days none d = ground (arith, d)
      by_days (some days) d =
          let (t, same, over) = mop_due_of-is_over p now days d mop_due in
          rw d (
            due_by-is_some Mode.vacuum_and_mop t now
              (subst (λ x. due_by? Mode.vacuum_and_mop x now ≡ ok o) same h)
            ∙ over)

  choose_due-mode :
      (mode : PreferredMode) {s : Mode × DateTime}
      → choose_due mode v m now ≡ ok (some s)
      → s.0 ≡ mode_of mode
  unfolding choose_due due_by? due_by
  choose_due-mode PreferredMode.vacuum h = ground arith
  choose_due-mode PreferredMode.vacuum_and_mop h = ground arith

select_due-is_some :
    (p : RoomPlan) (now : DateTime) {o : Option (Mode × DateTime)}
    → select_due p now ≡ ok o
    → (is_some o ≡ is_due_mode p.preferred_mode p now)
      × ((s : Mode × DateTime) → o ≡ some s → s.0 ≡ mode_of p.preferred_mode)
unfolding select_due
select_due-is_some p now {o} h =
    let (v, vacuum_due, rest) =
      >>=-eq-ok
        (due_at_of (max_optional p.last_completed_vacuum_at p.last_completed_vacuum_and_mop_at)
          p.vacuum_interval_days now)
        (λ v. mop_due_of p now >>= λ m. choose_due p.preferred_mode v m now) h in
    let (m, mop_due, chosen) =
      >>=-eq-ok (mop_due_of p now) (λ m. choose_due p.preferred_mode v m now) rest in
    (
      choose_due-is_some p now vacuum_due mop_due p.preferred_mode chosen,
      λ s e. choose_due-mode p now vacuum_due mop_due p.preferred_mode (chosen ∙ ap ok e),
    )

is_skipped-skips :
    (t : Option DateTime) (now : DateTime) {b : Bool} → is_skipped t now ≡ ok b → b ≡ skips t now
unfolding is_skipped compare_le
is_skipped-skips none now h = ground arith
is_skipped-skips (some t) now h = ground arith

abbrev of_selected : RoomPlan → Mode × DateTime → Candidate
of_selected p s = record { plan = p; mode = s.0; due_at = s.1 }

-- What the loop makes of a room: nothing of one that is not due, and else the room with its mode.
pub record Found (now : DateTime) (p : RoomPlan) (o : Option Candidate) : Type 0 where
  pub due : is_some o ≡ is_due now p
  pub kept : (c : Candidate) → o ≡ some c → IsCandidate p c

selected-Found :
    (now : DateTime) (p : RoomPlan) (skipped : Bool) (q : Option (Mode × DateTime))
    → p.enabled ≡ true
    → skipped ≡ skips p.skip_until now
    → (if skipped then ok none else select_due p now) ≡ ok q
    → Found now p (Option.map (of_selected p) q)
selected-Found now p true none e s h = record {
  due = ground arith;
  kept = λ c k. absurd (ground arith);
}
selected-Found now p true (some q) e s h = absurd (ground arith)
selected-Found now p false none e s h = record {
  due = ground (arith, (select_due-is_some p now h).0);
  kept = λ c k. absurd (ground arith);
}
selected-Found now p false (some q) e s h = record {
  due = ground (arith, (select_due-is_some p now h).0);
  kept = λ c k. record {
    plan = ground arith;
    mode = ground (arith, (select_due-is_some p now h).1 q refl);
  };
}

pub candidate_of-Found :
    (now : DateTime) (p : RoomPlan) {o : Option Candidate}
    → candidate_of now p ≡ ok o
    → Found now p o
unfolding candidate_of
candidate_of-Found now p {o} h = by_enabled p.enabled refl
  where
    by_enabled : (b : Bool) → p.enabled ≡ b → Found now p o
    by_enabled false e = record { due = ground arith; kept = λ c k. absurd (ground arith) }
    by_enabled true e =
        let (skipped, skip, rest) =
          >>=-eq-ok (is_skipped p.skip_until now)
            (λ skipped. (if skipped then ok none else select_due p now) >>= λ q.
              ok (Option.map (of_selected p) q))
            {result = o} (ground arith) in
        let (q, selected, same) =
          >>=-eq-ok (if skipped then ok none else select_due p now)
            (λ q. ok (Option.map (of_selected p) q)) rest in
        subst (Found now p) {x = Option.map (of_selected p) q} (ground arith)
          (selected-Found now p skipped q e (is_skipped-skips p.skip_until now skip) selected)

-- what the loop over the rooms `ps` has found
abbrev pub IsFound : DateTime → List RoomPlan → List Candidate → Type 0
IsFound now ps cs =
    (map (λ c. c.plan) cs ≡ select (is_due now) ps)
    × All (λ c. c.mode ≡ mode_of c.plan.preferred_mode) cs

found_with-IsFound :
    (bindings : Bindings) (now : DateTime) (p : RoomPlan) (ps : List RoomPlan)
    (o : Option Candidate) (rest : List Candidate × List String)
    → Found now p o
    → IsFound now ps rest.0
    → IsFound now (p ∷ ps) (found_with bindings o rest).0
unfolding select
found_with-IsFound bindings now p ps none rest f h = (rw (sym f.due) h.0, h.1)
found_with-IsFound bindings now p ps (some c) rest f h =
    let k = f.kept c refl in
    (
      rw (sym f.due) (ap₂ ◌∷◌ k.plan h.0),
      (k.mode ∙ ap (λ x. mode_of x.preferred_mode) (sym k.plan), h.1),
    )

-- A loop over the rooms that returns has found the rooms that are due and no other, in their order,
-- each in the mode that it prefers: a room is due if it is enabled, not skipped beyond now, and the
-- interval of its preferred mode is over, for vacuuming since its last completion of either mode, for
-- mopping since the last mopping; and one that has never been completed is due at once.
pub evaluate_rooms-is_due :
    (bindings : Bindings) (now : DateTime) (ps : List RoomPlan)
    {found : List Candidate × List String}
    → evaluate_rooms bindings now ps ≡ ok found
    → (map (λ c. c.plan) found.0 ≡ select (is_due now) ps)
      × All (λ c. c.mode ≡ mode_of c.plan.preferred_mode) found.0
unfolding evaluate_rooms select
evaluate_rooms-is_due bindings now [] h = (ground arith, ground arith)
evaluate_rooms-is_due bindings now (p ∷ ps) {found} h =
    let (o, candidate, more) =
      >>=-eq-ok (candidate_of now p)
        (λ o. evaluate_rooms bindings now ps >>= λ rest. ok (found_with bindings o rest))
        {result = found} h in
    let (rest, others, same) =
      >>=-eq-ok (evaluate_rooms bindings now ps) (λ rest. ok (found_with bindings o rest)) more in
    subst (λ x. IsFound now (p ∷ ps) x.0) {x = found_with bindings o rest} {y = found}
      (ground arith)
      (found_with-IsFound bindings now p ps o rest (candidate_of-Found now p candidate)
        (evaluate_rooms-is_due bindings now ps others))
