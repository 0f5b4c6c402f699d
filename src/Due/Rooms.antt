-- ===== src/Due/Rooms.antt =====
-- Which rooms are due.
use ha_vacuum_planner.Base.{
  Bool, Option, arith, false, if◌then◌else◌, is_some, leb, ltb, negsuc, none, not, ok, pos, refl,
  some, true, ℕ, ℤ, ◌&&◌, ◌*◌, ◌+◌, ◌-◌, ◌≡◌,
}
use ha_vacuum_planner.Models.{DateTime, Mode, PreferredMode, RoomPlan, add_days, compare_le, day}
use ha_vacuum_planner.Planning.{due_at_of, due_by, max_optional}

-- the instant `n` days after `t`
abbrev pub days_after : DateTime → ℤ → ℕ
days_after t (pos n) = t.instant + n * day
days_after t (negsuc n) = t.instant - (n + 1) * day

-- the last of two completions
abbrev pub latest : Option DateTime → Option DateTime → Option DateTime
latest none b = b
latest (some a) none = some a
latest (some a) (some b) = if ltb a.instant b.instant then some b else some a

-- whether the interval since the last completion is over
abbrev pub is_over : Option DateTime → ℤ → DateTime → Bool
is_over none days now = true
is_over (some t) days now = leb (days_after t days) now.instant

-- A room is due if it is enabled, not skipped beyond now, and the interval of its preferred mode is
-- over: for vacuuming since its last completion of either mode, for mopping since the last mopping.
abbrev pub is_due_mode : PreferredMode → RoomPlan → DateTime → Bool
is_due_mode PreferredMode.vacuum p now =
    is_over (latest p.last_completed_vacuum_at p.last_completed_vacuum_and_mop_at)
      p.vacuum_interval_days now
is_due_mode PreferredMode.vacuum_and_mop p now = elim p.vacuum_and_mop_interval_days [
  | none ↦ false
  | some days ↦ is_over p.last_completed_vacuum_and_mop_at days now
]

abbrev pub skips : Option DateTime → DateTime → Bool
skips none now = false
skips (some t) now = ltb now.instant t.instant

abbrev pub is_due : DateTime → RoomPlan → Bool
is_due now p = p.enabled && not (skips p.skip_until now) && is_due_mode p.preferred_mode p now

abbrev pub mode_of : PreferredMode → Mode
mode_of PreferredMode.vacuum = Mode.vacuum
mode_of PreferredMode.vacuum_and_mop = Mode.vacuum_and_mop

pub due_by-is_some :
    (mode : Mode) (due now : DateTime) {o : Option (Mode × DateTime)}
    → due_by mode due now ≡ ok o
    → is_some o ≡ leb due.instant now.instant
unfolding due_by compare_le
due_by-is_some mode due now h = ground arith

pub due_at_of-instant :
    (last : Option DateTime) (days : ℤ) (now : DateTime) {t : DateTime}
    → due_at_of last days now ≡ ok t
    → leb t.instant now.instant ≡ is_over last days now
unfolding due_at_of add_days
due_at_of-instant none days now h = ground arith
due_at_of-instant (some t) (pos n) now h = ground arith
due_at_of-instant (some t) (negsuc n) now h = ground arith

pub max_optional-latest : (a b : Option DateTime) → max_optional a b ≡ latest a b
unfolding max_optional
max_optional-latest none b = refl
max_optional-latest (some a) none = refl
max_optional-latest (some a) (some b) = ground arith
