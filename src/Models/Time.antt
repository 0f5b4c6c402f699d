-- ===== src/Models/Time.antt =====
-- `datetime` as far as the source uses it. An instant is a count of microseconds on the UTC time line
-- from 24 hours before 0001-01-01T00:00Z, which keeps every representable instant at or above 0.
-- `east` is the offset from UTC plus 24 hours, in microseconds; it is missing in a naive datetime.
-- Zones have a fixed offset, as those of parsed ISO-8601 texts and of UTC have.
use ha_vacuum_planner.Base.{
  Bool, List, Option, Result, [], err, false, if◌then◌else◌, is_some, leb, list_beq, ltb, nat_beq,
  negsuc, none, not, ok, overflow_error, pos, some, sort_by, type_error, ℕ, ℤ, ◌&&◌, ◌*◌, ◌+◌, ◌-◌,
  ◌||◌, ◌∷◌, ◌≤◌,
}

pub record DateTime : Type 0 where
  pub instant : ℕ
  pub east : Option ℕ

-- `a < b`, `a <= b` and `a == b` for aware datetimes
abbrev pub lt_time : DateTime → DateTime → Bool
lt_time a b = ltb a.instant b.instant

abbrev pub le_time : DateTime → DateTime → Bool
le_time a b = leb a.instant b.instant

abbrev pub time_beq : DateTime → DateTime → Bool
time_beq a b = nat_beq a.instant b.instant

-- `max(a, b)` keeps the first of two equal values.
abbrev pub max_time : DateTime → DateTime → DateTime
max_time a b = if lt_time a b then b else a

abbrev pub is_aware : DateTime → Bool
is_aware t = is_some t.east

-- `value is not None and (value.tzinfo is None or value.utcoffset() is None)`
abbrev pub is_naive? : Option DateTime → Bool
is_naive? none = false
is_naive? (some t) = not (is_aware t)

-- `a <= b`, which raises `TypeError` between a naive and an aware datetime
unfoldable pub compare_le : DateTime → DateTime → Result Bool
compare_le a b =
    if (is_aware a && is_aware b) || (not (is_aware a) && not (is_aware b))
    then ok (le_time a b)
    else err type_error

-- microseconds in a day, and the first wall clock after `datetime.max` plus two days
abbrev pub day : ℕ
day = 86400000000

abbrev pub wall_limit : ℕ
wall_limit = 3652061 * day

-- A naive datetime is its own wall clock, which counts like one at UTC.
abbrev pub east_of : Option ℕ → ℕ
east_of none = day
east_of (some e) = e

-- `t + timedelta(days=n)`: a `timedelta` holds at most 999999999 days, and the sum must be a datetime.
unfoldable pub add_days : DateTime → ℤ → Result DateTime
add_days t (pos n) =
    if ltb 999999999 n || leb wall_limit (t.instant + n * day + east_of t.east)
    then err overflow_error
    else ok (record t { instant = t.instant + n * day })
add_days t (negsuc n) =
    if ltb 999999999 (n + 1) || ltb (t.instant + east_of t.east) ((n + 1) * day + 2 * day)
    then err overflow_error
    else ok (record t { instant = t.instant - (n + 1) * day })

-- `timestamps != tuple(sorted(timestamps))`
unfoldable pub is_chronological : List DateTime → Bool
is_chronological ts = list_beq time_beq ts (sort_by lt_time ts)

-- `tuple(value for value in values if value is not None)`
abbrev pub present : List (Option DateTime) → List DateTime
present [] = []
present (none ∷ ts) = present ts
present (some t ∷ ts) = t ∷ present ts

-- No later entry lies before an earlier one.
abbrev pub Ascending : List DateTime → Type 0
Ascending [] = Unit
Ascending (t ∷ []) = Unit
Ascending (t ∷ u ∷ us) = (t.instant ≤ u.instant) × Ascending (u ∷ us)
