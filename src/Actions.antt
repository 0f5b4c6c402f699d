-- ===== src/Actions.antt =====
-- public_actions.py: the commands of the public actions. `zoneinfo` is a parameter.
use ha_vacuum_planner.Base.{
  Error, List, Option, Result, String, [], any, err, if◌then◌else◌, int_eq, is_empty, key_error,
  leb, leℤ, map_result, nat_eq, none, not, ok, overflow_error, pos, raise_if, some, string_eq,
  value_error, ℕ, ℤ, ◌+◌, ◌==◌, ◌>>=◌, ◌>>◌, ◌||◌, ◌∷◌,
}
use ha_vacuum_planner.Models.{
  BlockState, DateTime, JobState, PlannerState, QueueJob, QueueLedger, RoomPlan, add_days,
  block_guarantee_eq, block_kind_eq, block_state_eq, dispatch_strategy_eq, find_block, job_state_eq,
  jobs_of, make_revision, make_room, make_state, mode_eq, no_change, preferred_mode_eq,
  replace_block_state, replace_job_state,
}

-- `tuple(replace(plan, skip_until=...) if plan.area_id == area_id else plan for plan in room_plans)`;
-- the time is computed at each plan that is replaced
unfoldable pub skip_room : String → Result DateTime → RoomPlan → Result RoomPlan
skip_room area_id skip_until plan =
    if plan.area_id == area_id
    then (skip_until >>= λ at. make_room (record plan { skip_until = some at }))
    else ok plan

-- the part that both actions on an area share: the check of the area and the new revision
unfoldable pub skip_area :
    PlannerState → String → DateTime → Result DateTime → String → Result PlannerState
skip_area state area_id now skip_until revision_id = do
  raise_if (not (any (λ p. p.area_id == area_id) state.plan_revision.room_plans))
      (key_error area_id)
  plans ← map_result (skip_room area_id skip_until) state.plan_revision.room_plans
  revision ←
      make_revision (record { revision_id = revision_id; created_at = now; room_plans = plans })
  make_state (record state { plan_revision = revision })

unfoldable pub postpone_area : PlannerState → String → DateTime → ℤ → String → Result PlannerState
postpone_area state area_id now days revision_id = do
  raise_if (leℤ days (pos 0)) (value_error "postpone_days must be positive")
  skip_area state area_id now (add_days now days) revision_id

-- `zoneinfo` and the datetimes of a zone. A date is its proleptic ordinal.
pub record TimeZones : Type 1 where
  pub Zone : Type 0
  -- `ZoneInfo(key)`, or `ZoneInfoNotFoundError`
  pub zone_info : String → Option Zone
  -- `now.astimezone(zone).date()`
  pub local_date : Zone → DateTime → Result ℕ
  -- `datetime.combine(date, time.min, tzinfo=zone).astimezone(UTC)`
  pub midnight : Zone → ℕ → Result DateTime

-- the ordinal of `date.max`
abbrev pub last_date : ℕ
last_date = 3652059

unfoldable pub find_zone : (zones : TimeZones) → String → Result zones.Zone
find_zone zones key = elim (zones.zone_info key) [
  | none ↦ err (value_error "Home Assistant time zone is invalid")
  | some zone ↦ ok zone
]

-- the next local midnight
unfoldable pub next_midnight : TimeZones → DateTime → String → Result DateTime
next_midnight zones now time_zone = do
  zone ← find_zone zones time_zone
  date ← zones.local_date zone now
  raise_if (leb last_date date) overflow_error
  zones.midnight zone (date + 1)

unfoldable pub skip_area_today :
    TimeZones → PlannerState → String → DateTime → String → String → Result PlannerState
skip_area_today zones state area_id now time_zone revision_id = do
  skip_until ← next_midnight zones now time_zone
  skip_area state area_id now (ok skip_until) revision_id

abbrev pub external_work : Error
external_work =
    value_error "block may have external work; adapter cancellation confirmation is not implemented"

-- the loop over the jobs of the block
unfoldable pub cancel_jobs : DateTime → List QueueJob → QueueLedger → Result QueueLedger
cancel_jobs at [] ledger = ok ledger
cancel_jobs at (j ∷ js) ledger = do
  next ← replace_job_state ledger j.job_id JobState.cancelled at no_change
  cancel_jobs at js next

unfoldable pub cancel_pending_block : PlannerState → String → DateTime → Result PlannerState
cancel_pending_block state block_id cancelled_at = do
  block ← find_block state.ledger.blocks block_id
  raise_if (not (block.state == BlockState.sealed)) external_work
  let jobs = jobs_of block_id state.ledger.jobs
  raise_if (is_empty jobs || any (λ j. not (j.state == JobState.pending)) jobs) external_work
  ledger ← cancel_jobs cancelled_at jobs state.ledger
  cancelled ← replace_block_state ledger block_id BlockState.cancelled cancelled_at none
  make_state (record state { ledger = cancelled })
