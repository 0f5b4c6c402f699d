-- ===== src/Entities/Numbers.antt =====
-- number.py: the numbers of a room's plan, and the command that sets one of them.
use ha_vacuum_planner.Base.{
  Error, Option, Result, String, err, if◌then◌else◌, int_eq, leb, leℤ, list_beq, map_result,
  nat_beq, nat_eq, negsuc, none, not, ok, overflow_error, pos, raise_if, runtime_error, some,
  string_eq, suc, value_error, zero, ℕ, ℤ, ◌%◌, ◌&&◌, ◌*◌, ◌+◌, ◌-◌, ◌/◌, ◌==◌, ◌>>=◌, ◌>>◌, ◌^◌,
}
use ha_vacuum_planner.Models.{
  DateTime, PlannerState, RoomPlan, Value, block_guarantee_eq, block_kind_eq, block_state_eq,
  compare_le, dispatch_strategy_eq, east_of, exponent, float, integer, is_finite, job_state_eq,
  make_revision, make_room, make_state, mantissa, mode_eq, preferred_mode_eq, room_beq, wall_limit,
}
use ha_vacuum_planner.Runtime.{
  VacuumPlannerRuntimeData, capture_command_generation, require_command_generation,
}
use ha_vacuum_planner.Dispatch.{Schedule, World, run_command}

pub data PlanField : Type 0 where
  vacuum_interval vacuum_and_mop_interval priority_field : PlanField

abbrev pub min_value : PlanField → ℤ
min_value priority_field = pos 0
min_value _ = pos 1

abbrev pub max_value : PlanField → ℤ
max_value priority_field = pos 2147483647
max_value _ = pos 365

abbrev pub with_sign : ℕ → ℕ → ℤ
with_sign sign zero = pos 0
with_sign zero (suc n) = pos (suc n)
with_sign (suc s) (suc n) = negsuc n

-- `numeric_value.is_integer()` and `int(numeric_value)` of a finite double
unfoldable pub float_integer : ℕ → Option ℤ
float_integer bits =
    if leb 1075 (exponent bits)
    then some (with_sign (bits / 2 ^ 63) (mantissa bits * 2 ^ (exponent bits - 1075)))
    else if nat_beq (mantissa bits % 2 ^ (1075 - exponent bits)) 0
    then some (with_sign (bits / 2 ^ 63) (mantissa bits / 2 ^ (1075 - exponent bits)))
    else none

abbrev pub not_whole : Error
not_whole = value_error "Vacuum Planner number values must be whole numbers"

abbrev pub whole_or : Option ℤ → Result ℤ
whole_or none = err not_whole
whole_or (some n) = ok n

-- the absolute value of an integer
abbrev pub magnitude : ℤ → ℕ
magnitude (pos n) = n
magnitude (negsuc n) = suc n

-- The whole number that a value is. `float(n)` rounds an integer of more than 53 bits, which changes
-- nothing in a range of 31 bits, and raises on one that rounds beyond the largest double.
unfoldable pub whole_number : Value → Result ℤ
whole_number (integer n) =
    if leb (2 ^ 1024 - 2 ^ 970) (magnitude n) then err overflow_error else ok n
whole_number (float bits) = if is_finite bits then whole_or (float_integer bits) else err not_whole
whole_number _ = err not_whole

unfoldable pub number_value : PlanField → Value → Result ℤ
number_value plan_field value = do
  n ← whole_number value
  raise_if (not (leℤ (min_value plan_field) n && leℤ n (max_value plan_field)))
      (value_error "Vacuum Planner number value is outside the supported range")
  ok n

-- `_replace_room_value`
unfoldable pub replace_room_value : PlanField → ℤ → RoomPlan → Result RoomPlan
replace_room_value vacuum_interval n room = make_room (record room { vacuum_interval_days = n })
replace_room_value vacuum_and_mop_interval n room =
    make_room (record room { vacuum_and_mop_interval_days = some n })
replace_room_value priority_field n room = make_room (record room { priority = n })

-- `t + timedelta(microseconds=1)`
unfoldable pub add_microsecond : DateTime → Result DateTime
add_microsecond t =
    if leb wall_limit (t.instant + 1 + east_of t.east)
    then err overflow_error
    else ok (record t { instant = t.instant + 1 })

-- `max(datetime.now(UTC), created_at + timedelta(microseconds=1))`
unfoldable pub next_creation : DateTime → DateTime → Result DateTime
next_creation now created_at = do
  later ← add_microsecond created_at
  is_old ← compare_le later now
  ok (if is_old then now else later)

unfoldable pub replace_in_room : String → PlanField → ℤ → RoomPlan → Result RoomPlan
replace_in_room area_id plan_field n room =
    if room.area_id == area_id then replace_room_value plan_field n room else ok room

-- `update`, with `datetime.now(UTC)` and `uuid4`
unfoldable pub update_number :
    String → PlanField → ℤ → DateTime → String → PlannerState → Result PlannerState
update_number area_id plan_field n now new_id state = do
  rooms ← map_result (replace_in_room area_id plan_field n) state.plan_revision.room_plans
  let change = do
    created_at ← next_creation now state.plan_revision.created_at
    revision ←
        make_revision (record { revision_id = new_id; created_at = created_at; room_plans = rooms })
    make_state (record state { plan_revision = revision })
  if list_beq room_beq rooms state.plan_revision.room_plans then ok state else change

-- `native_value`
unfoldable pub native_value : PlanField → RoomPlan → Option ℤ
native_value vacuum_interval room = some room.vacuum_interval_days
native_value vacuum_and_mop_interval room = room.vacuum_and_mop_interval_days
native_value priority_field room = some room.priority

-- the part in front of the lock: the number and the captured generation
unfoldable pub number_request : PlanField → Value → VacuumPlannerRuntimeData → Result (ℤ × ℕ)
number_request plan_field value r = do
  n ← number_value plan_field value
  raise_if (not r.has_coordinator) (runtime_error "Vacuum Planner state is unavailable")
  generation ← capture_command_generation r
  ok (n, generation)

-- `async_set_native_value`, behind the call and as far as the world and the returned state
unfoldable pub async_set_native_value :
    {S : Type 0}
    → (PlannerState → S → Result S)
    → Schedule S
    → String
    → PlanField
    → Value
    → DateTime
    → String
    → World S
    → World S × Result PlannerState
async_set_native_value save schedule area_id plan_field value now new_id w =
    elim (number_request plan_field value w.runtime) [
      | err e ↦ (w, err e)
      | ok (n, generation) ↦
          run_command save schedule 6 (λ r. require_command_generation r generation)
            (update_number area_id plan_field n now new_id) w
    ]
