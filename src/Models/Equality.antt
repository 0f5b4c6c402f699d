-- ===== src/Models/Equality.antt =====
-- `==` of JSON values, and the generated `==` of jobs, plans, ledgers and the planner's state.
use ha_vacuum_planner.Base.{
  Bool, Option, bool_beq, false, if◌then◌else◌, int_beq, int_eq, leb, list_beq, ltb, nat_beq,
  nat_eq, negsuc, none, not, pos, some, string_eq, suc, true, zero, ℕ, ℤ, ◌%◌, ◌&&◌, ◌*◌, ◌+◌, ◌-◌,
  ◌/◌, ◌==◌, ◌^◌, ◌||◌,
}
use ha_vacuum_planner.Models.Enums.{
  block_guarantee_eq, block_kind_eq, block_state_eq, dispatch_strategy_eq, job_state_eq, mode_eq,
  preferred_mode_eq,
}
use ha_vacuum_planner.Models.Time.{time_beq}
use ha_vacuum_planner.Models.Json.{
  Fields, Items, Key, Value, boolean, cons, dict, end, field, float, integer, is_finite, list,
  mapping_proxy, named, nil, none_value, other_key, text, tuple,
}
use ha_vacuum_planner.Models.Jobs.{QueueJob}
use ha_vacuum_planner.Models.Ledgers.{QueueLedger}
use ha_vacuum_planner.Models.Transitions.{block_beq, option_beq}
use ha_vacuum_planner.Models.Rooms.{PlannerState, RoomPlan}

abbrev pub name_beq : Key → Key → Bool
name_beq (named j) (named k) = j == k
name_beq (other_key j) (other_key k) = nat_beq j k
name_beq _ _ = false

unfoldable pub entry : Key → Fields → Option Value
entry name end = none
entry name (field k v fs) = let rest = entry name fs in if name_beq name k then some v else rest

unfoldable pub size : Fields → ℕ
size end = 0
size (field k v fs) = size fs + 1

-- the parts of a finite IEEE 754 double: (-1)^sign * mantissa * 2^(exponent - 1075)
abbrev pub exponent : ℕ → ℕ
exponent bits = if nat_beq (bits / 2 ^ 52 % 2048) 0 then 1 else bits / 2 ^ 52 % 2048

abbrev pub mantissa : ℕ → ℕ
mantissa bits = if nat_beq (bits / 2 ^ 52 % 2048) 0 then bits % 2 ^ 52 else bits % 2 ^ 52 + 2 ^ 52

abbrev is_magnitude : ℕ → ℕ → Bool
is_magnitude bits n =
    if leb 1075 (exponent bits)
    then nat_beq n (mantissa bits * 2 ^ (exponent bits - 1075))
    else nat_beq (n * 2 ^ (1075 - exponent bits)) (mantissa bits)

-- a float and an `int`
unfoldable pub float_is : ℕ → ℤ → Bool
float_is bits (pos zero) = nat_beq (bits % 2 ^ 63) 0
float_is bits (pos (suc n)) = is_finite bits && ltb bits (2 ^ 63) && is_magnitude bits (suc n)
float_is bits (negsuc n) = is_finite bits && leb (2 ^ 63) bits && is_magnitude bits (suc n)

-- two floats: a NaN is not equal to itself, and the zeros are equal
unfoldable pub float_beq : ℕ → ℕ → Bool
float_beq a b =
    (nat_beq (a % 2 ^ 63) 0 && nat_beq (b % 2 ^ 63) 0)
    || (nat_beq a b && not (nat_beq (a / 2 ^ 52 % 2048) 2047 && not (nat_beq (a % 2 ^ 52) 0)))

-- `bool` is a subclass of `int`
abbrev as_int : Value → Option ℤ
as_int (boolean true) = some (pos 1)
as_int (boolean false) = some (pos 0)
as_int (integer n) = some n
as_int _ = none

abbrev int_is : ℤ → Value → Bool
int_is n (float bits) = float_is bits n
int_is n v = elim (as_int v) [ none ↦ false | some m ↦ n == m ]

-- An object that is no JSON value is equal to nothing here: the constructors refuse it.
unfoldable mutual
  pub value_beq : Value → Value → Bool
  value_beq none_value none_value = true
  value_beq (boolean true) v = int_is (pos 1) v
  value_beq (boolean false) v = int_is (pos 0) v
  value_beq (integer n) v = int_is n v
  value_beq (float bits) (float other) = float_beq bits other
  value_beq (float bits) v = elim (as_int v) [ none ↦ false | some n ↦ float_is bits n ]
  value_beq (text s) (text t) = s == t
  value_beq (list xs) (list ys) = items_beq xs ys
  value_beq (tuple xs) (tuple ys) = items_beq xs ys
  value_beq (dict fs) (dict gs) = nat_beq (size fs) (size gs) && fields_in fs gs
  value_beq (dict fs) (mapping_proxy gs) = nat_beq (size fs) (size gs) && fields_in fs gs
  value_beq (mapping_proxy fs) (dict gs) = nat_beq (size fs) (size gs) && fields_in fs gs
  value_beq (mapping_proxy fs) (mapping_proxy gs) = nat_beq (size fs) (size gs) && fields_in fs gs
  value_beq _ _ = false

  pub items_beq : Items → Items → Bool
  items_beq nil nil = true
  items_beq (cons x xs) (cons y ys) = value_beq x y && items_beq xs ys
  items_beq _ _ = false

  -- every entry has an equal one
  pub fields_in : Fields → Fields → Bool
  fields_in end gs = true
  fields_in (field k v fs) gs = elim (entry k gs) [
    | none ↦ false
    | some w ↦ value_beq v w && fields_in fs gs
  ]

unfoldable pub job_beq : QueueJob → QueueJob → Bool
job_beq a b =
    a.job_id == b.job_id
    && a.block_id == b.block_id
    && a.area_id == b.area_id
    && a.area_name_snapshot == b.area_name_snapshot
    && value_beq a.adapter_target_snapshot b.adapter_target_snapshot
    && a.mode == b.mode
    && a.position == b.position
    && a.state == b.state
    && a.attempt == b.attempt
    && time_beq a.planned_at b.planned_at
    && option_beq string_eq.beq a.adapter_token b.adapter_token
    && option_beq time_beq a.sent_at b.sent_at
    && option_beq time_beq a.started_at b.started_at
    && option_beq time_beq a.finished_at b.finished_at
    && option_beq string_eq.beq a.error_code b.error_code
    && option_beq string_eq.beq a.error_detail b.error_detail

-- `==` of two rooms, field by field
unfoldable pub room_beq : RoomPlan → RoomPlan → Bool
room_beq a b =
    a.area_id == b.area_id
    && a.lane_id == b.lane_id
    && bool_beq a.enabled b.enabled
    && a.vacuum_interval_days == b.vacuum_interval_days
    && option_beq int_beq a.vacuum_and_mop_interval_days b.vacuum_and_mop_interval_days
    && a.preferred_mode == b.preferred_mode
    && a.priority == b.priority
    && option_beq time_beq a.skip_until b.skip_until
    && option_beq time_beq a.last_completed_vacuum_at b.last_completed_vacuum_at
    && option_beq time_beq a.last_completed_vacuum_and_mop_at b.last_completed_vacuum_and_mop_at

unfoldable pub ledger_beq : QueueLedger → QueueLedger → Bool
ledger_beq a b =
    a.schema_version == b.schema_version
    && a.revision == b.revision
    && list_beq block_beq a.blocks b.blocks
    && list_beq job_beq a.jobs b.jobs
    && option_beq string_eq.beq a.active_block_id b.active_block_id
    && option_beq time_beq a.last_reconciled_at b.last_reconciled_at

unfoldable pub state_beq : PlannerState → PlannerState → Bool
state_beq a b =
    a.plan_revision.revision_id == b.plan_revision.revision_id
    && time_beq a.plan_revision.created_at b.plan_revision.created_at
    && list_beq room_beq a.plan_revision.room_plans b.plan_revision.room_plans
    && ledger_beq a.ledger b.ledger
