-- ===== src/Setup/Plans.antt =====
-- __init__.py: the plan that a config entry stands for. The config flow writes settings of these types;
-- a setting may be missing, and a mode is a text.
use ha_vacuum_planner.Base.{
  Bool, List, Option, Result, String, [], any, err, false, if◌then◌else◌, int_eq, is_some,
  map_result, nat_eq, none, ok, pos, some, str_append, string_eq, true, value_error, ℕ, ℤ, ◌&&◌,
  ◌+◌, ◌==◌, ◌>>=◌, ◌∷◌,
}
use ha_vacuum_planner.Models.{
  DateTime, PlannerState, PreferredMode, RoomPlan, block_guarantee_eq, block_kind_eq,
  block_state_eq, dispatch_strategy_eq, empty_ledger, job_state_eq, make_revision, make_room,
  make_state, mode_eq, preferred_mode_eq, preferred_mode_value,
}

pub record RawSettings : Type 0 where
  pub active : Option Bool
  pub vacuum_interval_days : Option ℤ
  pub mop_interval_days : Option ℤ
  pub priority : Option ℤ
  pub mode : Option String

pub record AreaSettings : Type 0 where
  pub active : Bool
  pub vacuum_interval_days : ℤ
  pub mop_interval_days : ℤ
  pub priority : ℤ
  pub mode : String

-- what the setup reads of a config entry
pub record ConfigEntry : Type 0 where
  pub entry_id : String
  pub unique_id : Option String
  pub area_ids : List String
  pub area_plans : String → Option RawSettings

abbrev pub no_settings : RawSettings
no_settings = record {
  active = none;
  vacuum_interval_days = none;
  mop_interval_days = none;
  priority = none;
  mode = none;
}

-- `settings.get(key, default)`
abbrev pub or_value {ℓ} : {A : Type ℓ} → Option A → A → A
or_value none a = a
or_value (some b) a = b

unfoldable pub area_settings : ℕ → RawSettings → AreaSettings
area_settings index raw = record {
  active = or_value raw.active true;
  vacuum_interval_days = or_value raw.vacuum_interval_days (pos 7);
  mop_interval_days = or_value raw.mop_interval_days (pos 7);
  priority = or_value raw.priority (pos index);
  mode = or_value raw.mode "vacuum";
}

-- `result[area_id] = settings`: a key keeps its place
unfoldable pub put_settings :
    String → AreaSettings → List (String × AreaSettings) → List (String × AreaSettings)
put_settings area settings [] = (area, settings) ∷ []
put_settings area settings ((a, old) ∷ plans) =
    let rest = put_settings area settings plans in
    if area == a then (a, settings) ∷ plans else (a, old) ∷ rest

-- the loop over `enumerate(area_ids)`, from an index on
unfoldable pub collect_plans :
    (String → Option RawSettings)
    → ℕ
    → List String
    → List (String × AreaSettings)
    → List (String × AreaSettings)
collect_plans raw index [] plans = plans
collect_plans raw index (a ∷ areas) plans =
    collect_plans raw (index + 1) areas
      (put_settings a (area_settings index (or_value (raw a) no_settings)) plans)

unfoldable pub configured_area_plans : ConfigEntry → List (String × AreaSettings)
configured_area_plans e = collect_plans e.area_plans 0 e.area_ids []

unfoldable pub entry_requires_vacuum_and_mop : ConfigEntry → Bool
entry_requires_vacuum_and_mop e = any (λ p. p.1.mode == "vacuum_and_mop") (configured_area_plans e)

unfoldable pub state_requires_vacuum_and_mop : Option PlannerState → Bool
state_requires_vacuum_and_mop none = false
state_requires_vacuum_and_mop (some s) =
    any
      (λ p.
        p.enabled
        && is_some p.vacuum_and_mop_interval_days
        && p.preferred_mode == PreferredMode.vacuum_and_mop)
      s.plan_revision.room_plans

-- `PreferredMode(text)`
unfoldable pub preferred_mode_of : String → Result PreferredMode
preferred_mode_of s =
    if s == preferred_mode_value PreferredMode.vacuum
    then ok PreferredMode.vacuum
    else if s == preferred_mode_value PreferredMode.vacuum_and_mop
    then ok PreferredMode.vacuum_and_mop
    else err (value_error (str_append s " is not a valid PreferredMode"))

unfoldable pub initial_room : String → String × AreaSettings → Result RoomPlan
initial_room lane (area, settings) = do
  mode ← preferred_mode_of settings.mode
  make_room (record {
    area_id = area;
    lane_id = lane;
    enabled = settings.active;
    vacuum_interval_days = settings.vacuum_interval_days;
    vacuum_and_mop_interval_days = some settings.mop_interval_days;
    preferred_mode = mode;
    priority = settings.priority;
    skip_until = none;
    last_completed_vacuum_at = none;
    last_completed_vacuum_and_mop_at = none;
  })

-- `entry.unique_id or entry_id`
abbrev pub lane_of : ConfigEntry → String
lane_of e = elim e.unique_id [ none ↦ e.entry_id | some id ↦ if id == "" then e.entry_id else id ]

-- `_initial_planner_state`, with `uuid4` and `datetime.now(UTC)`
unfoldable pub initial_planner_state : ConfigEntry → String → DateTime → Result PlannerState
initial_planner_state e new_id now = do
  rooms ← map_result (initial_room (lane_of e)) (configured_area_plans e)
  revision ← make_revision (record { revision_id = new_id; created_at = now; room_plans = rooms })
  ledger ← empty_ledger
  make_state (record { plan_revision = revision; ledger = ledger })
