-- ===== src/Storage.antt =====
-- store.py: `PlannerStore` over a backend that keeps one payload.
use ha_vacuum_planner.Base.{Option, Result, if◌then◌else◌, none, not, ok, some, ◌>>=◌}
use ha_vacuum_planner.Models.{PlannerState, dict, value_beq}
use ha_vacuum_planner.Codec.{IsoFormat, Payload, deserialize_planner_state, serialize_planner_state}

-- Home Assistant's `Store`: each operation returns its result and the backend behind it, or raises.
pub record Backend (S : Type 0) : Type 0 where
  pub load : S → Result (Option Payload × S)
  pub save : Payload → S → Result S
  pub remove : S → Result S

module _ {S : Type 0} (backend : Backend S) (iso : IsoFormat) where
  -- what follows the load of a payload
  unfoldable pub canonicalise : Payload → S → Result (Option PlannerState × S)
  canonicalise payload s = do
    state ← deserialize_planner_state iso payload
    let canonical = serialize_planner_state iso state
    next ←
        if not (value_beq (dict canonical) (dict payload)) then backend.save canonical s else ok s
    ok (some state, next)

  unfoldable pub load_stored : Option Payload × S → Result (Option PlannerState × S)
  load_stored (none, s) = ok (none, s)
  load_stored (some payload, s) = canonicalise payload s

  unfoldable pub async_load : S → Result (Option PlannerState × S)
  async_load s = do loaded ← backend.load s; load_stored loaded

  unfoldable pub async_save : PlannerState → S → Result S
  async_save state s = backend.save (serialize_planner_state iso state) s

  unfoldable pub async_remove : S → Result S
  async_remove s = backend.remove s
