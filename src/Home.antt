-- ===== src/Home.antt =====
-- What the integration reads of Home Assistant: the states of entities and the registries, as they are
-- at one moment. An attribute of a registry entry that is absent, or of another type than the one the
-- code asks for, is `none`.
use ha_vacuum_planner.Base.{
  Bool, List, Option, Result, String, [], contains, err, false, if◌then◌else◌, int_eq, nat_beq,
  nat_eq, none, ok, pos, some, string_eq, true, type_error, ℕ, ◌%◌, ◌&&◌, ◌/◌, ◌==◌, ◌^◌, ◌||◌, ◌∷◌,
}
use ha_vacuum_planner.Models.{
  Fields, Items, Value, block_guarantee_eq, block_kind_eq, block_state_eq, cons, dict,
  dispatch_strategy_eq, integer, job_state_eq, list, mapping_proxy, mode_eq, nil, preferred_mode_eq,
  text, tuple,
}

pub record EntityState : Type 0 where
  pub state : String
  pub attributes : Fields

pub record RegistryEntry : Type 0 where
  pub id : Option String
  pub entity_id : Option String
  pub domain : Option String
  pub platform : Option String
  pub device_id : Option String
  pub unique_id : Option String
  -- `disabled`, or a `disabled_by` that is not `None`
  pub is_disabled : Bool
  pub options : Value

pub record HomeAssistant : Type 0 where
  -- `hass.states.get`
  pub states : String → Option EntityState
  -- the entity registry's `async_get`, by entity or registry identity
  pub entities : String → Option RegistryEntry
  -- `async_entries_for_device`, where the registry has it
  pub entries_for_device : Option (String → List RegistryEntry)
  -- the area registry's `async_get_area`, as far as the name
  pub areas : String → Option String
  -- the place of the bit `VacuumEntityFeature.CLEAN_AREA`
  pub clean_area_bit : ℕ

-- `state in {"unknown", "unavailable"}`
abbrev pub is_unavailable : String → Bool
is_unavailable state = contains state ("unknown" ∷ "unavailable" ∷ [])

-- `value if isinstance(value, Mapping) else None`
abbrev pub as_mapping : Option Value → Option Fields
as_mapping (some (dict fs)) = some fs
as_mapping (some (mapping_proxy fs)) = some fs
as_mapping _ = none

-- `isinstance(value, int)`, no `bool`, not negative, and `value & 2 ** bit`
unfoldable pub has_feature : ℕ → Option Value → Bool
has_feature bit (some (integer (pos n))) = nat_beq (n / 2 ^ bit % 2) 1
has_feature bit _ = false

-- `text in items`
unfoldable pub has_item : String → Items → Bool
has_item s nil = false
has_item s (cons (text t) items) = s == t || has_item s items
has_item s (cons _ items) = has_item s items

-- the values that `set(items)` refuses
unfoldable mutual
  pub is_unhashable : Value → Bool
  is_unhashable (list items) = true
  is_unhashable (dict fs) = true
  is_unhashable (mapping_proxy fs) = true
  is_unhashable (tuple items) = has_unhashable items
  is_unhashable _ = false

  pub has_unhashable : Items → Bool
  has_unhashable nil = false
  has_unhashable (cons v items) = is_unhashable v || has_unhashable items

-- `{"Vacuum", "Vacuum and Mop"}.issubset(options)`
unfoldable pub has_mode_options : Items → Result Bool
has_mode_options items =
    if has_unhashable items
    then err type_error
    else ok (has_item "Vacuum" items && has_item "Vacuum and Mop" items)
