-- ===== src/Topology.antt =====
-- topology.py, and `_configured_topology_issues` of __init__.py.
use ha_vacuum_planner.Base.{
  Bool, List, Option, Result, String, [], all, any, false, has_duplicates, has_text, if◌then◌else◌,
  int_eq, is_empty, is_none, nat_eq, none, ok, some, string_eq, true, ◌&&◌, ◌++◌, ◌>>=◌, ◌∷◌,
}
use ha_vacuum_planner.Models.{
  Fields, Items, Value, block_guarantee_eq, block_kind_eq, block_state_eq, cons,
  dispatch_strategy_eq, end, entry, field, job_state_eq, list, mode_eq, named, nil,
  preferred_mode_eq, text,
}
use ha_vacuum_planner.Home.{
  EntityState, HomeAssistant, RegistryEntry, as_mapping, has_feature, is_unavailable,
}
use ha_vacuum_planner.Adapter.{
  find_dreame_mova_cleaning_mode_entity, resolve_bound_cleaning_mode_entity,
}

pub data TopologyError : Type 0 where
  entity_not_found clean_area_unsupported : TopologyError
  areas_required areas_duplicate areas_not_mapped : TopologyError

-- `async_get_valid_vacuum`: the entry, or what is wrong
pub data ValidVacuum : Type 0 where
  valid_vacuum : RegistryEntry → ValidVacuum
  no_vacuum : TopologyError → ValidVacuum

abbrev pub vacuum_state : HomeAssistant → RegistryEntry → Option EntityState
vacuum_state hass e = elim e.entity_id [ none ↦ none | some id ↦ hass.states id ]

unfoldable pub validate_state : HomeAssistant → RegistryEntry → EntityState → ValidVacuum
validate_state hass e s =
    if is_unavailable s.state
    then no_vacuum entity_not_found
    else if has_feature hass.clean_area_bit (entry (named "supported_features") s.attributes)
    then valid_vacuum e
    else no_vacuum clean_area_unsupported

unfoldable pub async_get_valid_vacuum : HomeAssistant → String → ValidVacuum
async_get_valid_vacuum hass id = elim (hass.entities id) [
  | none ↦ no_vacuum entity_not_found
  | some e ↦ elim (vacuum_state hass e) [
    | none ↦ no_vacuum entity_not_found
    | some s ↦ validate_state hass e s
  ]
]

-- `mapping.get(key)`, of an optional mapping
abbrev pub get_in : Option Fields → String → Option Value
get_in none key = none
get_in (some fs) key = entry (named key) fs

unfoldable pub area_mapping : RegistryEntry → Option Fields
area_mapping e =
    as_mapping (get_in (as_mapping (get_in (as_mapping (some e.options)) "vacuum")) "area_mapping")

-- every segment is a string with text
unfoldable pub all_segments : Items → Bool
all_segments nil = true
all_segments (cons (text s) items) = has_text s && all_segments items
all_segments (cons _ items) = false

-- a list of segments that is not empty
abbrev pub is_segments : Option Value → Bool
is_segments (some (list (cons v items))) = all_segments (cons v items)
is_segments _ = false

unfoldable pub is_mapped : Option Fields → String → Bool
is_mapped none area = false
is_mapped (some fs) area = is_segments (entry (named area) fs)

unfoldable pub validate_area_ids : List String → RegistryEntry → Option TopologyError
validate_area_ids selected e =
    if is_empty selected
    then some areas_required
    else if has_duplicates selected
    then some areas_duplicate
    else if all (is_mapped (area_mapping e)) selected
    then none
    else some areas_not_mapped

-- `ISSUE_CONDITIONS` of repairs.py
pub data IssueCondition : Type 0 where
  missing_registry missing_mapping lost_capability removed_areas : IssueCondition
  unresolved_external_run corrupt_store future_store : IssueCondition

-- `not mapping`: missing, or empty
abbrev pub is_unmapped : Option Fields → Bool
is_unmapped none = true
is_unmapped (some end) = true
is_unmapped (some (field k v fs)) = false

unfoldable pub vacuum_issues : List String → ValidVacuum → List IssueCondition
vacuum_issues areas (no_vacuum clean_area_unsupported) = lost_capability ∷ []
vacuum_issues areas (no_vacuum _) = missing_registry ∷ []
vacuum_issues areas (valid_vacuum e) =
    if is_unmapped (area_mapping e)
    then missing_mapping ∷ []
    else if is_none (validate_area_ids areas e)
    then []
    else removed_areas ∷ []

unfoldable pub area_issues : HomeAssistant → List String → List IssueCondition
area_issues hass areas =
    if any (λ id. is_none (hass.areas id)) areas then removed_areas ∷ [] else []

-- the selector that the runtime is bound to, or the one that the device has
abbrev pub selector_of : HomeAssistant → String → Option String → Result (Option String)
selector_of hass registry_id none = find_dreame_mova_cleaning_mode_entity hass (some registry_id)
selector_of hass registry_id (some selector) =
    resolve_bound_cleaning_mode_entity hass (some selector)

-- the set of issues, as a list in which a condition may stand twice
unfoldable pub configured_topology_issues :
    HomeAssistant → String → List String → Bool → Option String → Result (List IssueCondition)
configured_topology_issues hass registry_id areas requires selector = do
  found ← selector_of hass registry_id selector
  ok (
      vacuum_issues areas (async_get_valid_vacuum hass registry_id)
      ++ area_issues hass areas
      ++ (if requires && is_none found then lost_capability ∷ [] else []))
