-- ===== src/Dispatch/Worlds.antt =====
-- __init__.py: the runtime with its coordinator and store, and what a command reads of Home Assistant.
use ha_vacuum_planner.Base.{
  Option, Result, String, err, false, if◌then◌else◌, none, not, ok, some, string_eq,
  validation_error, ◌&&◌,
}
use ha_vacuum_planner.Models.{option_beq}
use ha_vacuum_planner.Coordinator.{PlannerCoordinator, publish}
use ha_vacuum_planner.Runtime.{VacuumPlannerRuntimeData, invalidate_observations}
use ha_vacuum_planner.Home.{HomeAssistant, RegistryEntry}
use ha_vacuum_planner.Adapter.{resolve_bound_cleaning_mode_entity}

-- the runtime, its coordinator and the store behind it
pub record World (S : Type 0) : Type 0 where
  pub runtime : VacuumPlannerRuntimeData
  pub coordinator : PlannerCoordinator
  pub store : S

-- `_resolve_command_vacuum`: the entity, while its registry entry is still the configured vacuum
abbrev pub registered_vacuum : String → RegistryEntry → Option String
registered_vacuum id e =
    if option_beq string_eq.beq e.id (some id)
      && option_beq string_eq.beq e.domain (some "vacuum")
      && not e.is_disabled
    then e.entity_id
    else none

unfoldable pub find_vacuum : HomeAssistant → String → Option String
find_vacuum hass id = elim (hass.entities id) [ none ↦ none | some e ↦ registered_vacuum id e ]

-- `topology_ready = False`, with the observations invalidated and the listeners told
unfoldable pub latch : {S : Type 0} → World S → World S
latch w = record w {
  runtime = invalidate_observations (record w.runtime { topology_ready = false });
  coordinator = if w.runtime.has_coordinator then publish w.coordinator else w.coordinator;
}

-- both ways of `_resolve_command_vacuum` leave a runtime that is latched already alone
unfoldable pub latch_ready : {S : Type 0} → World S → World S
latch_ready w = if w.runtime.topology_ready then latch w else w

unfoldable pub resolve_command_vacuum :
    {S : Type 0} → HomeAssistant → World S → World S × Result String
resolve_command_vacuum hass w = elim w.runtime.vacuum_registry_id [
  | none ↦ (w, err (validation_error "Configured vacuum has no stable registry identity"))
  | some id ↦ elim (find_vacuum hass id) [
    | none ↦ (latch_ready w, err (validation_error "Configured vacuum is no longer registered"))
    | some entity_id ↦ (w, ok entity_id)
  ]
]

abbrev pub bound_or_latch :
    {S : Type 0} → World S → Result (Option String) → World S × Result (Option String)
bound_or_latch w (err e) = (w, err e)
bound_or_latch w (ok (some id)) = (w, ok (some id))
bound_or_latch w (ok none) =
    (latch w, err (validation_error "Configured cleaning mode selector is no longer available"))

unfoldable pub resolve_command_cleaning_mode :
    {S : Type 0} → HomeAssistant → World S → World S × Result (Option String)
resolve_command_cleaning_mode hass w =
    if w.runtime.requires_vacuum_and_mop
    then bound_or_latch w
        (resolve_bound_cleaning_mode_entity hass w.runtime.cleaning_mode_registry_id)
    else (w, ok none)
