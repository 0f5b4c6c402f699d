-- ===== src/Adapter.antt =====
-- adapters/native_area.py: the selector of the cleaning mode, the checks before a dispatch, and the
-- service calls of a dispatch.
use ha_vacuum_planner.Base.{
  Bool, Error, List, Option, Result, String, [], code_points, contains, err, false, if◌then◌else◌,
  int_eq, is_empty, lower, map, nat_beq, nat_eq, none, not, ok, raise_if, some, str_append,
  string_eq, to_set, true, value_error, ℕ, ◌&&◌, ◌==◌, ◌>>=◌, ◌>>◌, ◌||◌, ◌∷◌,
}
use ha_vacuum_planner.Models.{
  Mode, Value, block_guarantee_eq, block_kind_eq, block_state_eq, dispatch_strategy_eq, entry,
  job_state_eq, list, mode_eq, named, option_beq, preferred_mode_eq,
}
use ha_vacuum_planner.Home.{
  EntityState, HomeAssistant, RegistryEntry, has_feature, has_item, has_mode_options,
  is_unavailable,
}

abbrev pub vendor_platforms : List String
vendor_platforms = "dreame_vacuum" ∷ "mova" ∷ []

abbrev pub is_prefix : List ℕ → List ℕ → Bool
is_prefix [] cs = true
is_prefix (p ∷ ps) [] = false
is_prefix (p ∷ ps) (c ∷ cs) = nat_beq p c && is_prefix ps cs

-- whether the second list stands in the first one
unfoldable pub has_infix : List ℕ → List ℕ → Bool
has_infix [] part = is_prefix part []
has_infix (c ∷ cs) part = is_prefix part (c ∷ cs) || has_infix cs part

-- `"cleaning_mode" in unique_id.lower()`; an identity that is no string has none
abbrev pub names_cleaning_mode : Option String → Bool
names_cleaning_mode none = false
names_cleaning_mode (some s) = has_infix (map lower (code_points s)) (code_points "cleaning_mode")

-- a selector that is not disabled
unfoldable pub is_mode_selector : RegistryEntry → Bool
is_mode_selector e =
    option_beq string_eq.beq e.domain (some "select")
    && names_cleaning_mode e.unique_id
    && not e.is_disabled

-- `isinstance(options, list) and _MODE_OPTIONS.issubset(options)`
unfoldable pub offers_modes : Option Value → Result Bool
offers_modes (some (list items)) = has_mode_options items
offers_modes _ = ok false

-- the state of a selector is known and offers both modes
unfoldable pub is_selector_ready : HomeAssistant → String → Result Bool
is_selector_ready hass entity_id = elim (hass.states entity_id) [
  | none ↦ ok false
  | some s ↦
      if is_unavailable s.state
      then ok false
      else offers_modes (entry (named "options") s.attributes)
]

-- the entity if it is ready, else what the loop goes on with
abbrev pub ready_or :
    Option String → HomeAssistant → Result (Option String) → Result (Option String)
ready_or none hass rest = rest
ready_or (some id) hass rest = do
  ready ← is_selector_ready hass id
  if ready then ok (some id) else rest

unfoldable pub first_selector : HomeAssistant → List RegistryEntry → Result (Option String)
first_selector hass [] = ok none
first_selector hass (e ∷ es) =
    let rest = first_selector hass es in
    if is_mode_selector e then ready_or e.entity_id hass rest else rest

-- the selectors of a device
abbrev pub device_selector :
    HomeAssistant → Option String → Option (String → List RegistryEntry) → Result (Option String)
device_selector hass (some device) (some entries) = first_selector hass (entries device)
device_selector hass _ _ = ok none

abbrev pub is_vendor : Option String → Bool
is_vendor none = false
is_vendor (some platform) = contains platform vendor_platforms

abbrev pub vendor_selector : HomeAssistant → Option RegistryEntry → Result (Option String)
vendor_selector hass none = ok none
vendor_selector hass (some e) =
    if is_vendor e.platform
    then device_selector hass e.device_id hass.entries_for_device
    else ok none

unfoldable pub find_dreame_mova_cleaning_mode_entity :
    HomeAssistant → Option String → Result (Option String)
find_dreame_mova_cleaning_mode_entity hass none = ok none
find_dreame_mova_cleaning_mode_entity hass (some id) = vendor_selector hass (hass.entities id)

abbrev pub bound_selector : HomeAssistant → String → Option RegistryEntry → Result (Option String)
bound_selector hass id none = ok none
bound_selector hass id (some e) =
    if option_beq string_eq.beq e.id (some id) && is_mode_selector e
    then ready_or e.entity_id hass (ok none)
    else ok none

unfoldable pub resolve_bound_cleaning_mode_entity :
    HomeAssistant → Option String → Result (Option String)
resolve_bound_cleaning_mode_entity hass none = ok none
resolve_bound_cleaning_mode_entity hass (some id) = bound_selector hass id (hass.entities id)

pub record NativeAreaAdapter : Type 0 where
  pub vacuum_entity_id : String
  pub cleaning_mode_entity_id : Option String

-- the check of the vacuum
unfoldable pub check_vacuum : HomeAssistant → Option EntityState → Result (Unit {0})
check_vacuum hass none = err (value_error "configured vacuum is unavailable")
check_vacuum hass (some s) = do
  raise_if (is_unavailable s.state) (value_error "configured vacuum is unavailable")
  raise_if (not (has_feature hass.clean_area_bit (entry (named "supported_features") s.attributes)))
      (value_error "configured vacuum no longer supports CLEAN_AREA")

-- `modes or (Mode.VACUUM,)`
abbrev pub or_vacuum : List Mode → List Mode
or_vacuum [] = Mode.vacuum ∷ []
or_vacuum (m ∷ ms) = m ∷ ms

-- the one mode of the batch
unfoldable pub requested_mode : List Mode → Result Mode
requested_mode modes = elim (to_set (or_vacuum modes)) [
  | [] ↦ err (value_error "native area batch requires one homogeneous cleaning mode")
  | m ∷ ms ↦
      if is_empty ms
      then ok m
      else err (value_error "native area batch requires one homogeneous cleaning mode")
]

abbrev pub expected_option : Mode → String
expected_option mode = if mode == Mode.vacuum_and_mop then "Vacuum and Mop" else "Vacuum"

-- `isinstance(options, list) and expected in options`
abbrev pub lists_option : String → Value → Bool
lists_option expected (list items) = has_item expected items
lists_option expected _ = false

-- the selector is known and offers the option
unfoldable pub confirms : String → Option EntityState → Bool
confirms expected none = false
confirms expected (some s) = elim (entry (named "options") s.attributes) [
  | none ↦ false
  | some options ↦ lists_option expected options && not (is_unavailable s.state)
]

unfoldable pub check_mode : HomeAssistant → Option String → Mode → Result (Option String)
check_mode hass none mode =
    if mode == Mode.vacuum_and_mop
    then err (value_error "vacuum_and_mop requires a confirmed Dreame/Mova mode selector")
    else ok none
check_mode hass (some id) mode =
    if confirms (expected_option mode) (hass.states id)
    then ok (some (expected_option mode))
    else err
        (value_error (str_append "cleaning mode selector does not confirm " (expected_option mode)))

unfoldable pub preflight : HomeAssistant → NativeAreaAdapter → List Mode → Result (Option String)
preflight hass adapter modes = do
  check_vacuum hass (hass.states adapter.vacuum_entity_id)
  mode ← requested_mode modes
  check_mode hass adapter.cleaning_mode_entity_id mode

-- what an awaited operation comes to
pub data Awaited (A : Type 0) : Type 0 where
  returned : A → Awaited A
  raised : Error → Awaited A
  cancelled_error : Awaited A

-- a service call of Home Assistant, with its target
pub data ServiceCall : Type 0 where
  select_option : String → String → ServiceCall
  clean_area : String → List String → ServiceCall

-- the calls that were begun, and what the operation came to
abbrev pub Called : Type 0
Called = List ServiceCall × Awaited (Unit {0})

-- one call behind the callback `before_side_effect`; an operation goes on behind a call that returned
unfoldable pub guarded_call :
    (ServiceCall → Awaited (Unit {0})) → Result (Unit {0}) → ServiceCall → Called → Called
guarded_call service (err e) call (calls, outcome) = ([], raised e)
guarded_call service (ok u) call (calls, outcome) = elim (service call) [
  | returned u ↦ (call ∷ calls, outcome)
  | raised e ↦ (call ∷ [], raised e)
  | cancelled_error ↦ (call ∷ [], cancelled_error)
]

-- `guard n` is the outcome of the n-th call of `before_side_effect`, and `service` that of a call.
module _ (guard : ℕ → Result (Unit {0})) (service : ServiceCall → Awaited (Unit {0}))
    (adapter : NativeAreaAdapter) (area_ids : List String) where
  unfoldable pub start_cleaning : ℕ → Called
  start_cleaning n =
      guarded_call service (guard n) (clean_area adapter.vacuum_entity_id area_ids)
        ([], returned tt)

  unfoldable pub dispatch_with : Option String → Option String → Called
  dispatch_with (some option) (some selector) =
      guarded_call service (guard 0) (select_option selector option) (start_cleaning 1)
  dispatch_with _ _ = start_cleaning 0

  unfoldable pub async_dispatch_after_preflight : Option String → Called
  async_dispatch_after_preflight mode_option =
      dispatch_with mode_option adapter.cleaning_mode_entity_id

-- `async_dispatch`
unfoldable pub async_dispatch :
    HomeAssistant
    → (ℕ → Result (Unit {0}))
    → (ServiceCall → Awaited (Unit {0}))
    → NativeAreaAdapter
    → List String
    → List Mode
    → Called
async_dispatch hass guard service adapter area_ids modes = elim (preflight hass adapter modes) [
  | err e ↦ ([], raised e)
  | ok mode_option ↦ async_dispatch_after_preflight guard service adapter area_ids mode_option
]
