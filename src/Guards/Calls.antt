-- ===== src/Guards/Calls.antt =====
-- adapters/native_area.py: the service calls of a dispatch.

use mathlib.Core.Option
use ha_vacuum_planner.Base.{
  Error, List, Option, Result, String, [], contains, err, if◌then◌else◌, int_eq, nat_eq, none, ok,
  some, string_eq, suc, ℕ, ◌∷◌, ◌≡◌,
}
use ha_vacuum_planner.Models.{
  Mode, block_guarantee_eq, block_kind_eq, block_state_eq, dispatch_strategy_eq, job_state_eq,
  mode_eq, preferred_mode_eq,
}
use ha_vacuum_planner.Adapter.{
  Awaited, Called, NativeAreaAdapter, ServiceCall, cancelled_error, clean_area, raised, returned,
  select_option,
}

-- the option of the batch's mode
abbrev pub option_for : List Mode → String
option_for modes = if contains Mode.vacuum_and_mop modes then "Vacuum and Mop" else "Vacuum"

-- the calls of a dispatch that nothing stops: the selector is set where there is one
abbrev pub wanted : NativeAreaAdapter → List String → List Mode → List ServiceCall
wanted adapter area_ids modes = elim adapter.cleaning_mode_entity_id [
  | none ↦ clean_area adapter.vacuum_entity_id area_ids ∷ []
  | some selector ↦
      select_option selector (option_for modes) ∷ clean_area adapter.vacuum_entity_id area_ids ∷ []
]

-- How a list of calls is made from the n-th place on: each call behind the guard, and the next one only
-- behind a call that has returned. What stops the calls is the outcome.
pub data Makes (guard : ℕ → Result (Unit {0})) (service : ServiceCall → Awaited (Unit {0}))
    : ℕ → List ServiceCall → Called → Type 0 where
  finished : {n : ℕ} → Makes guard service n [] ([], returned tt)
  forbidden :
      {n : ℕ} {e : Error} (call : ServiceCall) (calls : List ServiceCall)
      → guard n ≡ err e
      → Makes guard service n (call ∷ calls) ([], raised e)
  failed :
      {n : ℕ} {e : Error} (call : ServiceCall) (calls : List ServiceCall)
      → guard n ≡ ok tt
      → service call ≡ raised e
      → Makes guard service n (call ∷ calls) (call ∷ [], raised e)
  stopped_by :
      {n : ℕ} (call : ServiceCall) (calls : List ServiceCall)
      → guard n ≡ ok tt
      → service call ≡ cancelled_error
      → Makes guard service n (call ∷ calls) (call ∷ [], cancelled_error)
  answered :
      {n : ℕ} {made : Called} (call : ServiceCall) (calls : List ServiceCall)
      → guard n ≡ ok tt
      → service call ≡ returned tt
      → Makes guard service (suc n) calls made
      → Makes guard service n (call ∷ calls) (call ∷ made.0, made.1)
