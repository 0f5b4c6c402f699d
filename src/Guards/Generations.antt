-- ===== src/Guards/Generations.antt =====
-- The generations of const.py: what was captured before an invalidation is refused for good.
use ha_vacuum_planner.Base.{arith, err, ok, some, subst, sym, true, ℕ, ◌≡◌, ◌≤◌, ◌⊎◌}
use ha_vacuum_planner.Observer.{is_detached}
use ha_vacuum_planner.Runtime.{
  VacuumPlannerRuntimeData, activate_commands, capture_command_generation, inactive,
  invalidate_commands, invalidate_observations, require_runtime_generation, shutdown_runtime,
}
use ha_vacuum_planner.Setup.{bind_state}

-- what the program does to a runtime: each function of const.py, the binding of the observer, and what
-- touches neither the command generation nor the observation generation
pub data Change (r s : VacuumPlannerRuntimeData) : Type 0 where
  commands_invalidated : s ≡ invalidate_commands r → Change r s
  commands_activated : s ≡ activate_commands r → Change r s
  observations_invalidated : s ≡ invalidate_observations r → Change r s
  state_bound : s ≡ (bind_state r).1 → Change r s
  shut_down : s ≡ (shutdown_runtime r).0 → Change r s
  other_fields :
      s.command_generation ≡ r.command_generation
      → s.command_active ≡ r.command_active
      → s.observation_generation ≡ r.observation_generation
      → s.observation_active ≡ r.observation_active
      → Change r s

pub data Changes (r : VacuumPlannerRuntimeData) : VacuumPlannerRuntimeData → Type 0 where
  unchanged_runtime : Changes r r
  then_change : {s t : VacuumPlannerRuntimeData} → Changes r s → Change s t → Changes r t

-- No change counts a generation down.
pub record Grows (r s : VacuumPlannerRuntimeData) : Type 0 where
  pub commands : r.command_generation ≤ s.command_generation
  pub observations : r.observation_generation ≤ s.observation_generation

Change-Grows : (r s : VacuumPlannerRuntimeData) → Change r s → Grows r s
unfolding invalidate_commands activate_commands invalidate_observations bind_state shutdown_runtime
Change-Grows r s (commands_invalidated e) =
    subst (λ t. Grows r t) (sym e) (record { commands = ground arith; observations = omega arith })
Change-Grows r s (commands_activated e) =
    subst (λ t. Grows r t) (sym e) (record { commands = omega arith; observations = omega arith })
Change-Grows r s (observations_invalidated e) =
    subst (λ t. Grows r t) (sym e) (record { commands = omega arith; observations = ground arith })
Change-Grows r s (state_bound e) =
    subst (λ t. Grows r t) (sym e) (record { commands = omega arith; observations = ground arith })
Change-Grows r s (shut_down e) =
    subst (λ t. Grows r t) (sym e) (record { commands = ground arith; observations = ground arith })
Change-Grows r s (other_fields a b c d) = record {
  commands = omega arith;
  observations = omega arith;
}

pub Changes-Grows : {r s : VacuumPlannerRuntimeData} → Changes r s → Grows r s
Changes-Grows unchanged_runtime = record { commands = omega arith; observations = omega arith }
Changes-Grows (then_change {s} {t} changes change) =
    let before = Changes-Grows changes in
    let last = Change-Grows s t change in
    record {
      commands = omega (arith, before.commands, last.commands);
      observations = omega (arith, before.observations, last.observations);
    }

-- A command generation that was captured is refused for good once active commands were invalidated,
-- whatever happens to the runtime before and after: also when commands are activated again.
pub captured_then_invalidated :
    {q r s : VacuumPlannerRuntimeData} (generation : ℕ)
    → capture_command_generation q ≡ ok generation
    → Changes q r
    → r.command_active ≡ true
    → Changes (invalidate_commands r) s
    → require_runtime_generation s generation ≡ err inactive
unfolding capture_command_generation require_runtime_generation invalidate_commands
captured_then_invalidated {q} {r} {s} generation captured before active after =
    ground (arith, (Changes-Grows before).commands, (Changes-Grows after).commands)

-- An observation of a listener that was bound is ignored for good once active observations
-- were invalidated or another listener was bound, whatever happens to the runtime afterwards.
pub bound_then_invalidated :
    (q : VacuumPlannerRuntimeData) {r s t : VacuumPlannerRuntimeData}
    → Changes (bind_state q).1 r
    → r.observation_active ≡ true
    → (s ≡ invalidate_observations r) ⊎ (s ≡ (bind_state r).1)
    → Changes s t
    → is_detached t (some (bind_state q).0) ≡ true
unfolding bind_state invalidate_observations
bound_then_invalidated q {r} {s} {t} before active step after =
    ground (arith, (Changes-Grows before).observations, (Changes-Grows after).observations)
