-- ===== src/Guards/Preferences.antt =====
-- `async_set_planning_enabled`: the preference follows what became of the entry's options.
use ha_vacuum_planner.Base.{Bool, Result, err, false, ok, refl, runtime_error, ℕ, ◌≡◌}
use ha_vacuum_planner.Coordinator.{
  PlannerCoordinator, ProjectionOutcome, async_update_projection, publish,
}
use ha_vacuum_planner.Runtime.{
  VacuumPlannerRuntimeData, apply_planning_enabled, require_command_generation, roll_back,
  update_planning,
}

-- what the preference is afterwards: `guarded` is the outcome of the guard, and the others are those of
-- the two callbacks
abbrev pub preference_after :
    Bool → Bool → Result (Unit {0}) → Result (Unit {0}) → Result (Unit {0}) → Bool
preference_after enabled old (err e) committed rolled_back = old
preference_after enabled old (ok u) (ok v) rolled_back = enabled
preference_after enabled old (ok u) (err e) (ok v) = old
preference_after enabled old (ok u) (err e) (err f) = false

-- the outcome of the call
abbrev pub outcome_after :
    Result (Unit {0}) → Result (Unit {0}) → Result (Unit {0}) → Result (Unit {0})
outcome_after (err e) committed rolled_back = err e
outcome_after (ok u) (ok v) rolled_back = ok tt
outcome_after (ok u) (err e) (ok v) = err e
outcome_after (ok u) (err e) (err f) =
    err (runtime_error "Planning option update and rollback failed; planner is fail-closed")

module _ {S : Type 0} (commit rollback : S → S × Result (Unit {0})) (enabled : Bool)
    (generation : ℕ) (c : PlannerCoordinator) (r : VacuumPlannerRuntimeData) (options : S) where
  abbrev run : ProjectionOutcome (VacuumPlannerRuntimeData × S)
  run = apply_planning_enabled commit rollback enabled generation c r options

  preference_of :
      (g : Result (Unit {0})) (p q : S × Result (Unit {0}))
      → require_command_generation r generation ≡ g
      → commit options ≡ p
      → rollback (commit options).0 ≡ q
      → (run.preferences.0.planning_enabled ≡ preference_after enabled r.planning_enabled g p.1 q.1)
        × (run.result ≡ outcome_after g p.1 q.1)
        × (run.coordinator.state ≡ c.state)
  unfolding apply_planning_enabled async_update_projection update_planning roll_back publish
  preference_of (err e) p q g h k = rw g (refl, refl, refl)
  preference_of (ok u) (s, ok v) q g h k =
      rw (g, async_update_projection, h, g, update_planning, h) (refl, refl, refl)
  preference_of (ok u) (s, err e) (t, ok v) g h k =
      rw (g, async_update_projection, h, update_planning, k, roll_back, h, k) (refl, refl, refl)
  preference_of (ok u) (s, err e) (t, err f) g h k =
      rw (g, async_update_projection, h, update_planning, k, roll_back, h, k) (refl, refl, refl)

  -- The preference changes exactly when the guard lets the call through and the commit succeeds. Where
  -- the commit fails the old preference stays, and where the rollback fails too the planner is paused.
  -- The call returns or raises accordingly, and the planner's state is untouched.
  pub apply_planning_enabled-preference :
      (run.preferences.0.planning_enabled
        ≡ preference_after enabled r.planning_enabled
            (require_command_generation r generation)
            (commit options).1
            (rollback (commit options).0).1)
      × (run.result
          ≡ outcome_after
              (require_command_generation r generation)
              (commit options).1
              (rollback (commit options).0).1)
      × (run.coordinator.state ≡ c.state)
  apply_planning_enabled-preference = preference_of _ _ _ refl refl refl
