-- ===== src/Guards/Starts.antt =====
-- `start_next`: a dry run, a paused planner and a detached runtime call no service.
use ha_vacuum_planner.Base.{
  Bool, Bool-cases, Option, Result, arith, err, false, inl, inr, is_empty, none, ok, refl, some,
  true, ℕ, ◌≡◌,
}
use ha_vacuum_planner.Models.{PlannerState, QueueBlock}
use ha_vacuum_planner.Runtime.{capture_command_generation, require_command_generation}
use ha_vacuum_planner.Home.{HomeAssistant}
use ha_vacuum_planner.Dispatch.{Schedule, World, locked_command}
use ha_vacuum_planner.Services.{
  StartCall, StartDecision, after_decision, after_start, async_start_next, capture_runtime_command,
  dry_run_cancelled, runtime_for_action, start_command, start_made, start_next_captured,
}

module _ {S : Type 0} (save : PlannerState → S → Result S) (schedule : Schedule S)
    (homes : ℕ → HomeAssistant) (generation : ℕ) where
  -- A start that calls a service is none of a dry run.
  after_start-live :
      (decision : StartDecision) (p : World S × Result PlannerState)
      → is_empty (after_start save schedule homes generation decision p).calls ≡ false
      → p.0.runtime.dry_run ≡ false
  after_start-live decision (w, err e) h = absurd (cc)
  after_start-live (dry_run_cancelled state) (w, ok updated) h = absurd (cc)
  after_start-live (start_made result state) (w, ok updated) h = by_block result.block refl
    where
      by_block : (o : Option QueueBlock) → result.block ≡ o → w.runtime.dry_run ≡ false
      by_block none e = absurd (ground (arith, h, e))
      by_block (some b) e = elim (Bool-cases w.runtime.dry_run) [
        | inr f ↦ f
        | inl f ↦ absurd (ground (arith, h, e, f))
      ]

  after_decision-live :
      (call : StartCall) (locked : World S) (p : World S × Result StartDecision)
      → is_empty (after_decision save schedule homes generation call locked p).calls ≡ false
      → ((schedule.saving 4 locked.runtime).dry_run ≡ false)
        × (decision : StartDecision) × (p.1 ≡ ok decision)
  unfolding locked_command
  after_decision-live call locked (w, err e) h = absurd (cc)
  after_decision-live call locked (w, ok decision) h =
      (after_start-live decision _ h, decision, refl)

  start_command-planning :
      (hass : HomeAssistant) (call : StartCall) (w : World S) (decision : StartDecision)
      → (start_command hass call w).1 ≡ ok decision
      → w.runtime.planning_enabled ≡ true
  unfolding start_command
  start_command-planning hass call w decision h = by_planning w.runtime.planning_enabled refl
    where
      by_planning : (b : Bool) → w.runtime.planning_enabled ≡ b → w.runtime.planning_enabled ≡ true
      by_planning true e = e
      by_planning false e = absurd (ground (arith, h, e))

  start_next_captured-live :
      (call : StartCall) (w : World S)
      → is_empty (start_next_captured save schedule homes generation call w).calls ≡ false
      → (require_command_generation (schedule.wait 4 w).runtime generation ≡ ok tt)
        × ((schedule.wait 4 w).runtime.planning_enabled ≡ true)
        × ((schedule.saving 4 (schedule.wait 4 w).runtime).dry_run ≡ false)
  unfolding start_next_captured
  start_next_captured-live call w h =
      by_guard (require_command_generation (schedule.wait 4 w).runtime generation) refl
    where
      locked : World S
      locked = schedule.wait 4 w

      by_guard :
          (g : Result (Unit {0}))
          → require_command_generation (schedule.wait 4 w).runtime generation ≡ g
          → (require_command_generation (schedule.wait 4 w).runtime generation ≡ ok tt)
            × ((schedule.wait 4 w).runtime.planning_enabled ≡ true)
            × ((schedule.saving 4 (schedule.wait 4 w).runtime).dry_run ≡ false)
      by_guard (err e) g = absurd (ground (arith, h, g))
      by_guard (ok tt) g =
          let decided : is_empty
                (after_decision save schedule homes generation call locked
                  (start_command (homes 0) call locked)).calls
              ≡ false =
            ground (arith, h, g) in
          let (live, decision, chosen) =
            after_decision-live call locked (start_command (homes 0) call locked) decided in
          (g, start_command-planning (homes 0) call locked decision chosen, live)

-- A call of `start_next` calls a service of Home Assistant only if its runtime was active and ready when
-- it came, still the same generation and not paused behind the lock, and no dry run when the command was
-- stored, whatever other tasks do while it waits.
pub async_start_next-live :
    {S : Type 0} (save : PlannerState → S → Result S) (schedule : Schedule S)
    (homes : ℕ → HomeAssistant) (call : StartCall) (w : World S)
    → is_empty (async_start_next save schedule homes call w).calls ≡ false
    → (generation : ℕ) × (capture_command_generation w.runtime ≡ ok generation)
      × (require_command_generation (schedule.wait 4 w).runtime generation ≡ ok tt)
      × ((schedule.wait 4 w).runtime.planning_enabled ≡ true)
      × ((schedule.saving 4 (schedule.wait 4 w).runtime).dry_run ≡ false)
unfolding async_start_next runtime_for_action capture_runtime_command
async_start_next-live save schedule homes call w h =
    by_capture w.runtime.has_coordinator (capture_command_generation w.runtime) refl refl
  where
    by_capture :
        (b : Bool) (r : Result ℕ)
        → w.runtime.has_coordinator ≡ b
        → capture_command_generation w.runtime ≡ r
        → (generation : ℕ) × (capture_command_generation w.runtime ≡ ok generation)
          × (require_command_generation (schedule.wait 4 w).runtime generation ≡ ok tt)
          × ((schedule.wait 4 w).runtime.planning_enabled ≡ true)
          × ((schedule.saving 4 (schedule.wait 4 w).runtime).dry_run ≡ false)
    by_capture false r e k = absurd (ground (arith, h, e))
    by_capture true (err x) e k = absurd (ground (arith, h, e, k))
    by_capture true (ok generation) e k =
        let captured : is_empty (start_next_captured save schedule homes generation call w).calls
            ≡ false =
          ground (arith, h, e, k) in
        let (same, planning, live) =
          start_next_captured-live save schedule homes generation call w captured in
        (generation, k, same, planning, live)
