-- ===== src/Guards/Dispatches.antt =====
-- A dispatch: what must have happened before a service of Home Assistant is called.
use ha_vacuum_planner.Base.{
  Bool, List, Option, Result, String, arith, err, false, if◌then◌else◌, incℤ, int_beq, is_empty,
  map, negsuc, none, ok, pos, refl, some, subst, suc, true, zero, ℕ, ℤ, ◌≡◌,
}
use ha_vacuum_planner.Models.{DateTime, PlannerState, QueueJob, ledger_beq, state_beq}
use ha_vacuum_planner.Coordinator.{Guard, Outcome, PlannerCoordinator, apply_command, async_command}
use ha_vacuum_planner.Runtime.{require_command_generation}
use ha_vacuum_planner.Home.{HomeAssistant}
use ha_vacuum_planner.Adapter.{NativeAreaAdapter, preflight, resolve_bound_cleaning_mode_entity}
use ha_vacuum_planner.Dispatch.{
  Schedule, World, after_claim, after_mode, after_vacuum, async_dispatch_created_block,
  bound_or_latch, claim, claim_block, claims, find_vacuum, locked_command, meanwhile,
  resolve_command_cleaning_mode, resolve_command_vacuum, run_command,
}
use ha_vacuum_planner.Laws.History.{IsValid}
use ha_vacuum_planner.Persistence.Commands.{
  CommandOutcome, async_command-outcome, published, refused, unchanged,
}
use ha_vacuum_planner.Guards.Claims.{Claimed, claim-Claimed}

module _ {S : Type 0} (hass : HomeAssistant) (w : World S) where
  vacuum_same :
      (o : Option String)
      → w.runtime.vacuum_registry_id ≡ o
      → {vacuum : String} → (resolve_command_vacuum hass w).1 ≡ ok vacuum
      → (resolve_command_vacuum hass w).0 ≡ w
  unfolding resolve_command_vacuum
  vacuum_same none r h = simp (r, resolve_command_vacuum) refl
  vacuum_same (some id) r h = by_vacuum (find_vacuum hass id) refl
    where
      by_vacuum :
          (q : Option String) → find_vacuum hass id ≡ q → (resolve_command_vacuum hass w).0 ≡ w
      by_vacuum none k = absurd (ground (arith, r, k))
      by_vacuum (some vacuum) k = simp (r, resolve_command_vacuum, k) refl

  -- A vacuum that is resolved leaves the world as it was.
  resolve_command_vacuum-same :
      {vacuum : String}
      → (resolve_command_vacuum hass w).1 ≡ ok vacuum
      → (resolve_command_vacuum hass w).0 ≡ w
  resolve_command_vacuum-same h = vacuum_same _ refl h

  bound_same :
      (r : Result (Option String)) {mode : Option String}
      → (bound_or_latch w r).1 ≡ ok mode
      → (bound_or_latch w r).0 ≡ w
  bound_same (err e) h = refl
  bound_same (ok none) h = absurd (cc)
  bound_same (ok (some id)) h = refl

  -- So does a selector of the cleaning mode.
  resolve_command_cleaning_mode-same :
      {mode : Option String}
      → (resolve_command_cleaning_mode hass w).1 ≡ ok mode
      → (resolve_command_cleaning_mode hass w).0 ≡ w
  unfolding resolve_command_cleaning_mode
  resolve_command_cleaning_mode-same {mode} h = by_need (w.runtime.requires_vacuum_and_mop) h
    where
      by_need :
          (b : Bool)
          → (if b
              then bound_or_latch w
                  (resolve_bound_cleaning_mode_entity hass w.runtime.cleaning_mode_registry_id)
              else (w, ok none)).1
            ≡ ok mode
          → (if b
              then bound_or_latch w
                  (resolve_bound_cleaning_mode_entity hass w.runtime.cleaning_mode_registry_id)
              else (w, ok none)).0
            ≡ w
      by_need true h = bound_same _ h
      by_need false h = refl

-- A command of a dispatch that makes the claim has stored the claimed state.
pub record Dispatched {S : Type 0} (save : PlannerState → S → Result S) (schedule : Schedule S)
    (id : String) (generation : ℕ) (w : World S) : Type 0 where
  pub updated : PlannerState
  pub guarded : require_command_generation w.runtime generation ≡ ok tt
  pub claimed : Claimed id (schedule.clock 0) w.coordinator.state updated
  pub stored : (t : S) × (save updated w.store ≡ ok t)

incℤ-not-same : (a : ℤ) → int_beq (incℤ a) a ≡ false
incℤ-not-same (pos a) = ground arith
incℤ-not-same (negsuc zero) = refl
incℤ-not-same (negsuc (suc a)) = ground arith

-- A claimed state is not equal to the one before.
Claimed-differs :
    (id : String) (at : DateTime) (s t : PlannerState) → Claimed id at s t → state_beq t s ≡ false
unfolding state_beq ledger_beq
Claimed-differs id at s t c = ground (arith, c.sends.revision, incℤ-not-same s.ledger.revision)

-- A command that returns was let through by the first call of its guard.
async_command-guarded :
    {S : Type 0} (save : PlannerState → S → Result S) (guard : Guard)
    (f : PlannerState → Result PlannerState) (c : PlannerCoordinator) (s : S) {state : PlannerState}
    → (async_command save guard f c s).result ≡ ok state
    → guard 0 ≡ ok tt
unfolding async_command apply_command
async_command-guarded save guard f c s h = by_guard (guard 0) refl
  where
    by_guard : (g : Result (Unit {0})) → guard 0 ≡ g → guard 0 ≡ ok tt
    by_guard (err e) k = absurd (ground (arith, k, h))
    by_guard (ok tt) k = k

module _ {S : Type 0} (save : PlannerState → S → Result S) (guard : Guard) (id : String)
    (at : DateTime) (c : PlannerCoordinator) (s : S) (v : IsValid c.state.ledger)
    (claiming : claims id c.state ≡ true) where
  -- A command that makes a claim and returns has stored the claimed state.
  claim_stored :
      (o : Outcome S) {state : PlannerState}
      → CommandOutcome save guard (claim id at) c s o
      → o.result ≡ ok state
      → (updated : PlannerState) × Claimed id at c.state updated × (t : S) × (save updated s ≡ ok t)
  claim_stored o (CommandOutcome.raised e same) h = absurd (ground (arith, same))
  claim_stored o (unchanged updated made equal same) h = absurd (
      ground (
        arith,
        Claimed-differs id at c.state updated (claim-Claimed id at c.state v made claiming),
      ))
  claim_stored o (refused updated t e made stored denied same) h = absurd (ground (arith, same))
  claim_stored o (published updated t made stored same) h =
      (updated, claim-Claimed id at c.state v made claiming, t, stored)

module _ {S : Type 0} (save : PlannerState → S → Result S) (schedule : Schedule S) (id : String)
    (jobs : List QueueJob) (generation : ℕ) where
  after_claim-calls :
      (c : Bool) (adapter : NativeAreaAdapter) (option : Option String)
      (p : World S × Result PlannerState)
      → is_empty (after_claim save schedule id jobs generation c adapter option p).calls ≡ false
      → (c ≡ true) × (state : PlannerState) × (p.1 ≡ ok state)
  after_claim-calls c adapter option (w, err e) h = absurd (cc)
  after_claim-calls true adapter option (w, ok state) h = (refl, state, refl)
  after_claim-calls false adapter option (w, ok state) h = absurd (cc)

  -- The service calls of a claim stand behind its stored command.
  claim_block-calls :
      (adapter : NativeAreaAdapter) (option : Option String) (w : World S)
      → IsValid (schedule.wait 0 w).coordinator.state.ledger
      → is_empty (claim_block save schedule id jobs generation adapter option w).calls ≡ false
      → Dispatched save schedule id generation (schedule.wait 0 w)
  unfolding claim_block run_command locked_command
  claim_block-calls adapter option w v h =
      let (claimed, state, done) = after_claim-calls _ adapter option _ h in
      let locked = schedule.wait 0 w in
      let waited = meanwhile save schedule 0 locked.coordinator in
      let (updated, sent, t, stored) =
        claim_stored save _ id (schedule.clock 0) waited locked.store v claimed _
          (async_command-outcome save _ (claim id (schedule.clock 0)) waited locked.store) done in
      record {
        updated = updated;
        guarded =
            async_command-guarded save _ (claim id (schedule.clock 0)) waited locked.store done;
        claimed = sent;
        stored = (t, stored);
      }

  after_mode-calls :
      (hass : HomeAssistant) (vacuum : String) (p : World S × Result (Option String))
      → is_empty (after_mode save schedule id jobs generation hass vacuum p).calls ≡ false
      → (mode : Option String) × (p.1 ≡ ok mode)
        × (adapter : NativeAreaAdapter) × (option : Option String) × (is_empty
              (claim_block save schedule id jobs generation adapter option p.0).calls
            ≡ false)
  after_mode-calls hass vacuum (w, err e) h = absurd (cc)
  after_mode-calls hass vacuum (w, ok selector) h = by_preflight _ refl
    where
      adapter : NativeAreaAdapter
      adapter = record { vacuum_entity_id = vacuum; cleaning_mode_entity_id = selector }

      by_preflight :
          (r : Result (Option String))
          → preflight hass adapter (map (λ j. j.mode) jobs) ≡ r
          → (mode : Option String) × (ok selector ≡ ok mode)
            × (adapter : NativeAreaAdapter) × (option : Option String) × (is_empty
                  (claim_block save schedule id jobs generation adapter option w).calls
                ≡ false)
      by_preflight (err e) k = absurd (ground (arith, h, k))
      by_preflight (ok option) k = (selector, refl, adapter, option, ground (arith, h, k))

  after_vacuum-calls :
      (hass : HomeAssistant) (p : World S × Result String)
      → is_empty (after_vacuum save schedule id jobs generation hass p).calls ≡ false
      → (vacuum : String) × (p.1 ≡ ok vacuum)
        × (is_empty
              (after_mode save schedule id jobs generation hass vacuum
                (resolve_command_cleaning_mode hass p.0)).calls
            ≡ false)
  after_vacuum-calls hass (w, err e) h = absurd (cc)
  after_vacuum-calls hass (w, ok vacuum) h = (vacuum, refl, h)

  -- A dispatch calls a service of Home Assistant only behind a claim that its generation let through,
  -- that has sent the whole batch of the block, and whose state is stored.
  pub async_dispatch_created_block-Dispatched :
      (hass : HomeAssistant) (w : World S)
      → IsValid (schedule.wait 0 w).coordinator.state.ledger
      → is_empty (async_dispatch_created_block save schedule id jobs generation hass w).calls
        ≡ false
      → Dispatched save schedule id generation (schedule.wait 0 w)
  unfolding async_dispatch_created_block
  async_dispatch_created_block-Dispatched hass w v h =
      let resolved_calls : is_empty
            (after_vacuum save schedule id jobs generation hass
              (resolve_command_vacuum hass w)).calls
          ≡ false =
        ground arith in
      let (vacuum, found, onward) = after_vacuum-calls hass _ resolved_calls in
      let same = resolve_command_vacuum-same hass w found in
      let behind =
        subst
          (λ x.
            is_empty
              (after_mode save schedule id jobs generation hass vacuum
                (resolve_command_cleaning_mode hass x)).calls
            ≡ false)
          same onward in
      let (mode, bound, adapter, option, last) = after_mode-calls hass vacuum _ behind in
      claim_block-calls adapter option w v (
        subst
          (λ x.
            is_empty (claim_block save schedule id jobs generation adapter option x).calls ≡ false)
          (resolve_command_cleaning_mode-same hass w bound) last)
