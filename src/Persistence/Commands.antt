-- ===== src/Persistence/Commands.antt =====
-- The commands of coordinator.py: what listeners see was stored before.
use ha_vacuum_planner.Base.{
  All, Bool-cases, Error, List, Result, [], arith, err, false, inl, inr, ok, refl, true, ℕ, ◌>>◌,
  ◌∷◌, ◌≡◌,
}
use ha_vacuum_planner.Models.{PlannerState, state_beq}
use ha_vacuum_planner.Coordinator.{
  Guard, Outcome, PlannerCoordinator, apply_command, async_add_listener, async_command,
  async_update_projection, finish_command, new_coordinator, notify, publish, remove_listener,
  save_command, store_command,
}

-- one thing that happens to the coordinator and its store
pub data Event {S : Type 0} (Q : Type 0) (save : PlannerState → S → Result S)
    : PlannerCoordinator → S → PlannerCoordinator → S → Type 0 where
  command :
      {c : PlannerCoordinator} {s : S} (guard : Guard) (f : PlannerState → Result PlannerState)
      → Event Q save c s
          (async_command save guard f c s).coordinator
          (async_command save guard f c s).store
  projection :
      {c : PlannerCoordinator} {s : S} (guard : Guard) (update : Q → Q × Result (Unit {0})) (q : Q)
      → Event Q save c s (async_update_projection guard update c q).coordinator s
  runtime_projection : {c : PlannerCoordinator} {s : S} → Event Q save c s (publish c) s
  listen : {c : PlannerCoordinator} {s : S} (l : ℕ) → Event Q save c s (async_add_listener l c) s
  leave : {c : PlannerCoordinator} {s : S} (l : ℕ) → Event Q save c s (remove_listener l c) s

-- what happens one after the other, the last event first
pub data Run {S : Type 0} (Q : Type 0) (save : PlannerState → S → Result S) (c : PlannerCoordinator)
    (s : S) : PlannerCoordinator → S → Type 0 where
  begun : Run Q save c s c s
  next :
      {d e : PlannerCoordinator} {t u : S}
      → Run Q save c s d t
      → Event Q save d t e u
      → Run Q save c s e u

-- the state and all states that were shown to a listener have the property
pub record Shows (P : PlannerState → Type 0) (c : PlannerCoordinator) : Type 0 where
  pub state : P c.state
  pub notices : All (λ n. P n.1) c.notices

notify-All :
    (P : PlannerState → Type 0) (state : PlannerState) (ls : List ℕ)
    (notices : List (ℕ × PlannerState))
    → P state
    → All (λ n. P n.1) notices
    → All (λ n. P n.1) (notify state ls notices)
unfolding notify
notify-All P state [] notices h k = k
notify-All P state (l ∷ ls) notices h k = notify-All P state ls ((l, state) ∷ notices) h (h, k)

publish-Shows :
    (P : PlannerState → Type 0) (c : PlannerCoordinator) → Shows P c → Shows P (publish c)
unfolding publish
publish-Shows P c h = record {
  state = h.state;
  notices = notify-All P c.state c.listeners c.notices h.state h.notices;
}

-- how a command ends
pub data CommandOutcome {S : Type 0} (save : PlannerState → S → Result S) (guard : Guard)
    (f : PlannerState → Result PlannerState) (c : PlannerCoordinator) (s : S) (o : Outcome S)
    : Type 0 where
  raised :
      (e : Error)
      → o ≡ record { result = err e; coordinator = c; store = s }
      → CommandOutcome save guard f c s o
  unchanged :
      (updated : PlannerState)
      → f c.state ≡ ok updated
      → state_beq updated c.state ≡ true
      → o ≡ record { result = ok c.state; coordinator = c; store = s }
      → CommandOutcome save guard f c s o
  refused :
      (updated : PlannerState) (t : S) (e : Error)
      → f c.state ≡ ok updated
      → save updated s ≡ ok t
      → guard 2 ≡ err e
      → o ≡ record { result = err e; coordinator = c; store = t }
      → CommandOutcome save guard f c s o
  published :
      (updated : PlannerState) (t : S)
      → f c.state ≡ ok updated
      → save updated s ≡ ok t
      → o ≡ record {
        result = ok updated;
        coordinator = record {
          state = updated;
          listeners = c.listeners;
          notices = notify updated c.listeners c.notices;
        };
        store = t;
      }
      → CommandOutcome save guard f c s o

-- A command that raises leaves the coordinator as it was; it leaves the store as it was too, unless
-- the last call of the guard refused a state that is stored already. A command that returns has
-- returned the state that the coordinator then has: the one it had, with nothing stored and nothing
-- shown, or the one the command made, which is stored and shown to every listener.
pub async_command-outcome :
    {S : Type 0} (save : PlannerState → S → Result S) (guard : Guard)
    (f : PlannerState → Result PlannerState) (c : PlannerCoordinator) (s : S)
    → CommandOutcome save guard f c s (async_command save guard f c s)
unfolding async_command store_command save_command finish_command apply_command publish
async_command-outcome {S = S} save guard f c s =
    by_command (apply_command save guard f c.state) refl
  where
    by_save :
        (updated : PlannerState)
        → apply_command save guard f c.state ≡ ok updated
        → state_beq updated c.state ≡ false
        → guard 1 ≡ ok tt
        → (r : Result S) → save updated s ≡ r
        → (g : Result (Unit {0})) → guard 2 ≡ g
        → CommandOutcome save guard f c s (async_command save guard f c s)
    by_save updated a e g1 (err x) h g k = raised x (ground arith)
    by_save updated a e g1 (ok t) h (err x) k =
        refused updated t x (ground arith) h k (ground arith)
    by_save updated a e g1 (ok t) h (ok u) k = published updated t (ground arith) h (ground arith)

    by_guard :
        (updated : PlannerState)
        → apply_command save guard f c.state ≡ ok updated
        → state_beq updated c.state ≡ false
        → (g : Result (Unit {0})) → guard 1 ≡ g
        → CommandOutcome save guard f c s (async_command save guard f c s)
    by_guard updated a e (err x) h = raised x (ground arith)
    by_guard updated a e (ok u) h = by_save updated a e h (save updated s) refl (guard 2) refl

    by_command :
        (r : Result PlannerState)
        → apply_command save guard f c.state ≡ r
        → CommandOutcome save guard f c s (async_command save guard f c s)
    by_command (err x) h = raised x (ground arith)
    by_command (ok updated) h = elim (Bool-cases (state_beq updated c.state)) [
      | inl e ↦ unchanged updated (ground arith) e (ground arith)
      | inr e ↦ by_guard updated h e (guard 1) refl
    ]

module _ {S : Type 0} (save : PlannerState → S → Result S) (P : PlannerState → Type 0) where
  async_command-Shows :
      (guard : Guard) (f : PlannerState → Result PlannerState) (c : PlannerCoordinator) (s : S)
      → ((state : PlannerState) (s t : S) → save state s ≡ ok t → P state)
      → Shows P c
      → Shows P (async_command save guard f c s).coordinator
  async_command-Shows guard f c s h k = elim (async_command-outcome save guard f c s) [
    | raised e o ↦ rw o k
    | unchanged updated m b o ↦ rw o k
    | refused updated t e m w g o ↦ rw o k
    | published updated t m w o ↦ rw o (record {
      state = h updated s t w;
      notices = notify-All P updated c.listeners c.notices (h updated s t w) k.notices;
    })
  ]

  async_update_projection-Shows :
      {Q : Type 0} (guard : Guard) (update : Q → Q × Result (Unit {0})) (c : PlannerCoordinator)
      (q : Q)
      → Shows P c
      → Shows P (async_update_projection guard update c q).coordinator
  unfolding async_update_projection
  async_update_projection-Shows guard update c q k =
      by_guard (guard 0) refl ((update q).1 >> guard 1) refl
    where
      by_guard :
          (g : Result (Unit {0}))
          → guard 0 ≡ g
          → (r : Result (Unit {0})) → (update q).1 >> guard 1 ≡ r
          → Shows P (async_update_projection guard update c q).coordinator
      by_guard (err e) h r w = rw (h, async_update_projection) k
      by_guard (ok u) h (err e) w = rw (h, w, async_update_projection) k
      by_guard (ok u) h (ok v) w = rw (h, w, async_update_projection) (publish-Shows P c k)

  Event-Shows :
      {Q : Type 0} {c : PlannerCoordinator} {s : S} {d : PlannerCoordinator} {t : S}
      → ((state : PlannerState) (s t : S) → save state s ≡ ok t → P state)
      → Event Q save c s d t
      → Shows P c
      → Shows P d
  unfolding async_add_listener remove_listener
  Event-Shows h (command {c} {s} guard f) k = async_command-Shows guard f c s h k
  Event-Shows h (projection {c} guard update q) k = async_update_projection-Shows guard update c q k
  Event-Shows h (runtime_projection {c}) k = publish-Shows P c k
  Event-Shows h (listen l) k = record { state = k.state; notices = k.notices }
  Event-Shows h (leave l) k = record { state = k.state; notices = k.notices }

-- Whatever commands, projection updates and listeners come, in whatever order, and whichever guards
-- refuse or stores fail: if a property holds of the first state and of every state that the store
-- has accepted, it holds of the coordinator's state and of all states that listeners were shown. So
-- no state is shown before it is stored.
pub Run-Shows :
    {S : Type 0} (Q : Type 0) (save : PlannerState → S → Result S) (P : PlannerState → Type 0)
    (first : PlannerState) {s : S} {c : PlannerCoordinator} {t : S}
    → P first
    → ((state : PlannerState) (s t : S) → save state s ≡ ok t → P state)
    → Run Q save (new_coordinator first) s c t
    → Shows P c
Run-Shows Q save P first h k begun = record { state = h; notices = tt }
Run-Shows Q save P first h k (next r e) = Event-Shows save P k e (Run-Shows Q save P first h k r)
