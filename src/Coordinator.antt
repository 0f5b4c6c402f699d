-- ===== src/Coordinator.antt =====
-- coordinator.py: `PlannerCoordinator`. The lock makes each command one step. A listener is named by a
-- number; what it raises is logged and dropped, so that only the notice itself is kept.
use ha_vacuum_planner.Base.{
  List, Result, [], contains, err, if◌then◌else◌, int_eq, nat_eq, not, ok, select, string_eq, ℕ,
  ◌==◌, ◌>>◌, ◌∷◌,
}
use ha_vacuum_planner.Models.{
  PlannerState, block_guarantee_eq, block_kind_eq, block_state_eq, dispatch_strategy_eq,
  job_state_eq, mode_eq, preferred_mode_eq, state_beq,
}

pub record PlannerCoordinator : Type 0 where
  pub state : PlannerState
  pub listeners : List ℕ
  -- the notices, the last one first: the listener and the state that it can read
  pub notices : List (ℕ × PlannerState)

-- the outcome of the n-th call of the guard; a command without a guard has one that always returns
abbrev pub Guard : Type 0
Guard = ℕ → Result (Unit {0})

-- `PlannerCoordinator(state, store)`
abbrev pub new_coordinator : PlannerState → PlannerCoordinator
new_coordinator state = record { state = state; listeners = []; notices = [] }

unfoldable pub async_add_listener : ℕ → PlannerCoordinator → PlannerCoordinator
async_add_listener listener c = record c {
  listeners = if contains listener c.listeners then c.listeners else listener ∷ c.listeners;
}

unfoldable pub remove_listener : ℕ → PlannerCoordinator → PlannerCoordinator
remove_listener listener c = record c { listeners = select (λ l. not (l == listener)) c.listeners }

unfoldable pub notify : PlannerState → List ℕ → List (ℕ × PlannerState) → List (ℕ × PlannerState)
notify state [] notices = notices
notify state (l ∷ ls) notices = notify state ls ((l, state) ∷ notices)

-- `_publish`, and `publish_runtime_projection`
unfoldable pub publish : PlannerCoordinator → PlannerCoordinator
publish c = record c { notices = notify c.state c.listeners c.notices }

-- what a command leaves: the error or the returned state, the coordinator and the store
pub record Outcome (S : Type 0) : Type 0 where
  pub result : Result PlannerState
  pub coordinator : PlannerCoordinator
  pub store : S

module _ {S : Type 0} (save : PlannerState → S → Result S) where
  -- the part behind the store: the state is published unless the guard refuses it
  unfoldable pub finish_command : Guard → PlannerState → PlannerCoordinator → S → Outcome S
  finish_command guard updated c s = elim (guard 2) [
    | err e ↦ record { result = err e; coordinator = c; store = s }
    | ok u ↦ record {
      result = ok updated;
      coordinator = publish (record c { state = updated });
      store = s;
    }
  ]

  unfoldable pub save_command : Guard → PlannerState → PlannerCoordinator → S → Outcome S
  save_command guard updated c s = elim (save updated s) [
    | err e ↦ record { result = err e; coordinator = c; store = s }
    | ok next ↦ finish_command guard updated c next
  ]

  -- the state that the command returns, behind the first call of the guard
  unfoldable pub apply_command :
      Guard → (PlannerState → Result PlannerState) → PlannerState → Result PlannerState
  apply_command guard command state = do guard 0; command state

  unfoldable pub store_command : Guard → PlannerState → PlannerCoordinator → S → Outcome S
  store_command guard updated c s =
      if state_beq updated c.state
      then record { result = ok c.state; coordinator = c; store = s }
      else elim (guard 1) [
        | err e ↦ record { result = err e; coordinator = c; store = s }
        | ok u ↦ save_command guard updated c s
      ]

  unfoldable pub async_command :
      Guard → (PlannerState → Result PlannerState) → PlannerCoordinator → S → Outcome S
  async_command guard command c s = elim (apply_command guard command c.state) [
    | err e ↦ record { result = err e; coordinator = c; store = s }
    | ok updated ↦ store_command guard updated c s
  ]

-- what `async_update_projection` leaves, with the runtime preferences that `update` writes
pub record ProjectionOutcome (P : Type 0) : Type 0 where
  pub result : Result (Unit {0})
  pub coordinator : PlannerCoordinator
  pub preferences : P

-- `update` keeps what it has written when it raises: it returns the preferences with its outcome.
unfoldable pub async_update_projection :
    {P : Type 0}
    → Guard
    → (P → P × Result (Unit {0}))
    → PlannerCoordinator
    → P
    → ProjectionOutcome P
async_update_projection guard update c p = elim (guard 0) [
  | err e ↦ record { result = err e; coordinator = c; preferences = p }
  | ok u ↦ elim ((update p).1 >> guard 1) [
    | err e ↦ record { result = err e; coordinator = c; preferences = (update p).0 }
    | ok v ↦ record { result = ok tt; coordinator = publish c; preferences = (update p).0 }
  ]
]
