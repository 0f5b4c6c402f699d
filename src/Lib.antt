-- ===== src/Lib.antt =====
-- Vacuum Planner plans the cleaning of a lane of rooms by one robot vacuum under Home Assistant. A plan
-- revision says which rooms are cleaned how often. Planning evaluates which of them are due and
-- materialises a snapshot; starting it seals a block of jobs in the queue ledger; the adapter commits
-- the block, sends its jobs and reports on them; a job that ends moves the plan on. The ledger and the
-- plan are one state, which a coordinator changes command by command, stores, and shows to listeners.
--
-- Parts, under custom_components/vacuum_planner/:
--   domain/models.py         Models: one child per family of classes. A dataclass is a record, and its
--                            constructor is `make_...`, which checks the fields and freezes JSON;
--                            `QueueLedger.replace_block_state` and `replace_job_state` are in
--                            Models/Transitions, the checks of the ledger's graph in Models/Ledgers,
--                            the generated `==` in Models/Equality.
--   domain/queue.py          Queue: Commands (start, commit, failure), Recovery (quarantine, resolution,
--                            restart), Completion. The functions keep their
--                            names.
--   domain/planning.py       Planning: `build_due_snapshot` and its helpers.
--   domain/serialization.py  Codec: Readers, Plans, Ledgers, Roots, with the migrations of version 0.
--   store.py                 Storage: `PlannerStore` over a backend.
--   coordinator.py           Coordinator: one step per command under the lock.
--   const.py                 Runtime: `VacuumPlannerRuntimeData`, its generations, the planning preference.
--   adapters/observation.py  Observations: `normalize_observation`.
--   integration_observer.py  Observer: Runs, Failures and Applications; `_running` is `observe_running`,
--                            and so on for each outcome.
--   public_actions.py        Actions.
--   adapters/native_area.py  Adapter: the mode selector, the preflight, the guarded calls.
--   topology.py              Topology, with `_configured_topology_issues` of __init__.py.
--   __init__.py              Dispatch: Claims (what a dispatch does to the state), Worlds and Waits (the
--                            runtime, the coordinator and the store, and what other tasks do at each
--                            wait), Runs (`_async_dispatch_created_block`). Services: Queues, Starts
--                            (the command of `start_next`), Mutations, Runs (the handlers). Setup: Plans
--                            and Loads (setup and unload), Reactions (`_subscribe_observer`).
--   entity.py, number.py, switch.py, diagnostics.py
--                            Entities: Projections, Numbers, Switches.
-- A service calls a command of the coordinator, behind a guard that asks the runtime for the generation
-- that the call captured; a start that has sealed a block goes on to its dispatch, whose calls the
-- adapter makes behind the same guard; the observer turns the states of the vacuum into commands. Home
-- has what all of them read of Home Assistant.
-- Base has the shared tests, numbers, lists, texts, results and a stable sort. Laws has lemmas on the
-- constructors and the notion of a valid ledger and of its later versions (Laws/History); Safety
-- follows each command and then all sequences of commands; Starts, Rules and Persistence are about
-- single operations, Due is about when a room is due, and RoundTrips about what is read back. Guards is
-- about what the generations, the claim and the latch keep from happening, Views about what entities
-- show. Tests has concrete runs.
--
-- How the code is read. An exception is an `err` of `Result` with its text. Python's `int` is ℤ where it
-- may be negative; a float is its bit pattern. A datetime is its instant on the UTC line and its offset
-- in microseconds; zones have a fixed offset, and an instant counts from a day before year 1, so that
-- no subtraction falls below 0. `id_factory` is a function from the number of the call. Checks of
-- types and of membership in an enumeration hold by typing and are left out. A set is the list of its
-- distinct members; a dictionary built from jobs keeps the last of two entries with one key. Loops are
-- recursion over the list they read, so no fuel is needed. `datetime.isoformat` and `fromisoformat`,
-- `zoneinfo`, the storage backend, the guard of a command and the command itself, the registries and
-- states of Home Assistant and its service calls are parameters. Other tasks run where the code waits:
-- what they do to the runtime, the coordinator and the store there is an arbitrary function, one for
-- each place (`Schedule`). While a command is being stored the lock keeps the coordinator's state, and
-- the runtime, the listeners and the notices may change. A generation is a natural number, as it only
-- counts up from 0.
--
-- Not modelled: the forms (config_flow.py), the entity classes (sensor.py, button.py,
-- binary_sensor.py) and the issue registry (repairs.py), which call Home Assistant's frameworks; the
-- registration of services and listeners and the events of the registries (__init__.py); a
-- cancellation while a command is being stored.
pub mod Base
pub mod Models
pub mod Queue
pub mod Planning
pub mod Laws
pub mod Safety
pub mod Starts
pub mod Rules
pub mod Due
pub mod Codec
pub mod Storage
pub mod Coordinator
pub mod Home
pub mod Adapter
pub mod Topology
pub mod Observations
pub mod Runtime
pub mod Observer
pub mod Actions
pub mod Dispatch
pub mod Services
pub mod Entities
pub mod Setup
pub mod Guards
pub mod Views
pub mod Persistence
pub mod RoundTrips
mod Tests
