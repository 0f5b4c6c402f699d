-- ===== src/RoundTrips/Readers.antt =====
-- Each reader returns what its writer was given.
use ha_vacuum_planner.Base.{
  All, List, Option, Result, String, [], arith, false, find, int_beq_iff, none, ok, pos, refl, some,
  string_eq, subst, ℤ, ◌∷◌, ◌≡◌,
}
use ha_vacuum_planner.Models.{
  BlockGuarantee, BlockKind, BlockState, DateTime, DispatchStrategy, JobState, Mode, PreferredMode,
  QueueLedger, Value, block_guarantee_value, block_kind_value, block_state_value, dict,
  dispatch_strategy_value, job_state_value, make_ledger, mode_value, preferred_mode_value,
  validate_ledger,
}
use ha_vacuum_planner.Codec.{
  IsoFormat, Payload, block_guarantees, block_states, data_of, dispatch_strategies, dump_time,
  envelope, get, integer?, integer_of, is_version, items_of, job_states, load_kind,
  load_preferred_mode, lookup, map_items, member_of, modes, object_in, object_of, optional_integer,
  optional_string, required_time, string_of, text?, time_of,
}

pub optional_integer-integer? :
    (name : String) (o : Option ℤ) → optional_integer name (integer? o) ≡ ok o
unfolding optional_integer integer_of
optional_integer-integer? name none = refl
optional_integer-integer? name (some n) = refl

pub optional_string-text? :
    (name : String) (o : Option String) → optional_string name (text? o) ≡ ok o
unfolding optional_string string_of
optional_string-text? name none = refl
optional_string-text? name (some s) = refl

pub load_preferred_mode-value :
    (m : PreferredMode) → load_preferred_mode (preferred_mode_value m) ≡ ok m
unfolding load_preferred_mode member_of preferred_mode_value find
load_preferred_mode-value PreferredMode.vacuum = refl
load_preferred_mode-value PreferredMode.vacuum_and_mop = refl

pub mode-value : (m : Mode) → member_of mode_value modes (mode_value m) ≡ ok m
unfolding member_of mode_value find
mode-value Mode.vacuum = refl
mode-value Mode.vacuum_and_mop = refl

pub load_kind-value : (k : BlockKind) → load_kind (block_kind_value k) ≡ ok k
unfolding load_kind member_of block_kind_value find
load_kind-value BlockKind.scheduled = refl

pub strategy-value :
    (d : DispatchStrategy)
    → member_of dispatch_strategy_value dispatch_strategies (dispatch_strategy_value d) ≡ ok d
unfolding member_of dispatch_strategy_value find
strategy-value DispatchStrategy.native_batch = refl
strategy-value DispatchStrategy.planner_sequential = refl
strategy-value DispatchStrategy.device_queue = refl

pub guarantee-value :
    (g : BlockGuarantee)
    → member_of block_guarantee_value block_guarantees (block_guarantee_value g) ≡ ok g
unfolding member_of block_guarantee_value find
guarantee-value BlockGuarantee.planner_atomic = refl
guarantee-value BlockGuarantee.robot_atomic = refl

pub block_state-value :
    (s : BlockState) → member_of block_state_value block_states (block_state_value s) ≡ ok s
unfolding member_of block_state_value find
block_state-value BlockState.draft = refl
block_state-value BlockState.validating = refl
block_state-value BlockState.sealed = refl
block_state-value BlockState.committing = refl
block_state-value BlockState.committed = refl
block_state-value BlockState.running = refl
block_state-value BlockState.completed = refl
block_state-value BlockState.rejected = refl
block_state-value BlockState.cancelled = refl
block_state-value BlockState.failed = refl
block_state-value BlockState.uncertain = refl
block_state-value BlockState.partial = refl

pub job_state-value :
    (s : JobState) → member_of job_state_value job_states (job_state_value s) ≡ ok s
unfolding member_of job_state_value find
job_state-value JobState.pending = refl
job_state-value JobState.dispatching = refl
job_state-value JobState.accepted = refl
job_state-value JobState.running = refl
job_state-value JobState.completed = refl
job_state-value JobState.failed = refl
job_state-value JobState.uncertain = refl
job_state-value JobState.skipped = refl
job_state-value JobState.cancelled = refl

module _ (iso : IsoFormat) (law : (t : DateTime) → iso.fromisoformat (iso.isoformat t) ≡ ok t) where
  pub time_of-dump_time : (o : Option DateTime) → time_of iso (dump_time iso o) ≡ ok o
  unfolding time_of dump_time
  time_of-dump_time none = refl
  time_of-dump_time (some t) = rw (law t) refl

  pub required_time-dump_time : (t : DateTime) → required_time iso (dump_time iso (some t)) ≡ ok t
  unfolding required_time
  required_time-dump_time t = rw (time_of-dump_time (some t)) refl

-- The items that are written one by one are read one by one.
pub map_items-items_of :
    {A : Type 0} (write : A → Value) (read : Value → Result A) (xs : List A)
    → All (λ x. read (write x) ≡ ok x) xs
    → map_items read (items_of write xs) ≡ ok xs
unfolding map_items items_of
map_items-items_of write read [] h = refl
map_items-items_of write read (x ∷ xs) h = rw (h.0, map_items-items_of write read xs h.1) refl

pub data_of-envelope :
    (kind : String) (fields : Payload) → data_of (envelope kind fields) kind ≡ ok fields
unfolding data_of envelope get lookup object_of
data_of-envelope kind fields = rw ((string_eq.beq_iff kind kind).1 refl) refl

-- An envelope has the current version, and its keys are texts.
pub current_version :
    (kind : String) (fields : Payload)
    → is_version 0 (get (envelope kind fields) "schema_version") ≡ false
unfolding envelope get lookup object_of
current_version kind fields = refl

pub object_in-envelope :
    (name kind : String) (fields : Payload)
    → object_in name (dict (envelope kind fields)) ≡ ok (envelope kind fields)
unfolding object_in envelope object_of
object_in-envelope name kind fields = refl

pub make_ledger-version :
    (l : QueueLedger)
    → make_ledger l ≡ ok l
    → make_ledger (record l { schema_version = pos 1 }) ≡ ok l
unfolding make_ledger validate_ledger
make_ledger-version l h =
    subst (λ n. make_ledger (record l { schema_version = n }) ≡ ok l) (version l h) h
  where
    version : (l : QueueLedger) → make_ledger l ≡ ok l → l.schema_version ≡ pos 1
    version l h = ground (arith, int_beq_iff l.schema_version (pos 1))
