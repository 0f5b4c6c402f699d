-- ===== src/Laws/History.antt =====
-- What no command may change: identities, order and results of blocks and jobs are kept, and lists
-- grow only at their ends.
use Prim.Native.Nat.{max}
use ha_vacuum_planner.Base.{
  All, Bool, Bool-cases, List, Result, String, [], ap, arith, contains, false, if◌then◌else◌, incℤ,
  inl, inr, int_eq, length, leℤ, map_result, nat_eq, negsuc, ok, pos, refl, replace_where,
  string_eq, subst, suc, sym, true, zero, ℕ, ℤ, ◌++◌, ◌+◌, ◌==◌, ◌∙◌, ◌∷◌, ◌≡◌, ◌≤◌,
}
use ha_vacuum_planner.Models.{
  BlockState, JobState, QueueBlock, QueueJob, QueueLedger, block_guarantee_eq, block_kind_eq,
  block_state_eq, dispatch_strategy_eq, is_terminal_block, job_state_eq, make_block, make_job,
  make_ledger, mode_eq, preferred_mode_eq,
}
use ha_vacuum_planner.Queue.{is_open_in}

-- `ys` holds at the places of `xs` what `K` allows, and may go on behind them.
abbrev pub Extends : {A : Type 0} → (A → A → Type 0) → List A → List A → Type 0
Extends K [] ys = Unit
Extends K (x ∷ xs) [] = ⊥
Extends K (x ∷ xs) (y ∷ ys) = K x y × Extends K xs ys

module _ {A : Type 0} (K : A → A → Type 0) where
  pub Extends-refl : ((a : A) → K a a) → (xs : List A) → Extends K xs xs
  Extends-refl r [] = tt
  Extends-refl r (x ∷ xs) = (r x, Extends-refl r xs)

  pub Extends-trans :
      ((a b c : A) → K a b → K b c → K a c)
      → (xs ys zs : List A) → Extends K xs ys
      → Extends K ys zs
      → Extends K xs zs
  Extends-trans t [] ys zs h k = tt
  Extends-trans t (x ∷ xs) [] zs h k = absurd h
  Extends-trans t (x ∷ xs) (y ∷ ys) [] h k = absurd k
  Extends-trans t (x ∷ xs) (y ∷ ys) (z ∷ zs) h k =
      (t x y z h.0 k.0, Extends-trans t xs ys zs h.1 k.1)

  pub Extends-append : ((a : A) → K a a) → (xs ys : List A) → Extends K xs (xs ++ ys)
  Extends-append r [] ys = tt
  Extends-append r (x ∷ xs) ys = (r x, Extends-append r xs ys)

  pub Extends-replace_where :
      ((a : A) → K a a)
      → (p : A → Bool) (c : A) (xs : List A) → All (λ x. p x ≡ true → K x c) xs
      → Extends K xs (replace_where p c xs)
  unfolding replace_where
  Extends-replace_where r p c [] h = tt
  Extends-replace_where r p c (x ∷ xs) h = elim (Bool-cases (p x)) [
    | inl e ↦ rw e (h.0 e, Extends-replace_where r p c xs h.1)
    | inr e ↦ rw e (r x, Extends-replace_where r p c xs h.1)
  ]

  pub Extends-map_result :
      (P : A → Type 0) (f : A → Result A)
      → ((a b : A) → P a → f a ≡ ok b → K a b)
      → (xs ys : List A) → All P xs
      → map_result f xs ≡ ok ys
      → Extends K xs ys
  unfolding map_result
  Extends-map_result P f k [] ys h e = tt
  Extends-map_result P f k (x ∷ xs) [] h e = absurd (ground arith)
  Extends-map_result P f k (x ∷ xs) (y ∷ ys) h e =
      (k x y h.0 (ground arith), Extends-map_result P f k xs ys h.1 (ground arith))

-- the states of a block of which nothing was sent
abbrev pub planned_states : List BlockState
planned_states = BlockState.draft ∷ BlockState.validating ∷ BlockState.sealed ∷ []

pub record KeepsBlock (b c : QueueBlock) : Type 0 where
  pub block_id : c.block_id ≡ b.block_id
  pub kind : c.kind ≡ b.kind
  pub lane_id : c.lane_id ≡ b.lane_id
  pub plan_revision : c.plan_revision ≡ b.plan_revision
  pub idempotency_key : c.idempotency_key ≡ b.idempotency_key
  pub created_at : c.created_at ≡ b.created_at
  pub sealed_at : c.sealed_at ≡ b.sealed_at
  pub job_ids : c.job_ids ≡ b.job_ids
  pub dispatch_strategy : c.dispatch_strategy ≡ b.dispatch_strategy
  pub guarantee : c.guarantee ≡ b.guarantee
  -- a block does not go back to the states in which nothing was sent
  pub begun : contains b.state planned_states ≡ false → contains c.state planned_states ≡ false
  -- the result of a block is final
  pub final : is_terminal_block b ≡ true → c ≡ b

pub KeepsBlock-refl : (b : QueueBlock) → KeepsBlock b b
KeepsBlock-refl b = record {
  block_id = refl;
  kind = refl;
  lane_id = refl;
  plan_revision = refl;
  idempotency_key = refl;
  created_at = refl;
  sealed_at = refl;
  job_ids = refl;
  dispatch_strategy = refl;
  guarantee = refl;
  begun = λ h. h;
  final = λ _. refl;
}

pub KeepsBlock-trans : (a b c : QueueBlock) → KeepsBlock a b → KeepsBlock b c → KeepsBlock a c
KeepsBlock-trans a b c h k = record {
  block_id = k.block_id ∙ h.block_id;
  kind = k.kind ∙ h.kind;
  lane_id = k.lane_id ∙ h.lane_id;
  plan_revision = k.plan_revision ∙ h.plan_revision;
  idempotency_key = k.idempotency_key ∙ h.idempotency_key;
  created_at = k.created_at ∙ h.created_at;
  sealed_at = k.sealed_at ∙ h.sealed_at;
  job_ids = k.job_ids ∙ h.job_ids;
  dispatch_strategy = k.dispatch_strategy ∙ h.dispatch_strategy;
  guarantee = k.guarantee ∙ h.guarantee;
  begun = λ t. k.begun (h.begun t);
  final = λ t. k.final (subst (λ x. is_terminal_block x ≡ true) (sym (h.final t)) t) ∙ h.final t;
}

-- the states of a job that no command leaves
abbrev pub final_job_states : List JobState
final_job_states = JobState.completed ∷ JobState.skipped ∷ JobState.cancelled ∷ []

pub record KeepsJob (j k : QueueJob) : Type 0 where
  pub job_id : k.job_id ≡ j.job_id
  pub block_id : k.block_id ≡ j.block_id
  pub area_id : k.area_id ≡ j.area_id
  pub area_name_snapshot : k.area_name_snapshot ≡ j.area_name_snapshot
  pub adapter_target_snapshot : k.adapter_target_snapshot ≡ j.adapter_target_snapshot
  pub mode : k.mode ≡ j.mode
  pub position : k.position ≡ j.position
  pub planned_at : k.planned_at ≡ j.planned_at
  -- a job that was sent, or that has ended, does not wait again
  pub begun : (j.state == JobState.pending) ≡ false → (k.state == JobState.pending) ≡ false
  pub final : contains j.state final_job_states ≡ true → k ≡ j

pub KeepsJob-refl : (j : QueueJob) → KeepsJob j j
KeepsJob-refl j = record {
  job_id = refl;
  block_id = refl;
  area_id = refl;
  area_name_snapshot = refl;
  adapter_target_snapshot = refl;
  mode = refl;
  position = refl;
  planned_at = refl;
  begun = λ h. h;
  final = λ _. refl;
}

pub KeepsJob-trans : (a b c : QueueJob) → KeepsJob a b → KeepsJob b c → KeepsJob a c
KeepsJob-trans a b c h k = record {
  job_id = k.job_id ∙ h.job_id;
  block_id = k.block_id ∙ h.block_id;
  area_id = k.area_id ∙ h.area_id;
  area_name_snapshot = k.area_name_snapshot ∙ h.area_name_snapshot;
  adapter_target_snapshot = k.adapter_target_snapshot ∙ h.adapter_target_snapshot;
  mode = k.mode ∙ h.mode;
  position = k.position ∙ h.position;
  planned_at = k.planned_at ∙ h.planned_at;
  begun = λ t. k.begun (h.begun t);
  final = λ t.
      k.final (subst (λ x. contains x.state final_job_states ≡ true) (sym (h.final t)) t)
      ∙ h.final t;
}

-- A ledger whose blocks, jobs and graph its constructors have accepted.
pub record IsValid (l : QueueLedger) : Type 0 where
  pub made : make_ledger l ≡ ok l
  pub blocks : All (λ b. make_block b ≡ ok b) l.blocks
  pub jobs : All (λ j. make_job j ≡ ok j) l.jobs

-- how many blocks of a lane have not ended
unfoldable pub open_count : String → List QueueBlock → ℕ
open_count lane [] = 0
open_count lane (b ∷ bs) =
    let rest = open_count lane bs in if is_open_in lane b then suc rest else rest

KeepsBlock-open :
    (lane : String) (b c : QueueBlock)
    → KeepsBlock b c
    → is_open_in lane c ≡ true
    → is_open_in lane b ≡ true
unfolding is_open_in
KeepsBlock-open lane b c k h = ground (arith, k.lane_id, k.final)

-- Where no block is appended, no lane has more open blocks than before.
pub open_count-Extends :
    (lane : String) (bs cs : List QueueBlock)
    → Extends KeepsBlock bs cs
    → length bs ≡ length cs
    → open_count lane cs ≤ open_count lane bs
unfolding open_count
open_count-Extends lane [] [] h n = omega arith
open_count-Extends lane [] (c ∷ cs) h n = absurd (omega arith)
open_count-Extends lane (b ∷ bs) [] h n = absurd h
open_count-Extends lane (b ∷ bs) (c ∷ cs) h n =
    ground (arith, open_count-Extends lane bs cs h.1, KeepsBlock-open lane b c h.0)

pub open_count-append :
    (lane : String) (bs : List QueueBlock) (c : QueueBlock)
    → open_count lane (bs ++ (c ∷ [])) ≡ open_count lane bs + (if is_open_in lane c then 1 else 0)
unfolding open_count
open_count-append lane [] c = ground arith
open_count-append lane (b ∷ bs) c = ground (arith, open_count-append lane bs c)

pub length-replace_where :
    {A : Type 0} (p : A → Bool) (c : A) (xs : List A) → length (replace_where p c xs) ≡ length xs
unfolding replace_where
length-replace_where p c [] = refl
length-replace_where p c (x ∷ xs) = ap suc (length-replace_where p c xs)

pub length-map_result :
    {A : Type 0} (f : A → Result A) (xs ys : List A)
    → map_result f xs ≡ ok ys
    → length ys ≡ length xs
unfolding map_result
length-map_result f [] [] h = refl
length-map_result f [] (y ∷ ys) h = absurd (ground arith)
length-map_result f (x ∷ xs) [] h = absurd (ground arith)
length-map_result f (x ∷ xs) (y ∷ ys) h = ap suc (length-map_result f xs ys (ground arith))

-- `m` comes after `l`.
pub record Follows (l m : QueueLedger) : Type 0 where
  pub revision : leℤ l.revision m.revision ≡ true
  pub active_block_id : m.active_block_id ≡ l.active_block_id
  pub blocks : Extends KeepsBlock l.blocks m.blocks
  pub jobs : Extends KeepsJob l.jobs m.jobs
  -- no lane has more open blocks than it had, but for a first one
  pub lanes : (lane : String) → open_count lane m.blocks ≤ max 1 (open_count lane l.blocks)
  pub valid : IsValid m

leℤ-refl : (a : ℤ) → leℤ a a ≡ true
leℤ-refl (pos a) = ground arith
leℤ-refl (negsuc a) = ground arith

leℤ-trans : (a b c : ℤ) → leℤ a b ≡ true → leℤ b c ≡ true → leℤ a c ≡ true
leℤ-trans (pos a) (pos b) (pos c) h k = ground arith
leℤ-trans (negsuc a) (negsuc b) (negsuc c) h k = ground arith
leℤ-trans (negsuc a) b (pos c) h k = refl
leℤ-trans a b c h k = ground arith

pub leℤ-incℤ : (a : ℤ) → leℤ a (incℤ a) ≡ true
leℤ-incℤ (pos a) = ground arith
leℤ-incℤ (negsuc zero) = refl
leℤ-incℤ (negsuc (suc a)) = ground arith

pub Follows-refl : {l : QueueLedger} → IsValid l → Follows l l
Follows-refl {l} v = record {
  revision = leℤ-refl l.revision;
  active_block_id = refl;
  blocks = Extends-refl KeepsBlock KeepsBlock-refl l.blocks;
  jobs = Extends-refl KeepsJob KeepsJob-refl l.jobs;
  lanes = λ lane. omega arith;
  valid = v;
}

pub Follows-trans : {l m n : QueueLedger} → Follows l m → Follows m n → Follows l n
Follows-trans {l} {m} {n} h k = record {
  revision = leℤ-trans l.revision m.revision n.revision h.revision k.revision;
  active_block_id = k.active_block_id ∙ h.active_block_id;
  blocks = Extends-trans KeepsBlock KeepsBlock-trans l.blocks m.blocks n.blocks h.blocks k.blocks;
  jobs = Extends-trans KeepsJob KeepsJob-trans l.jobs m.jobs n.jobs h.jobs k.jobs;
  lanes = λ lane. omega (arith, h.lanes lane, k.lanes lane);
  valid = k.valid;
}
