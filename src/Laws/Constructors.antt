-- ===== src/Laws/Constructors.antt =====
-- What a successful call of a constructor says, and that it accepts its own result again.
use ha_vacuum_planner.Base.{ap, arith, ok, refl, subst, sym, ◌∙◌, ◌≡◌}
use ha_vacuum_planner.Models.{
  PlanRevision, PlannerState, QueueBlock, QueueJob, QueueLedger, RoomPlan, Value, check_position,
  freeze_json, make_block, make_job, make_ledger, make_revision, make_room, make_state,
  require_job_texts, validate_job_lifecycle,
}
use ha_vacuum_planner.Laws.Freezing.{freeze_json_idem}

pub make_block-eq : (b : QueueBlock) {c : QueueBlock} → make_block b ≡ ok c → c ≡ b
unfolding make_block
make_block-eq b h = ground arith

pub make_ledger-eq : (l : QueueLedger) {m : QueueLedger} → make_ledger l ≡ ok m → m ≡ l
unfolding make_ledger
make_ledger-eq l h = ground arith

pub make_room-eq : (r : RoomPlan) {q : RoomPlan} → make_room r ≡ ok q → q ≡ r
unfolding make_room
make_room-eq r h = ground arith

pub make_revision-eq : (r : PlanRevision) {q : PlanRevision} → make_revision r ≡ ok q → q ≡ r
unfolding make_revision
make_revision-eq r h = ground arith

pub make_state-eq : (s : PlannerState) {t : PlannerState} → make_state s ≡ ok t → t ≡ s
unfolding make_state
make_state-eq s h = ground arith

pub make_block_idem : (b : QueueBlock) {c : QueueBlock} → make_block b ≡ ok c → make_block c ≡ ok c
make_block_idem b {c} h =
    subst (λ d. make_block d ≡ ok d) (sym (make_block-eq b h)) (h ∙ ap ok (make_block-eq b h))

pub make_ledger_idem :
    (l : QueueLedger) {m : QueueLedger} → make_ledger l ≡ ok m → make_ledger m ≡ ok m
make_ledger_idem l {m} h =
    subst (λ d. make_ledger d ≡ ok d) (sym (make_ledger-eq l h)) (h ∙ ap ok (make_ledger-eq l h))

-- the job with another target
abbrev pub with_target : QueueJob → Value → QueueJob
with_target job target = record job { adapter_target_snapshot = target }

-- The checks of a job do not read its target.
pub same_checks :
    (j : QueueJob) (t : Value)
    → (require_job_texts (with_target j t) ≡ require_job_texts j)
      × (check_position (with_target j t) ≡ check_position j)
      × (validate_job_lifecycle (with_target j t) ≡ validate_job_lifecycle j)
unfolding require_job_texts check_position validate_job_lifecycle
same_checks j t = (refl, refl, refl)

-- The constructor of a job changes its target alone, and freezes it.
pub make_job-eq :
    (j : QueueJob) {k : QueueJob}
    → make_job j ≡ ok k
    → (k ≡ with_target j k.adapter_target_snapshot)
      × (freeze_json j.adapter_target_snapshot ≡ ok k.adapter_target_snapshot)
      × (require_job_texts j ≡ ok tt)
      × (check_position j ≡ ok tt)
      × (validate_job_lifecycle j ≡ ok tt)
unfolding make_job
make_job-eq j {k} h = ground arith

pub make_job_idem : (j : QueueJob) {k : QueueJob} → make_job j ≡ ok k → make_job k ≡ ok k
unfolding make_job
make_job_idem j {k} h =
    let (same, frozen, texts, place, life) = make_job-eq j h in
    let (texts', place', life') = same_checks j k.adapter_target_snapshot in
    subst (λ u. make_job u ≡ ok u) (sym same)
      (rw (texts', texts, freeze_json_idem _ frozen, place', place, life', life))
