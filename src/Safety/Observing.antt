-- ===== src/Safety/Observing.antt =====
-- integration_observer.py: what an observation writes keeps the ledger's history.
use ha_vacuum_planner.Base.{
  >>=-eq-ok, All, Bool, Bool-cases, List, Option, Result, String, [], arith, contains, false,
  if◌then◌else◌, inl, inr, int_eq, map_result, nat_eq, none, ok, refl, some, string_eq, subst, sym,
  true, ◌&&◌, ◌==◌, ◌∷◌, ◌≡◌,
}
use ha_vacuum_planner.Models.{
  BlockState, DateTime, JobState, QueueBlock, QueueJob, QueueLedger, block_guarantee_eq,
  block_kind_eq, block_state_eq, dispatch_strategy_eq, is_terminal_block, job_state_eq, make_block,
  make_job, mode_eq, no_change, parent_of, preferred_mode_eq, replace_block_state,
  replace_job_state,
}
use ha_vacuum_planner.Laws.Keyed.{All-map_impl}
use ha_vacuum_planner.Laws.Constructors.{make_block-eq, make_block_idem, make_job_idem}
use ha_vacuum_planner.Laws.History.{
  Follows, Follows-refl, Follows-trans, IsValid, KeepsBlock, KeepsBlock-refl, KeepsJob,
  KeepsJob-refl, planned_states,
}
use ha_vacuum_planner.Safety.Edits.{make_job-frozen}
use ha_vacuum_planner.Safety.Histories.{replace_block_state-Follows, replace_job_state-Follows}
use ha_vacuum_planner.Safety.Rewrites.{Follows-rewrite}
use ha_vacuum_planner.Safety.Graph.{All-both}
use ha_vacuum_planner.Safety.Live.{OfLive, is_live, live_blocks}
use ha_vacuum_planner.Observer.{
  doubt_block, doubt_job, fail_block, fail_job, is_affected, rewrite_ledger, run_accepted,
  run_blocks, settle_ledger, start_block, start_job,
}

-- a block that may be replaced by `n`, and a job
changed_block :
    (chosen : Bool) (b n c : QueueBlock)
    → make_block b ≡ ok b
    → (chosen ≡ true → KeepsBlock b n)
    → (if chosen then make_block n else ok b) ≡ ok c
    → KeepsBlock b c × (make_block c ≡ ok c)
changed_block true b n c old keeps h =
    (subst (λ x. KeepsBlock b x) (sym (make_block-eq n h)) (keeps refl), make_block_idem n h)
changed_block false b n c old keeps h =
    subst (λ x. KeepsBlock b x × (make_block x ≡ ok x)) {x = b} {y = c} (ground arith)
      (KeepsBlock-refl b, old)

changed_job :
    (chosen : Bool) (j n k : QueueJob)
    → make_job j ≡ ok j
    → n.adapter_target_snapshot ≡ j.adapter_target_snapshot
    → (chosen ≡ true → KeepsJob j n)
    → (if chosen then make_job n else ok j) ≡ ok k
    → KeepsJob j k × (make_job k ≡ ok k)
changed_job true j n k old same keeps h = (
  subst (λ x. KeepsJob j x) (sym (make_job-frozen j n old same h)) (keeps refl),
  make_job_idem n h,
)
changed_job false j n k old same keeps h =
    subst (λ x. KeepsJob j x × (make_job x ≡ ok x)) {x = j} {y = k} (ground arith)
      (KeepsJob-refl j, old)

-- a block that its constructor accepts and that has not ended if it is one of these
abbrev Open : List String → QueueBlock → Type 0
Open ids b = (make_block b ≡ ok b) × (contains b.block_id ids ≡ true → is_terminal_block b ≡ false)

-- the blocks of a valid ledger, where each identity is that of a block with a job on its way
Open-blocks :
    (l : QueueLedger) (ids : List String) → IsValid l → OfLive l ids → All (Open ids) l.blocks
Open-blocks l ids v live =
    All-both _ _ l.blocks v.blocks
      (All-map_impl _ _ l.blocks (λ b h c. h (live b.block_id c)) (live_blocks l v.made))

-- a block keeps its plan under a new state and new times, unless it has ended
restated :
    (b : QueueBlock) (s : BlockState) (committed completed : Option DateTime)
    → contains s planned_states ≡ false
    → is_terminal_block b ≡ false
    → KeepsBlock b (record b { state = s; committed_at = committed; completed_at = completed })
unfolding contains
restated b s committed completed new h = ground arith

-- a job on its way may end in any way
job_restated :
    (j : QueueJob) (s : JobState) (started finished : Option DateTime) (code : Option String)
    → (s == JobState.pending) ≡ false
    → is_live j ≡ true
    → KeepsJob j
        (record j { state = s; started_at = started; finished_at = finished; error_code = code })
unfolding contains
job_restated j s started finished code new h = ground arith

module _ (l : QueueLedger) (ids : List String) (at : DateTime) {m : QueueLedger} (v : IsValid l)
    (live : OfLive l ids) where
  rewrite_of :
      (f : QueueBlock → Result QueueBlock) (g : QueueJob → Result QueueJob)
      → ((b c : QueueBlock) → Open ids b → f b ≡ ok c → KeepsBlock b c × (make_block c ≡ ok c))
      → ((j k : QueueJob) → make_job j ≡ ok j → g j ≡ ok k → KeepsJob j k × (make_job k ≡ ok k))
      → rewrite_ledger l f g at ≡ ok m
      → Follows l m
  unfolding rewrite_ledger
  rewrite_of f g blocks_keep jobs_keep h =
      let (bs, hb, h') = >>=-eq-ok (map_result f l.blocks) _ {result = m} h in
      let (js, hj, made) = >>=-eq-ok (map_result g l.jobs) _ {result = m} h' in
      Follows-rewrite l at f g (Open ids) blocks_keep jobs_keep v (Open-blocks l ids v live) hb hj
        made

  -- both rewritings succeed, in whatever order
  settle_of :
      (f : QueueBlock → Result QueueBlock) (g : QueueJob → Result QueueJob)
      → ((b c : QueueBlock) → Open ids b → f b ≡ ok c → KeepsBlock b c × (make_block c ≡ ok c))
      → ((j k : QueueJob) → make_job j ≡ ok j → g j ≡ ok k → KeepsJob j k × (make_job k ≡ ok k))
      → settle_ledger l f g at ≡ ok m
      → Follows l m
  unfolding settle_ledger
  settle_of f g blocks_keep jobs_keep h =
      let (js, hj, h') = >>=-eq-ok (map_result g l.jobs) _ {result = m} h in
      let (bs, hb, made) = >>=-eq-ok (map_result f l.blocks) _ {result = m} h' in
      Follows-rewrite l at f g (Open ids) blocks_keep jobs_keep v (Open-blocks l ids v live) hb hj
        made

  pub fail-Follows : settle_ledger l (fail_block ids at) (fail_job ids at) at ≡ ok m → Follows l m
  unfolding fail_block fail_job contains
  fail-Follows =
      settle_of (fail_block ids at) (fail_job ids at)
        (λ b c p.
          changed_block (contains b.block_id ids) b
            (record b { state = BlockState.failed; completed_at = some at }) c p.0
            (λ e. restated b BlockState.failed b.committed_at (some at) refl (p.1 e)))
        (λ j k old.
          changed_job (is_affected ids j) j
            (record j {
              state = JobState.failed;
              finished_at = some at;
              error_code = some "vacuum_reported_failure";
            })
            k old refl
            (λ e.
              job_restated j JobState.failed j.started_at (some at) (some "vacuum_reported_failure")
                refl (ground arith)))

  pub doubt-Follows : settle_ledger l (doubt_block ids) (doubt_job ids) at ≡ ok m → Follows l m
  unfolding doubt_block doubt_job contains
  doubt-Follows =
      settle_of (doubt_block ids) (doubt_job ids)
        (λ b c p.
          changed_block (contains b.block_id ids) b (record b { state = BlockState.uncertain }) c
            p.0 (λ e. restated b BlockState.uncertain b.committed_at b.completed_at refl (p.1 e)))
        (λ j k old.
          changed_job (is_affected ids j) j (record j { state = JobState.uncertain }) k old refl
            (λ e.
              job_restated j JobState.uncertain j.started_at j.finished_at j.error_code refl
                (ground arith)))

  pub start-Follows :
      rewrite_ledger l (start_block ids at) (start_job ids at) at ≡ ok m → Follows l m
  unfolding start_block start_job contains
  start-Follows =
      rewrite_of (start_block ids at) (start_job ids at)
        (λ b c p.
          changed_block (contains b.block_id ids) b
            (record b { state = BlockState.running; committed_at = some at }) c p.0
            (λ e. restated b BlockState.running (some at) b.completed_at refl (p.1 e)))
        (λ j k old.
          changed_job (contains j.block_id ids && j.state == JobState.dispatching) j
            (record j { state = JobState.running; started_at = some at }) k old refl
            (λ e.
              job_restated j JobState.running (some at) j.finished_at j.error_code refl
                (ground arith)))

run_accepted-Follows :
    (id : String) (at : DateTime) (js : List QueueJob) (l : QueueLedger) {m : QueueLedger}
    → IsValid l
    → run_accepted id at js l ≡ ok m
    → Follows l m
unfolding run_accepted
run_accepted-Follows id at [] l {m} v h =
    subst (λ x. Follows l x) {x = l} {y = m} (ground arith) (Follows-refl v)
run_accepted-Follows id at (j ∷ js) l {m} v h =
    let (n, one, rest) =
      >>=-eq-ok
        (if j.block_id == id && j.state == JobState.accepted
          then replace_job_state l j.job_id JobState.running at no_change
          else ok l)
        _ {result = m} h in
    let first = run_one j n one in
    Follows-trans first (run_accepted-Follows id at js n first.valid rest)
  where
    run_one :
        (j : QueueJob) (n : QueueLedger)
        → (if j.block_id == id && j.state == JobState.accepted
            then replace_job_state l j.job_id JobState.running at no_change
            else ok l)
          ≡ ok n
        → Follows l n
    run_one j n one = elim (Bool-cases (j.block_id == id && j.state == JobState.accepted)) [
      | inl e ↦
          replace_job_state-Follows l j.job_id JobState.running at no_change {m = n} v
            (ground arith)
      | inr e ↦ subst (λ x. Follows l x) {x = l} {y = n} (ground arith) (Follows-refl v)
    ]

pub run_blocks-Follows :
    (at : DateTime) (ids : List String) (l : QueueLedger) {m : QueueLedger}
    → IsValid l
    → run_blocks at ids l ≡ ok m
    → Follows l m
unfolding run_blocks
run_blocks-Follows at [] l {m} v h =
    subst (λ x. Follows l x) {x = l} {y = m} (ground arith) (Follows-refl v)
run_blocks-Follows at (id ∷ ids) l {m} v h =
    let (b, found, h1) = >>=-eq-ok (parent_of l.blocks id) _ {result = m} h in
    let (n, one, h2) =
      >>=-eq-ok
        (if b.state == BlockState.committed
          then replace_block_state l id BlockState.running at none
          else ok l)
        _ {result = m} h1 in
    let (o, jobs, rest) = >>=-eq-ok (run_accepted id at n.jobs n) _ {result = m} h2 in
    let first = run_block b n one in
    let second = Follows-trans first (run_accepted-Follows id at n.jobs n first.valid jobs) in
    Follows-trans second (run_blocks-Follows at ids o second.valid rest)
  where
    run_block :
        (b : QueueBlock) (n : QueueLedger)
        → (if b.state == BlockState.committed
            then replace_block_state l id BlockState.running at none
            else ok l)
          ≡ ok n
        → Follows l n
    run_block b n one = elim (Bool-cases (b.state == BlockState.committed)) [
      | inl e ↦ replace_block_state-Follows l id BlockState.running at none {m = n} v (ground arith)
      | inr e ↦ subst (λ x. Follows l x) {x = l} {y = n} (ground arith) (Follows-refl v)
    ]
