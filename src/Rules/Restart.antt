-- ===== src/Rules/Restart.antt =====
-- `quarantine_ambiguous_dispatches`: what is left after a restart.
use ha_vacuum_planner.Base.{
  All, Bool, Bool-cases, List, Result, String, [], arith, contains, err, false, incℤ, inl, inr,
  int_eq, map, map_result, nat_eq, not, ok, refl, select, some, string_eq, subst, sym, true, ◌&&◌,
  ◌==◌, ◌∷◌, ◌≡◌,
}
use ha_vacuum_planner.Models.{
  DateTime, JobState, QueueBlock, QueueJob, QueueLedger, block_guarantee_eq, block_ids_of,
  block_kind_eq, block_state_eq, dispatch_strategy_eq, job_state_eq, make_block, make_ledger,
  mode_eq, preferred_mode_eq,
}
use ha_vacuum_planner.Queue.{
  active_block_states, ambiguous_block_ids, has_external_correlation, is_uncorrelated_active,
  quarantine_ambiguous_dispatches, quarantine_block, quarantine_job,
}
use ha_vacuum_planner.Laws.Keyed.{All-map_impl, contains-append}
use ha_vacuum_planner.Laws.Constructors.{make_job-eq, make_ledger-eq}
use ha_vacuum_planner.Safety.Graph.{All-unit}
use ha_vacuum_planner.Safety.Rewrites.{map_result-All}

select-contains :
    {A : Type 0} (key : A → String) (p : A → Bool) (xs : List A)
    → All (λ x. p x ≡ true → contains (key x) (map key (select p xs)) ≡ true) xs
unfolding select contains
select-contains key p [] = tt
select-contains key p (x ∷ xs) = (
  λ h. ground (arith, string_eq.beq_iff (key x) (key x)),
  All-map_impl (λ y. p y ≡ true → contains (key y) (map key (select p xs)) ≡ true) _ xs
      (λ y k h. ground (arith, k h)) (select-contains key p xs),
)

-- the same of jobs, asked for the block that they name
select-contains_job :
    (p : QueueJob → Bool) (id : String) (js : List QueueJob)
    → contains id (map (λ j. j.block_id) (select p js)) ≡ false
    → All (λ j. (j.block_id == id) ≡ true → p j ≡ false) js
unfolding select contains
select-contains_job p id [] h = tt
select-contains_job p id (j ∷ js) h = (
  λ e. ground (arith, string_eq.beq_iff j.block_id id, string_eq.beq_iff id j.block_id),
  select-contains_job p id js (ground arith),
)

-- a block in an external state whose run is not known
abbrev pub is_ambiguous_block : QueueBlock → Bool
is_ambiguous_block b =
    contains b.state active_block_states && not (has_external_correlation b.adapter_run_id)

-- what a block looks like after the quarantine
abbrev pub IsSettled : List QueueJob → QueueBlock → Type 0
IsSettled jobs b =
    contains b.state active_block_states ≡ true
    → (has_external_correlation b.adapter_run_id ≡ true)
      × All (λ j. (j.block_id == b.block_id) ≡ true → is_uncorrelated_active j ≡ false) jobs

quarantine_block-IsSettled :
    (l : QueueLedger) (b c : QueueBlock)
    → (is_ambiguous_block b ≡ true
        → contains b.block_id (block_ids_of (select is_ambiguous_block l.blocks)) ≡ true)
    → quarantine_block (ambiguous_block_ids l) b ≡ ok c
    → IsSettled l.jobs c
unfolding quarantine_block make_block ambiguous_block_ids contains
quarantine_block-IsSettled l b c listed h active = (
  ground (
    arith,
    contains-append b.block_id (block_ids_of (select is_ambiguous_block l.blocks))
        (map (λ j. j.block_id) (select is_uncorrelated_active l.jobs)),
  ),
  select-contains_job is_uncorrelated_active c.block_id l.jobs (
      ground (
        arith,
        contains-append b.block_id (block_ids_of (select is_ambiguous_block l.blocks))
            (map (λ j. j.block_id) (select is_uncorrelated_active l.jobs)),
      )),
)

quarantine_job-settled :
    (j k : QueueJob) → quarantine_job j ≡ ok k → is_uncorrelated_active k ≡ false
unfolding quarantine_job is_uncorrelated_active contains
quarantine_job-settled j k h =
    ground (arith, make_job-eq (record j { state = JobState.uncertain }) {k = k})

IsSettled-of :
    (l : QueueLedger) (at : DateTime) {m : QueueLedger} (bs : List QueueBlock) (js : List QueueJob)
    → make_ledger (record l {
      revision = incℤ l.revision;
      blocks = bs;
      jobs = js;
      last_reconciled_at = some at;
    })
      ≡ ok m
    → map_result (quarantine_block (ambiguous_block_ids l)) l.blocks ≡ ok bs
    → map_result quarantine_job l.jobs ≡ ok js
    → All (λ j. is_uncorrelated_active j ≡ false) m.jobs × All (IsSettled l.jobs) m.blocks
IsSettled-of l at {m} bs js made f g =
    let same = make_ledger-eq _ made in
    (
      subst (λ x. All (λ j. is_uncorrelated_active j ≡ false) x.jobs) (sym same)
          (map_result-All (λ _. Unit {0}) (λ j. is_uncorrelated_active j ≡ false) quarantine_job
            (λ j k t h. quarantine_job-settled j k h) l.jobs js (All-unit l.jobs) g),
      subst (λ x. All (IsSettled l.jobs) x.blocks) (sym same)
          (map_result-All _ (IsSettled l.jobs) (quarantine_block (ambiguous_block_ids l))
            (λ b c t h. quarantine_block-IsSettled l b c t h) l.blocks bs
            (select-contains (λ b. b.block_id) is_ambiguous_block l.blocks) f),
    )

-- After the quarantine at a restart no job is in an external state without a token, and a block that
-- is still in an external state has a known run and had no such job before.
pub quarantine_ambiguous_dispatches-settles :
    (l : QueueLedger) (at : DateTime) {m : QueueLedger}
    → quarantine_ambiguous_dispatches l at ≡ ok m
    → All (λ j. is_uncorrelated_active j ≡ false) m.jobs × All (IsSettled l.jobs) m.blocks
unfolding quarantine_ambiguous_dispatches
quarantine_ambiguous_dispatches-settles l at {m} h =
    both (map_result (quarantine_block (ambiguous_block_ids l)) l.blocks)
      (map_result quarantine_job l.jobs) refl refl
  where
    both :
        (r : Result (List QueueBlock)) (q : Result (List QueueJob))
        → map_result (quarantine_block (ambiguous_block_ids l)) l.blocks ≡ r
        → map_result quarantine_job l.jobs ≡ q
        → All (λ j. is_uncorrelated_active j ≡ false) m.jobs × All (IsSettled l.jobs) m.blocks
    both (err e) q f g = absurd (ground arith)
    both (ok bs) (err e) f g = absurd (ground arith)
    both (ok bs) (ok js) f g = IsSettled-of l at {m = m} bs js (ground arith) f g

map_result-ok :
    {A : Type 0} (f : A → Result A) (xs : List A)
    → All (λ x. f x ≡ ok x) xs
    → map_result f xs ≡ ok xs
unfolding map_result
map_result-ok f [] h = refl
map_result-ok f (x ∷ xs) h = ground (arith, h.0, map_result-ok f xs h.1)

select-none :
    {A : Type 0} (p : A → Bool) (xs : List A) → All (λ x. p x ≡ false) xs → select p xs ≡ []
unfolding select
select-none p [] h = refl
select-none p (x ∷ xs) h = ground (arith, h.0, select-none p xs h.1)

no_ambiguous_ids :
    (m : QueueLedger) (jobs : List QueueJob)
    → All (λ j. is_uncorrelated_active j ≡ false) m.jobs
    → All (IsSettled jobs) m.blocks
    → ambiguous_block_ids m ≡ []
unfolding ambiguous_block_ids
no_ambiguous_ids m jobs h k =
    let blocks : select is_ambiguous_block m.blocks ≡ [] =
      select-none is_ambiguous_block m.blocks
        (All-map_impl _ _ m.blocks (λ b s. not_ambiguous b s) k) in
    rw (blocks, select-none is_uncorrelated_active m.jobs h)
  where
    not_ambiguous : (b : QueueBlock) → IsSettled jobs b → is_ambiguous_block b ≡ false
    not_ambiguous b s = elim (Bool-cases (contains b.state active_block_states)) [
      | inl e ↦ ground (arith, (s e).0)
      | inr e ↦ ground arith
    ]

-- A second restart changes no block and no job: what it does is to count the revision up and to note
-- the time, and then to check the ledger.
pub quarantine_ambiguous_dispatches-again :
    (l : QueueLedger) (at at' : DateTime) {m : QueueLedger}
    → quarantine_ambiguous_dispatches l at ≡ ok m
    → quarantine_ambiguous_dispatches m at'
      ≡ make_ledger (record m { revision = incℤ m.revision; last_reconciled_at = some at' })
unfolding quarantine_ambiguous_dispatches quarantine_block quarantine_job contains
quarantine_ambiguous_dispatches-again l at at' {m} h =
    let (jobs, blocks) = quarantine_ambiguous_dispatches-settles l at h in
    let none_listed = no_ambiguous_ids m l.jobs jobs blocks in
    let same_blocks : map_result (quarantine_block (ambiguous_block_ids m)) m.blocks ≡ ok m.blocks =
      rw none_listed (map_result-ok (quarantine_block []) m.blocks (keep_blocks m.blocks)) in
    let same_jobs : map_result quarantine_job m.jobs ≡ ok m.jobs =
      map_result-ok quarantine_job m.jobs
        (All-map_impl _ _ m.jobs (λ j s. ground (arith, s)) jobs) in
    ground (arith, same_blocks, same_jobs)
  where
    keep_blocks : (bs : List QueueBlock) → All (λ b. quarantine_block [] b ≡ ok b) bs
    keep_blocks [] = tt
    keep_blocks (b ∷ bs) = (refl, keep_blocks bs)
