-- ===== src/Safety/Live.antt =====
-- Which blocks integration_observer.py touches: those with a job on its way, none of which has ended.
use ha_vacuum_planner.Base.{
  >>=-eq-ok, All, Bool, Bool-cases, List, Result, String, [], ap, arith, contains, false,
  if◌then◌else◌, inl, inr, int_eq, map, nat_eq, ok, select, string_eq, subst, sym, to_set, true,
  ◌++◌, ◌==◌, ◌∙◌, ◌∷◌, ◌≡◌,
}
use ha_vacuum_planner.Models.{
  BlockState, DateTime, JobState, QueueBlock, QueueJob, QueueLedger, block_guarantee_eq,
  block_ids_of, block_kind_eq, block_state_eq, dispatch_strategy_eq, is_terminal_block,
  job_state_eq, make_ledger, mode_eq, preferred_mode_eq,
}
use ha_vacuum_planner.Queue.{active_job_states}
use ha_vacuum_planner.Laws.Keyed.{All-map_impl, contains-append}
use ha_vacuum_planner.Laws.Sets.{contains-to_set_lem}
use ha_vacuum_planner.Safety.Graph.{Agrees, All-swap, make_ledger-Agrees}
use ha_vacuum_planner.Observer.{
  affected_block_ids, block_ids_where, dispatching_block_ids, is_dispatched,
}

abbrev pub is_live : QueueJob → Bool
is_live j = contains j.state active_job_states

-- the blocks of the jobs that are on their way
abbrev pub live_block_ids : List QueueJob → List String
live_block_ids js = map (λ j. j.block_id) (select is_live js)

live_block :
    (b : QueueBlock) (js : List QueueJob)
    → All (λ j. Agrees j b) js
    → contains b.block_id (live_block_ids js) ≡ true
    → is_terminal_block b ≡ false
unfolding select contains
live_block b [] h c = absurd (ground arith)
live_block b (j ∷ js) h c = ground (arith, live_block b js h.1, h.0)

-- A block with a job on its way has not ended.
pub live_blocks :
    (l : QueueLedger)
    → make_ledger l ≡ ok l
    → All
        (λ b. contains b.block_id (live_block_ids l.jobs) ≡ true → is_terminal_block b ≡ false)
        l.blocks
live_blocks l made =
    All-map_impl (λ b. All (λ j. Agrees j b) l.jobs) _ l.blocks (λ b h. live_block b l.jobs h)
      (All-swap Agrees l.jobs l.blocks (make_ledger-Agrees l made))

-- each of the identities is that of a block with a job on its way
abbrev pub OfLive : QueueLedger → List String → Type 0
OfLive l ids = (id : String) → contains id ids ≡ true → contains id (live_block_ids l.jobs) ≡ true

is_dispatched-is_live :
    (committing : List String) (at : DateTime) (j : QueueJob)
    → is_dispatched committing at j ≡ ok true
    → is_live j ≡ true
unfolding is_dispatched contains
is_dispatched-is_live committing at j h = ground arith

-- an identity of the list that one more job may lengthen
grown :
    (b : Bool) (j : QueueJob) (js : List QueueJob) (rest : List String) (id : String)
    → (b ≡ true → is_live j ≡ true)
    → (contains id rest ≡ true → contains id (live_block_ids js) ≡ true)
    → contains id (if b then j.block_id ∷ rest else rest) ≡ true
    → contains id (live_block_ids (j ∷ js)) ≡ true
unfolding contains select
grown true j js rest id live ih c = ground arith
grown false j js rest id live ih c = ground arith

module _ (test : QueueJob → Result Bool)
    (live : (j : QueueJob) → test j ≡ ok true → is_live j ≡ true) where
  block_ids_where-live :
      (js : List QueueJob) (ids : List String)
      → block_ids_where test js ≡ ok ids
      → (id : String) → contains id ids ≡ true
      → contains id (live_block_ids js) ≡ true
  unfolding block_ids_where contains
  block_ids_where-live [] ids h id c =
      absurd (ground (arith, subst (λ x. contains id x ≡ true) {x = ids} {y = []} (ground arith) c))
  block_ids_where-live (j ∷ js) ids h id c =
      let (b, chosen, h') = >>=-eq-ok (test j) _ {result = ids} h in
      let (rest, others, last) = >>=-eq-ok (block_ids_where test js) _ {result = ids} h' in
      grown b j js rest id (λ e. live j (chosen ∙ ap ok e)) (block_ids_where-live js rest others id)
        (subst (λ x. contains id x ≡ true) {x = ids} (ground (arith, last)) c)

-- The blocks whose dispatch is in flight have jobs on their way.
pub dispatching-OfLive :
    (l : QueueLedger) (at : DateTime) {ids : List String}
    → dispatching_block_ids l at ≡ ok ids
    → OfLive l ids
unfolding dispatching_block_ids
dispatching-OfLive l at {ids} h id c =
    let committing = block_ids_of (select (λ b. b.state == BlockState.committing) l.blocks) in
    let (found, run, last) =
      >>=-eq-ok (block_ids_where (is_dispatched committing at) l.jobs) _ {result = ids} h in
    block_ids_where-live (is_dispatched committing at) (is_dispatched-is_live committing at) l.jobs
      found run id
      (sym (contains-to_set_lem id found)
        ∙ subst (λ x. contains id x ≡ true) {x = ids} {y = to_set found} (ground (arith, last)) c)

select-live :
    (p : QueueJob → Bool)
    → ((j : QueueJob) → p j ≡ true → is_live j ≡ true)
    → (js : List QueueJob) (id : String) → contains id (map (λ j. j.block_id) (select p js)) ≡ true
    → contains id (live_block_ids js) ≡ true
unfolding select contains
select-live p live [] id c = c
select-live p live (j ∷ js) id c = ground (arith, live j, select-live p live js id)

accepted_is_live :
    (j : QueueJob)
    → contains j.state (JobState.accepted ∷ JobState.running ∷ []) ≡ true
    → is_live j ≡ true
unfolding contains
accepted_is_live j h = ground arith

-- So have the blocks that a failure or an unclear state touches.
pub affected-OfLive :
    (l : QueueLedger) (at : DateTime) {ids : List String}
    → affected_block_ids l at ≡ ok ids
    → OfLive l ids
unfolding affected_block_ids
affected-OfLive l at {ids} h id c =
    let (flying, run, last) = >>=-eq-ok (dispatching_block_ids l at) _ {result = ids} h in
    let accepted =
      map (λ (j : QueueJob). j.block_id)
        (select (λ j. contains j.state (JobState.accepted ∷ JobState.running ∷ [])) l.jobs) in
    let member : contains id (accepted ++ flying) ≡ true =
      sym (contains-to_set_lem id (accepted ++ flying))
      ∙ subst (λ x. contains id x ≡ true) {x = ids} {y = to_set (accepted ++ flying)}
          (ground (arith, last)) c in
    elim (Bool-cases (contains id accepted)) [
      | inl e ↦ select-live _ accepted_is_live l.jobs id e
      | inr e ↦ dispatching-OfLive l at run id (ground (arith, contains-append id accepted flying))
    ]
