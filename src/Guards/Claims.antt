-- ===== src/Guards/Claims.antt =====
-- The claim of a dispatch: it sends the whole batch, and no block is claimed twice.
use ha_vacuum_planner.Base.{
  >>=-eq-ok, Bool-cases, List, Option, String, [], arith, contains, false, find, inl, inr, int_eq,
  nat_eq, none, ok, refl, replace_where, some, string_eq, subst, sym, true, ◌==◌, ◌∷◌, ◌≡◌,
}
use ha_vacuum_planner.Models.{
  BlockState, DateTime, PlannerState, QueueBlock, block_guarantee_eq, block_kind_eq, block_state_eq,
  dispatch_strategy_eq, find_block, job_state_eq, make_state, mode_eq, preferred_mode_eq, put_block,
}
use ha_vacuum_planner.Queue.{begin_native_batch_commit}
use ha_vacuum_planner.Dispatch.{claim, claims}
use ha_vacuum_planner.Laws.Keyed.{find-holds}
use ha_vacuum_planner.Laws.Constructors.{make_state-eq}
use ha_vacuum_planner.Laws.History.{Extends, Follows, IsValid, KeepsBlock, planned_states}
use ha_vacuum_planner.Safety.Moves.{with_id}
use ha_vacuum_planner.Safety.Batches.{begin_native_batch_commit-Follows}
use ha_vacuum_planner.Safety.Commands.{Reach, Reach-Follows}
use ha_vacuum_planner.Rules.Batches.{SendsBatch, begin_native_batch_commit-SendsBatch}

-- A block that is found keeps its place in every later ledger.
Extends-find :
    (id : String) (bs cs : List QueueBlock) {b : QueueBlock}
    → Extends KeepsBlock bs cs
    → find (with_id id) bs ≡ some b
    → (c : QueueBlock) × (find (with_id id) cs ≡ some c) × KeepsBlock b c
unfolding find
Extends-find id [] cs e f = absurd (ground arith)
Extends-find id (x ∷ bs) [] e f = absurd e
Extends-find id (x ∷ bs) (y ∷ cs) {b} e f = elim (Bool-cases (with_id id x)) [
  | inl h ↦
      let same : x ≡ b = ground arith in
      let kept = e.0 in (y, ground (arith, kept.block_id), subst (λ z. KeepsBlock z y) same kept)
  | inr h ↦
      let (c, found, kept) = Extends-find id bs cs {b = b} e.1 (ground arith) in
      let kept_id = e.0 in (c, ground (arith, kept_id.block_id), kept)
]

find-put :
    (id : String) (bs : List QueueBlock) (n : QueueBlock) {b : QueueBlock}
    → with_id id n ≡ true
    → find (with_id id) bs ≡ some b
    → find (with_id id) (put_block id n bs) ≡ some n
unfolding find put_block replace_where
find-put id [] n same f = absurd (ground arith)
find-put id (x ∷ bs) n {b} same f = elim (Bool-cases (with_id id x)) [
  | inl h ↦ ground arith
  | inr h ↦ ground (arith, find-put id bs n {b = b} same)
]

-- what a claim that was made has written: the whole batch is sent, and the plan is as it was
pub record Claimed (id : String) (at : DateTime) (s t : PlannerState) : Type 0 where
  pub sends : SendsBatch s.ledger id at t.ledger
  pub history : Follows s.ledger t.ledger
  pub plan_revision : t.plan_revision ≡ s.plan_revision

module _ (id : String) (at : DateTime) (s : PlannerState) {t : PlannerState} (v : IsValid s.ledger)
    (h : claim id at s ≡ ok t) where
  claim_of :
      (b : QueueBlock)
      → (b.state == BlockState.sealed) ≡ true
      → find (with_id id) s.ledger.blocks ≡ some b
      → Claimed id at s t
  unfolding claim find_block
  claim_of b sealed_state f =
      let (n, sent, made) =
        >>=-eq-ok (begin_native_batch_commit s.ledger id at)
          (λ l. make_state (record s { ledger = l })) {result = t} (ground arith) in
      subst (λ x. Claimed id at s x) (sym (make_state-eq (record s { ledger = n }) made))
        (record {
          sends = begin_native_batch_commit-SendsBatch s.ledger id at v sent;
          history = begin_native_batch_commit-Follows s.ledger id at v sent;
          plan_revision = refl;
        })

  claim_from :
      (o : Option QueueBlock)
      → find (with_id id) s.ledger.blocks ≡ o
      → claims id s ≡ true
      → Claimed id at s t
  unfolding claims
  claim_from none f c = absurd (ground arith)
  claim_from (some b) f c = claim_of b (ground arith) f

  -- A claim that notes that it has claimed the block has sent its whole batch.
  pub claim-Claimed : claims id s ≡ true → Claimed id at s t
  claim-Claimed = claim_from _ refl

-- The block of a claim is committing.
Claimed-block :
    (id : String) (at : DateTime) (s t : PlannerState)
    → Claimed id at s t
    → (b : QueueBlock) × (find (with_id id) t.ledger.blocks ≡ some b)
      × (contains b.state planned_states ≡ false)
unfolding find_block contains
Claimed-block id at s t c = found_of _ refl
  where
    found_of :
        (o : Option QueueBlock)
        → find (with_id id) s.ledger.blocks ≡ o
        → (b : QueueBlock) × (find (with_id id) t.ledger.blocks ≡ some b)
          × (contains b.state planned_states ≡ false)
    found_of none f = absurd (ground (arith, c.sends.found))
    found_of (some b) f =
        let new : QueueBlock = record c.sends.block { state = BlockState.committing } in
        let same : b ≡ c.sends.block = ground (arith, c.sends.found) in
        let owner : with_id id c.sends.block ≡ true =
          subst (λ x. with_id id x ≡ true) same (find-holds (with_id id) s.ledger.blocks f) in
        (
          new,
          subst (λ bs. find (with_id id) bs ≡ some new) (sym c.sends.blocks)
              (find-put id s.ledger.blocks new owner f),
          refl,
        )

-- A block that was claimed in a valid ledger is never claimed again: whatever commands change the ledger afterwards, a
-- later claim of it claims nothing and leaves the state as it is.
pub claim_once :
    (id : String) (at again : DateTime) (s t u : PlannerState)
    → IsValid s.ledger
    → claims id s ≡ true
    → claim id at s ≡ ok t
    → Reach t.ledger u.ledger
    → (claims id u ≡ false) × (claim id again u ≡ ok u)
unfolding claims claim find_block contains
claim_once id at again s t u v first made later =
    let c = claim-Claimed id at s v made first in
    let (b, found, sent) = Claimed-block id at s t c in
    let after = Reach-Follows c.history.valid later in
    let (d, found', kept) = Extends-find id t.ledger.blocks u.ledger.blocks after.blocks found in
    let still : contains d.state planned_states ≡ false = kept.begun sent in
    (ground arith, ground arith)
