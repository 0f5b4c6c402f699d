-- ===== src/Safety/Rewrites.antt =====
-- An edit that rewrites every block and every job, as `replace(ledger, blocks=..., jobs=...)` does.
use ha_vacuum_planner.Base.{
  All, List, Result, [], arith, incℤ, map_result, ok, refl, some, sym, ◌∷◌, ◌≡◌,
}
use ha_vacuum_planner.Models.{
  DateTime, QueueBlock, QueueJob, QueueLedger, make_block, make_job, make_ledger,
}
use ha_vacuum_planner.Laws.History.{
  Extends, Extends-map_result, Follows, IsValid, KeepsBlock, KeepsJob, length-map_result,
  open_count-Extends,
}
use ha_vacuum_planner.Safety.Edits.{Follows-edit}

pub map_result-All :
    {A : Type 0} (P Q : A → Type 0) (f : A → Result A)
    → ((a b : A) → P a → f a ≡ ok b → Q b)
    → (xs ys : List A) → All P xs
    → map_result f xs ≡ ok ys
    → All Q ys
unfolding map_result
map_result-All P Q f k xs [] h e = tt
map_result-All P Q f k [] (y ∷ ys) h e = absurd (ground arith)
map_result-All P Q f k (x ∷ xs) (y ∷ ys) h e =
    (k x y h.0 (ground arith), map_result-All P Q f k xs ys h.1 (ground arith))

module _ (l : QueueLedger) (at : DateTime) (change_block : QueueBlock → Result QueueBlock)
    (change_job : QueueJob → Result QueueJob) (P : QueueBlock → Type 0)
    (blocks_keep : (b c : QueueBlock)
      → P b
      → change_block b ≡ ok c
      → KeepsBlock b c × (make_block c ≡ ok c))
    (jobs_keep : (j k : QueueJob)
      → make_job j ≡ ok j
      → change_job j ≡ ok k
      → KeepsJob j k × (make_job k ≡ ok k))
    {m : QueueLedger} (v : IsValid l) (before : All P l.blocks) where
  -- What changes each block and each job as the history allows keeps the ledger's history.
  pub Follows-rewrite :
      {bs : List QueueBlock} {js : List QueueJob}
      → map_result change_block l.blocks ≡ ok bs
      → map_result change_job l.jobs ≡ ok js
      → make_ledger (record l {
        revision = incℤ l.revision;
        blocks = bs;
        jobs = js;
        last_reconciled_at = some at;
      })
        ≡ ok m
      → Follows l m
  Follows-rewrite {bs} {js} f g made =
      let kept : Extends KeepsBlock l.blocks bs =
        Extends-map_result KeepsBlock P change_block (λ b c p e. (blocks_keep b c p e).0) l.blocks
          bs before f in
      Follows-edit l
        (record l {
          revision = incℤ l.revision;
          blocks = bs;
          jobs = js;
          last_reconciled_at = some at;
        })
        refl refl kept
        (Extends-map_result KeepsJob (λ j. make_job j ≡ ok j) change_job
          (λ j k p e. (jobs_keep j k p e).0) l.jobs js v.jobs g)
        (λ lane. omega (
          arith,
          open_count-Extends lane l.blocks bs kept
              (sym (length-map_result change_block l.blocks bs f)),
        ))
        (map_result-All P (λ c. make_block c ≡ ok c) change_block
          (λ b c p e. (blocks_keep b c p e).1) l.blocks bs before f)
        (map_result-All (λ j. make_job j ≡ ok j) (λ j. make_job j ≡ ok j) change_job
          (λ j k p e. (jobs_keep j k p e).1) l.jobs js v.jobs g)
        made
