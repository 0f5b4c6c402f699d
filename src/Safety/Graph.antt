-- ===== src/Safety/Graph.antt =====
-- The graph of blocks and jobs: which block a job belongs to, and what the block's state says of it.
use ha_vacuum_planner.Base.{
  All, Bool, Bool-cases, List, Result, String, [], all, any, arith, contains, distinct, err, false,
  inl, inr, int_eq, map, map_result, nat_eq, none, not, ok, refl, set_eq, some, string_eq, subset,
  subst, true, ◌++◌, ◌==◌, ◌||◌, ◌∷◌, ◌≡◌,
}
use ha_vacuum_planner.Models.{
  Created, QueueBlock, QueueJob, QueueLedger, block_guarantee_eq, block_ids_of, block_kind_eq,
  block_state_eq, check_block, check_blocks, dispatch_strategy_eq, is_terminal_block,
  is_terminal_job, job_by_id, job_ids_of, job_state_eq, make_ledger, mode_eq, preferred_mode_eq,
  require_job, validate_ledger, validate_ledger_references,
}
use ha_vacuum_planner.Laws.Keyed.{All-map_impl, contains-append, has_key, no_key}
use ha_vacuum_planner.Safety.Edits.{distinct_ids}

-- `a` is one of the elements, as far as a test can tell.
abbrev pub All2 : {A B : Type 0} → (A → B → Type 0) → List A → List B → Type 0
All2 R xs ys = All (λ x. All (λ y. R x y) ys) xs

-- An `All` over an `All` can be read the other way round.
pub All-swap :
    {A B : Type 0} (R : A → B → Type 0) (xs : List A) (ys : List B)
    → All2 R xs ys
    → All2 (λ y x. R x y) ys xs
All-swap R xs [] h = tt
All-swap R xs (y ∷ ys) h = (
  All-map_impl (λ x. R x y × All (λ z. R x z) ys) (λ x. R x y) xs (λ x k. k.0) h,
  All-swap R xs ys (
      All-map_impl (λ x. R x y × All (λ z. R x z) ys) (λ x. All (λ z. R x z) ys) xs (λ x k. k.1) h),
)

-- The search in a dictionary of jobs finds nothing where no job has the identity.
job_by_id-none :
    (id : String) (js : List QueueJob)
    → contains id (job_ids_of js) ≡ false
    → job_by_id js id ≡ none
unfolding contains job_by_id
job_by_id-none id [] h = refl
job_by_id-none id (j ∷ js) h =
    ground
      (arith, job_by_id-none id js, string_eq.beq_iff id j.job_id, string_eq.beq_iff j.job_id id)

-- With distinct identities, each job is found under its own.
pub job_by_id-All :
    (js : List QueueJob)
    → distinct (job_ids_of js) ≡ true
    → All (λ j. job_by_id js j.job_id ≡ some j) js
unfolding distinct job_by_id
job_by_id-All [] h = tt
job_by_id-All (x ∷ js) h = (
  ground (arith, job_by_id-none x.job_id js, string_eq.beq_iff x.job_id x.job_id),
  All-map_impl _ _ js (λ j k. rw k refl) (job_by_id-All js (ground arith)),
)

module _ (jobs : List QueueJob) where
  -- What holds of all the jobs that a block lists holds of the job that one of its identities names.
  listed_job :
      (p : QueueJob → Bool) (ids : List String) (js : List QueueJob) (id : String) (j : QueueJob)
      → map_result (require_job jobs) ids ≡ ok js
      → contains id ids ≡ true
      → job_by_id jobs id ≡ some j
      → any p js ≡ false
      → p j ≡ false
  unfolding map_result require_job contains any
  listed_job p [] js id j m c f a = cc
  listed_job p (i ∷ ids) [] id j m c f a = absurd (ground arith)
  listed_job p (i ∷ ids) (k ∷ js) id j m c f a = elim (Bool-cases (id == i)) [
    | inl e ↦
        let same : id ≡ i = (string_eq.beq_iff id i).0 e in
        let found : job_by_id jobs i ≡ some j = subst (λ x. job_by_id jobs x ≡ some j) same f in
        ground (arith, found)
    | inr e ↦ listed_job p ids js id j (ground arith) (ground arith) f (ground arith)
  ]

module _ (jobs : List QueueJob) (b : QueueBlock) (j : QueueJob)
    (checked : check_block jobs b ≡ ok tt) (listed : contains j.job_id b.job_ids ≡ true)
    (found : job_by_id jobs j.job_id ≡ some j) where
  abbrev pub Owned : Type 0
  Owned =
      ((j.block_id == b.block_id) ≡ true) × (is_terminal_block b ≡ true → is_terminal_job j ≡ true)

  owned_of : (r : Result (List QueueJob)) → map_result (require_job jobs) b.job_ids ≡ r → Owned
  unfolding check_block
  owned_of (err e) m = absurd (ground arith)
  owned_of (ok js) m = (
    ground (
      arith,
      listed_job jobs (λ k. not (k.block_id == b.block_id)) b.job_ids js j.job_id j m listed found,
    ),
    λ t. ground (
      arith,
      listed_job jobs (λ k. not (is_terminal_job k)) b.job_ids js j.job_id j m listed found,
    ),
  )

  -- A block that has been checked owns each job that it lists, and a block that has ended lists only
  -- jobs that have ended.
  pub check_block-listed : Owned
  check_block-listed = owned_of _ refl

-- if the job names the block, then the block lists the job, and has not ended unless the job has
abbrev pub Agrees : QueueJob → QueueBlock → Type 0
Agrees j b =
    (b.block_id == j.block_id) ≡ true
    → (contains j.job_id b.job_ids ≡ true) × (is_terminal_block b ≡ true → is_terminal_job j ≡ true)

module _ (jobs : List QueueJob) (j : QueueJob) (found : job_by_id jobs j.job_id ≡ some j) where
  abbrev listing : QueueBlock → Bool
  listing b = contains j.job_id b.job_ids

  -- The block that lists the job is the one that the job names.
  listed_owner :
      (bs : List QueueBlock)
      → All (λ b. check_block jobs b ≡ ok tt) bs
      → any listing bs ≡ true
      → contains j.block_id (block_ids_of bs) ≡ true
  unfolding any contains
  listed_owner [] h k = cc
  listed_owner (b ∷ bs) h k = elim (Bool-cases (listing b)) [
    | inl e ↦ ground (arith, (check_block-listed jobs b j h.0 e found).0)
    | inr e ↦ ground (arith, listed_owner bs h.1)
  ]

  owned_by :
      (bs : List QueueBlock)
      → distinct (block_ids_of bs) ≡ true
      → All (λ b. check_block jobs b ≡ ok tt) bs
      → any listing bs ≡ true
      → All (Agrees j) bs
  unfolding any distinct
  owned_by [] d h k = tt
  owned_by (b ∷ bs) d h k = elim (Bool-cases (listing b)) [
    | inl e ↦
        let (here, ended) = check_block-listed jobs b j h.0 e found in
        let same : j.block_id ≡ b.block_id = (string_eq.beq_iff j.block_id b.block_id).0 here in
        (
          λ _. (e, ended),
          All-map_impl (λ c. has_key (λ b. b.block_id) b.block_id c ≡ false) (Agrees j) bs
              (λ c other named. absurd (ground (arith, same)))
              (no_key (λ b. b.block_id) b.block_id bs (ground arith)),
        )
    | inr e ↦ (
      λ named. absurd (
          ground (
            arith,
            listed_owner bs h.1 (ground arith),
            (string_eq.beq_iff b.block_id j.block_id).0 named,
          )),
      owned_by bs (ground arith) h.1 (ground arith),
    )
  ]

-- The loop over the blocks has checked each of them, and lists what they list.
check_blocks-All :
    (jobs : List QueueJob) (created : Created) (listed : List String) (bs : List QueueBlock)
    {out : List String}
    → check_blocks jobs created listed bs ≡ ok out
    → All (λ b. check_block jobs b ≡ ok tt) bs
      × ((id : String)
          → contains id out ≡ (contains id listed || any (λ b. contains id b.job_ids) bs))
unfolding check_blocks any
check_blocks-All jobs created listed [] h = (tt, λ id. ground arith)
check_blocks-All jobs created listed (b ∷ bs) {out} h =
    let (checked, lists) =
      check_blocks-All jobs ((b.lane_id, b.created_at) ∷ created) (listed ++ b.job_ids) bs
        {out = out} (ground arith) in
    ((ground arith, checked), λ id. ground (arith, lists id, contains-append id listed b.job_ids))

all-All : {A : Type 0} (p : A → Bool) (xs : List A) → all p xs ≡ true → All (λ x. p x ≡ true) xs
unfolding all
all-All p [] h = tt
all-All p (x ∷ xs) h = (ground arith, all-All p xs (ground arith))

pub All-unit : {A : Type 0} (xs : List A) → All (λ _. Unit {0}) xs
All-unit [] = tt
All-unit (x ∷ xs) = (tt, All-unit xs)

pub All-map :
    {A B : Type 0} (P : B → Type 0) (f : A → B) (xs : List A)
    → All P (map f xs)
    → All (λ x. P (f x)) xs
All-map P f [] h = tt
All-map P f (x ∷ xs) h = (h.0, All-map P f xs h.1)

pub All-both :
    {A : Type 0} (P Q : A → Type 0) (xs : List A) → All P xs → All Q xs → All (λ x. P x × Q x) xs
All-both P Q [] h k = tt
All-both P Q (x ∷ xs) h k = ((h.0, k.0), All-both P Q xs h.1 k.1)

module _ (l : QueueLedger) (made : make_ledger l ≡ ok l) where
  abbrev Listed : List String → QueueJob → Type 0
  Listed out j = (job_by_id l.jobs j.job_id ≡ some j) × (contains j.job_id out ≡ true)

  owned_from :
      (out : List String)
      → check_blocks l.jobs [] [] l.blocks ≡ ok out
      → (j : QueueJob) → Listed out j
      → All (Agrees j) l.blocks
  unfolding contains
  owned_from out c j (found, listed) =
      let (checked, lists) = check_blocks-All l.jobs [] [] l.blocks c in
      owned_by l.jobs j found l.blocks (distinct_ids l made).0 checked
        (ground (arith, lists j.job_id))

  graph_of :
      (r : Result (List String))
      → check_blocks l.jobs [] [] l.blocks ≡ r
      → All (λ j. All (Agrees j) l.blocks) l.jobs
  unfolding make_ledger validate_ledger validate_ledger_references set_eq subset
  graph_of (err e) c = absurd (ground arith)
  graph_of (ok out) c =
      let listed : all (λ id. contains id out) (job_ids_of l.jobs) ≡ true = ground arith in
      All-map_impl (Listed out) (λ j. All (Agrees j) l.blocks) l.jobs (owned_from out c)
        (All-both (λ j. job_by_id l.jobs j.job_id ≡ some j) (λ j. contains j.job_id out ≡ true)
          l.jobs (job_by_id-All l.jobs (distinct_ids l made).1)
          (All-map (λ id. contains id out ≡ true) (λ j. j.job_id) l.jobs
            (all-All (λ id. contains id out) (job_ids_of l.jobs) listed)))

  -- In a ledger that its constructor accepts, the block that a job names lists the job, and has not
  -- ended while the job has not.
  pub make_ledger-Agrees : All (λ j. All (Agrees j) l.blocks) l.jobs
  make_ledger-Agrees = graph_of _ refl
