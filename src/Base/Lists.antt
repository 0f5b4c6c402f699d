-- ===== src/Base/Lists.antt =====
-- Lists as the source's tuples and sets.
use Prim.Native.Nat.{ℕ, suc, ◌≤◌}
use mathlib.Core.Path.{◌≡◌, refl}
use mathlib.Core.Bool.{Bool, true, false, not, ◌&&◌, ◌||◌}
use mathlib.Core.Option.{Option, none, some}
use mathlib.Core.List.{List, [], ◌∷◌}
use native.Mathlib.Omega.{arith}
use ha_vacuum_planner.Base.Tests.{Eq, ◌==◌, if◌then◌else◌, nat_beq}

module _ {ℓ} {A : Type ℓ} where
  abbrev pub length : List A → ℕ
  length [] = 0
  length (x ∷ xs) = suc (length xs)

  abbrev pub is_empty : List A → Bool
  is_empty [] = true
  is_empty (x ∷ xs) = false

  -- `any(p(x) for x in xs)` and `all(...)`
  unfoldable pub any : (A → Bool) → List A → Bool
  any p [] = false
  any p (x ∷ xs) = p x || any p xs

  unfoldable pub all : (A → Bool) → List A → Bool
  all p [] = true
  all p (x ∷ xs) = p x && all p xs

  -- `[x for x in xs if p(x)]`
  unfoldable pub select : (A → Bool) → List A → List A
  select p [] = []
  select p (x ∷ xs) = let rest = select p xs in if p x then x ∷ rest else rest

  -- `next((x for x in xs if p(x)), None)`
  unfoldable pub find : (A → Bool) → List A → Option A
  find p [] = none
  find p (x ∷ xs) = let rest = find p xs in if p x then some x else rest

  -- `tuple(changed if p(x) else x for x in xs)`
  unfoldable pub replace_where : (A → Bool) → A → List A → List A
  replace_where p changed [] = []
  replace_where p changed (x ∷ xs) = (if p x then changed else x) ∷ replace_where p changed xs

  -- the elements that stand before the first one with `p`: `xs[:xs.index(x)]`
  unfoldable pub take_before : (A → Bool) → List A → List A
  take_before p [] = []
  take_before p (x ∷ xs) = let rest = take_before p xs in if p x then [] else x ∷ rest

  -- `==` of two tuples, by the `==` of their elements
  unfoldable pub list_beq : (A → A → Bool) → List A → List A → Bool
  list_beq beq [] [] = true
  list_beq beq (x ∷ xs) (y ∷ ys) = beq x y && list_beq beq xs ys
  list_beq beq _ _ = false

  abbrev pub All {κ} : (A → Type κ) → List A → Type κ
  All P [] = Unit
  All P (x ∷ xs) = P x × All P xs

-- `tuple(id_factory() for _ in xs)`, where the n-th call of `id_factory` returns `ids n`
unfoldable pub draw_ids {ℓ κ} : {A : Type ℓ} {I : Type κ} → (ℕ → I) → ℕ → List A → List I
draw_ids ids n [] = []
draw_ids ids n (x ∷ xs) = ids n ∷ draw_ids ids (suc n) xs

module _ {ℓ} {A : Type ℓ} ⦃e : Eq A⦄ where
  -- `a in xs`
  unfoldable pub contains : A → List A → Bool
  contains a [] = false
  contains a (x ∷ xs) = a == x || contains a xs

  -- `set(xs)`, as the list of its members
  unfoldable pub to_set : List A → List A
  unfolding contains
  to_set [] = []
  to_set (x ∷ xs) = let rest = to_set xs in if contains x rest then rest else x ∷ rest

  -- `xs.issubset(ys)` and `xs == ys`, of sets
  unfoldable pub subset : List A → List A → Bool
  unfolding contains all
  subset xs ys = all (λ x. contains x ys) xs

  unfoldable pub set_eq : List A → List A → Bool
  unfolding subset
  set_eq xs ys = subset xs ys && subset ys xs

  -- `len(xs) != len(set(xs))`
  unfoldable pub has_duplicates : List A → Bool
  unfolding to_set
  has_duplicates xs = not (nat_beq (length xs) (length (to_set xs)))

  -- No value stands twice.
  unfoldable pub distinct : List A → Bool
  unfolding contains
  distinct [] = true
  distinct (x ∷ xs) = not (contains x xs) && distinct xs

  length-to_set-le : (xs : List A) → length (to_set xs) ≤ length xs
  unfolding to_set
  length-to_set-le [] = omega arith
  length-to_set-le (x ∷ xs) = ground (arith, length-to_set-le xs)

  contains-to_set : (a : A) (xs : List A) → contains a (to_set xs) ≡ contains a xs
  unfolding to_set contains
  contains-to_set a [] = refl
  contains-to_set a (x ∷ xs) =
      ground (arith, contains-to_set a xs, contains-to_set x xs, e.beq_iff a x)

  pub has_duplicates-eq-distinct : (xs : List A) → has_duplicates xs ≡ not (distinct xs)
  unfolding has_duplicates distinct to_set contains
  has_duplicates-eq-distinct [] = refl
  has_duplicates-eq-distinct (x ∷ xs) =
      ground (arith, has_duplicates-eq-distinct xs, contains-to_set x xs, length-to_set-le xs)
