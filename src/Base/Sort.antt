-- ===== src/Base/Sort.antt =====
-- `sorted`, a stable sort that reads only `<`.
use mathlib.Core.Path.{◌≡◌, refl}
use mathlib.Core.Bool.{Bool, true, false}
use mathlib.Core.List.{List, [], ◌∷◌}
use native.Mathlib.Omega.{arith}
use ha_vacuum_planner.Base.Tests.{if◌then◌else◌}

module _ {ℓ} {A : Type ℓ} (lt : A → A → Bool) where
  unfoldable pub insert_by : A → List A → List A
  insert_by x [] = x ∷ []
  insert_by x (y ∷ ys) = let rest = insert_by x ys in if lt y x then y ∷ rest else x ∷ y ∷ ys

  unfoldable pub sort_by : List A → List A
  unfolding insert_by
  sort_by [] = []
  sort_by (x ∷ xs) = insert_by x (sort_by xs)

  -- No element is followed by a smaller one.
  abbrev pub Ordered : List A → Type 0
  Ordered [] = Unit
  Ordered (x ∷ []) = Unit
  Ordered (x ∷ y ∷ ys) = (lt y x ≡ false) × Ordered (y ∷ ys)

  pub sort_by_fixed : (xs : List A) → Ordered xs → sort_by xs ≡ xs
  unfolding sort_by
  sort_by_fixed [] h = refl
  sort_by_fixed (x ∷ []) h = refl
  sort_by_fixed (x ∷ y ∷ ys) h = rw (sort_by_fixed (y ∷ ys) h.1, h.0)

  module _ (asym : (a b : A) → lt a b ≡ true → lt b a ≡ false) where
    insert_by-Ordered : (x : A) (ys : List A) → Ordered ys → Ordered (insert_by x ys)
    unfolding insert_by
    insert_by-Ordered x [] h = tt
    insert_by-Ordered x (y ∷ []) h = ground (arith, asym y x)
    insert_by-Ordered x (y ∷ z ∷ zs) h = ground (arith, asym y x, insert_by-Ordered x (z ∷ zs) h.1)

    pub sort_by-Ordered : (xs : List A) → Ordered (sort_by xs)
    unfolding sort_by
    sort_by-Ordered [] = tt
    sort_by-Ordered (x ∷ xs) = insert_by-Ordered x (sort_by xs) (sort_by-Ordered xs)
