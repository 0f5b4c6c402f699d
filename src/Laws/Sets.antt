-- ===== src/Laws/Sets.antt =====
-- Sets as the lists of their members: what `to_set` keeps.
use ha_vacuum_planner.Base.{
  Bool, Bool-cases, Eq, List, [], all, any, ap, arith, contains, false, inl, inr, int_eq, is_empty,
  length, ltb, nat_beq, nat_eq, not, refl, string_eq, subst, sym, to_set, true, ◌==◌, ◌∙◌, ◌∷◌, ◌≡◌,
  ◌≤◌,
}

module _ {ℓ} {A : Type ℓ} ⦃e : Eq A⦄ (p : A → Bool) where
  any-contains : (a : A) (xs : List A) → contains a xs ≡ true → p a ≡ true → any p xs ≡ true
  unfolding contains any
  any-contains a [] h k = cc
  any-contains a (x ∷ xs) h k = elim (Bool-cases (a == x)) [
    | inl here ↦
        let same : p x ≡ true = subst (λ y. p y ≡ true) ((e.beq_iff a x).0 here) k in
        ground (arith, same)
    | inr there ↦ ground (arith, any-contains a xs)
  ]

  pub any-to_set : (xs : List A) → any p (to_set xs) ≡ any p xs
  unfolding any to_set
  any-to_set [] = refl
  any-to_set (x ∷ xs) = ground (arith, any-to_set xs, any-contains x (to_set xs))

all-not-any {ℓ} :
    {A : Type ℓ} (p : A → Bool) (xs : List A) → all p xs ≡ not (any (λ x. not (p x)) xs)
unfolding any all
all-not-any p [] = refl
all-not-any p (x ∷ xs) = ground (arith, all-not-any p xs)

module _ {ℓ} {A : Type ℓ} ⦃e : Eq A⦄ where
  pub all-to_set : (p : A → Bool) (xs : List A) → all p (to_set xs) ≡ all p xs
  all-to_set p xs =
      all-not-any p (to_set xs) ∙ ap not (any-to_set (λ x. not (p x)) xs) ∙ sym (all-not-any p xs)

  pub contains-any : (a : A) (xs : List A) → contains a xs ≡ any (λ x. x == a) xs
  unfolding contains any
  contains-any a [] = refl
  contains-any a (x ∷ xs) = ground (arith, contains-any a xs, e.beq_iff a x, e.beq_iff x a)

  pub contains-to_set_lem : (a : A) (xs : List A) → contains a (to_set xs) ≡ contains a xs
  contains-to_set_lem a xs =
      contains-any a (to_set xs) ∙ any-to_set (λ x. x == a) xs ∙ sym (contains-any a xs)

  -- A set is empty exactly when its list is.
  pub length-to_set-zero : (xs : List A) → nat_beq (length (to_set xs)) 0 ≡ is_empty xs
  unfolding to_set contains
  length-to_set-zero [] = refl
  length-to_set-zero (x ∷ xs) = elim (Bool-cases (contains x (to_set xs))) [
    | inl old ↦ rw (old, to_set) (member x (to_set xs) old)
    | inr new ↦ ground (arith, new)
  ]
    where
      member : (a : A) (ys : List A) → contains a ys ≡ true → nat_beq (length ys) 0 ≡ false
      member a [] h = cc
      member a (y ∷ ys) h = ground arith

  two_members :
      (c : A) (ys : List A)
      → contains c ys ≡ true
      → any (λ x. not (x == c)) ys ≡ true
      → 2 ≤ length ys
  unfolding contains any
  two_members c [] h k = absurd (cc)
  two_members c (y ∷ []) h k = absurd (ground (arith, e.beq_iff c y, e.beq_iff y c))
  two_members c (y ∷ z ∷ ys) h k = omega arith

  one_member : (c : A) (xs : List A) → any (λ x. not (x == c)) xs ≡ false → length (to_set xs) ≤ 1
  unfolding any to_set contains
  one_member c [] h = omega arith
  one_member c (x ∷ []) h = omega arith
  one_member c (x ∷ y ∷ xs) h = ground (
    arith,
    one_member c (y ∷ xs),
    e.beq_iff x c,
    e.beq_iff y c,
    e.beq_iff x y,
    contains-to_set_lem x (y ∷ xs),
  )

  -- A set with a member `c` has fewer than two members exactly when all that it lists is `c`.
  pub length-to_set-lt_two :
      (c : A) (xs : List A)
      → contains c xs ≡ true
      → ltb (length (to_set xs)) 2 ≡ not (any (λ x. not (x == c)) xs)
  length-to_set-lt_two c xs h = elim (Bool-cases (any (λ x. not (x == c)) xs)) [
    | inl other ↦ ground (
      arith,
      two_members c (to_set xs) (contains-to_set_lem c xs ∙ h)
          (any-to_set (λ x. not (x == c)) xs ∙ other),
    )
    | inr same ↦ ground (arith, one_member c xs same)
  ]
