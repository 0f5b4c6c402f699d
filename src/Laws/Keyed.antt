-- ===== src/Laws/Keyed.antt =====
-- Lists whose elements have distinct keys, as blocks and jobs have their identities.
use ha_vacuum_planner.Base.{
  All, Bool, Bool-cases, List, String, [], arith, contains, distinct, false, find, inl, inr, int_eq,
  map, nat_eq, refl, replace_where, some, string_eq, subst, true, ◌++◌, ◌==◌, ◌||◌, ◌∷◌, ◌≡◌,
}

module _ {ℓ} {A : Type ℓ} where
  pub All-map_impl {κ μ} :
      (P : A → Type κ) (Q : A → Type μ) (xs : List A) → ((a : A) → P a → Q a) → All P xs → All Q xs
  All-map_impl P Q [] f h = tt
  All-map_impl P Q (x ∷ xs) f h = (f x h.0, All-map_impl P Q xs f h.1)

  pub All-append {κ} : (P : A → Type κ) (xs ys : List A) → All P xs → All P ys → All P (xs ++ ys)
  All-append P [] ys h k = k
  All-append P (x ∷ xs) ys h k = (h.0, All-append P xs ys h.1 k)

  pub find-holds : (p : A → Bool) (xs : List A) {a : A} → find p xs ≡ some a → p a ≡ true
  unfolding find
  find-holds p [] h = cc
  find-holds p (x ∷ xs) h = elim (Bool-cases (p x)) [
    | inl e ↦ subst (λ y. p y ≡ true) (ground arith) e
    | inr e ↦ find-holds p xs (ground arith)
  ]

  pub find-All {κ} :
      (P : A → Type κ) (p : A → Bool) (xs : List A) {a : A} → find p xs ≡ some a → All P xs → P a
  unfolding find
  find-All P p [] h k = absurd (cc)
  find-All P p (x ∷ xs) h k = elim (Bool-cases (p x)) [
    | inl e ↦ subst P (ground arith) k.0
    | inr e ↦ find-All P p xs (ground arith) k.1
  ]

  pub replace_where-All {κ} :
      (P : A → Type κ) (p : A → Bool) (c : A) (xs : List A)
      → P c
      → All P xs
      → All P (replace_where p c xs)
  unfolding replace_where
  replace_where-All P p c [] h k = tt
  replace_where-All P p c (x ∷ xs) h k = elim (Bool-cases (p x)) [
    | inl e ↦ rw e (h, replace_where-All P p c xs h k.1)
    | inr e ↦ rw e (k.0, replace_where-All P p c xs h k.1)
  ]

module _ {ℓ} {A : Type ℓ} (key : A → String) where
  abbrev pub has_key : String → A → Bool
  has_key id a = key a == id

  pub no_key :
      (id : String) (xs : List A)
      → contains id (map key xs) ≡ false
      → All (λ a. has_key id a ≡ false) xs
  unfolding contains
  no_key id [] h = tt
  no_key id (x ∷ xs) h = (
    ground (arith, string_eq.beq_iff id (key x), string_eq.beq_iff (key x) id),
    no_key id xs (ground arith),
  )

  -- With distinct keys, what the search finds is the only element with the key.
  pub find-only {κ} :
      (P : A → Type κ) (id : String) (xs : List A) {a : A}
      → distinct (map key xs) ≡ true
      → find (has_key id) xs ≡ some a
      → P a
      → All (λ x. has_key id x ≡ true → P x) xs
  unfolding distinct find
  find-only P id [] d f h = tt
  find-only P id (x ∷ xs) d f h = elim (Bool-cases (has_key id x)) [
    | inl e ↦ (
      λ _. subst P (ground arith) h,
      All-map_impl _ _ xs (λ a n t. absurd (cc))
          (no_key id xs
            (ground (arith, string_eq.beq_iff id (key x), string_eq.beq_iff (key x) id))),
    )
    | inr e ↦ (λ t. absurd (cc), find-only P id xs (ground arith) (ground arith) h)
  ]

pub contains-append :
    (id : String) (xs ys : List String)
    → contains id (xs ++ ys) ≡ (contains id xs || contains id ys)
unfolding contains
contains-append id [] ys = refl
contains-append id (x ∷ xs) ys = ground (arith, contains-append id xs ys)
