-- ===== src/Views/Words.antt =====
-- adapters/observation.py: what the texts of a state and its attributes say.
use ha_vacuum_planner.Base.{
  All, Bool, Bool-cases, List, Option, String, [], any, arith, code_points, false, has_text, inl,
  inr, int_eq, list_beq, lower, map, nat_beq, nat_eq, none, pos, refl, some, string_eq, strip,
  subst, sym, true, ℕ, ◌==◌, ◌||◌, ◌↔◌, ◌∙◌, ◌∷◌, ◌≡◌, ◌⊎◌,
}
use ha_vacuum_planner.Models.{
  Fields, Value, block_guarantee_eq, block_kind_eq, block_state_eq, boolean, dict,
  dispatch_strategy_eq, entry, float, foreign, integer, job_state_eq, list, mapping_proxy, mode_eq,
  named, none_value, preferred_mode_eq, text, tuple,
}
use ha_vacuum_planner.Observations.{
  Words, details_of, failed_states, is_error_code, is_failed_text, is_one_of, normalized_state,
  normalized_text, present_words, reports_failure,
}

pub list_beq-eq : (xs ys : List ℕ) → list_beq nat_beq xs ys ≡ true → xs ≡ ys
unfolding list_beq
list_beq-eq [] [] h = refl
list_beq-eq [] (y ∷ ys) h = cc
list_beq-eq (x ∷ xs) [] h = cc
list_beq-eq (x ∷ xs) (y ∷ ys) h = ground (arith, list_beq-eq xs ys)

-- a text is this word, but for the case and spaces around it
abbrev pub Reads : String → String → Type 0
Reads s word = (has_text s ≡ true) × (map lower (strip s) ≡ code_points word)

abbrev pub ReadsValue : Option Value → String → Type 0
ReadsValue (some (text s)) word = Reads s word
ReadsValue _ word = ⊥

-- an attribute that is missing, no text, or blank
abbrev pub IsBlank : Option Value → Type 0
IsBlank (some (text s)) = has_text s ≡ false
IsBlank _ = Unit

abbrev pub IsErrorCode : Option Value → Type 0
IsErrorCode (some (integer n)) = (n == pos 0) ≡ false
IsErrorCode _ = ⊥

-- what tells of a failure
abbrev pub TellsFailure : String → Fields → Type 0
TellsFailure state attributes =
    Reads state "error"
    ⊎ Reads state "failed"
    ⊎ ReadsValue (entry (named "error") attributes) "error"
    ⊎ ReadsValue (entry (named "error") attributes) "failed"
    ⊎ IsErrorCode (entry (named "error_code") attributes)

pub true_not_false : {b : Bool} → b ≡ true → b ≡ false → ⊥
true_not_false h k = ground (arith, h, k)

words_beq_refl : (xs : List ℕ) → list_beq nat_beq xs xs ≡ true
unfolding list_beq
words_beq_refl [] = refl
words_beq_refl (x ∷ xs) = ground (arith, words_beq_refl xs)

pub two_words :
    (a b : String) (words : List ℕ)
    → (is_one_of (a ∷ b ∷ []) words ≡ true) ↔ ((words ≡ code_points a) ⊎ (words ≡ code_points b))
unfolding is_one_of any
two_words a b words = (
  λ h. ground (arith, list_beq-eq words (code_points a), list_beq-eq words (code_points b)),
  λ h. elim h [
    | inl e ↦
        subst (λ w. is_one_of (a ∷ b ∷ []) w ≡ true) (sym e)
          (ground (arith, words_beq_refl (code_points a)))
    | inr e ↦
        subst (λ w. is_one_of (a ∷ b ∷ []) w ≡ true) (sym e)
          (ground (arith, words_beq_refl (code_points b)))
  ],
)

text_words :
    (s : String) → has_text s ≡ true → normalized_text (some (text s)) ≡ some (map lower (strip s))
unfolding normalized_text
text_words s e = rw e refl

no_words : (s : String) → has_text s ≡ false → normalized_text (some (text s)) ≡ none
unfolding normalized_text
no_words s e = rw e refl

-- The normalized state is a word other than `unknown` exactly when the state reads so.
pub state-Reads :
    (state word : String)
    → list_beq nat_beq (code_points "unknown") (code_points word) ≡ false
    → (normalized_state state ≡ code_points word) ↔ Reads state word
unfolding normalized_state
state-Reads state word h = elim (Bool-cases (has_text state)) [
  | inl e ↦
      let words : normalized_state state ≡ map lower (strip state) =
        rw (text_words state e, normalized_state) refl in
      (λ k. (e, sym words ∙ k), λ k. words ∙ k.1)
  | inr e ↦
      let unknown : normalized_state state ≡ code_points "unknown" =
        rw (no_words state e, normalized_state) refl in
      (
        λ k. absurd (
            true_not_false (words_beq_refl (code_points "unknown")) (
              subst (λ w. list_beq nat_beq (code_points "unknown") w ≡ false) (sym k ∙ unknown) h)),
        λ k. absurd (true_not_false k.0 e),
      )
]

none_told : (false ≡ true) ↔ ⊥
none_told = (λ h. cc, λ h. absurd h)

none_read : (false ≡ true) ↔ (⊥ ⊎ ⊥)
none_read = (λ h. absurd (cc), λ h. elim h [ inl k ↦ absurd k | inr k ↦ absurd k ])

failed_text :
    (v : Option Value)
    → (is_failed_text (normalized_text v) ≡ true) ↔ (ReadsValue v "error" ⊎ ReadsValue v "failed")
unfolding normalized_text
failed_text (some (text s)) = elim (Bool-cases (has_text s)) [
  | inl e ↦
      let either = two_words "error" "failed" (map lower (strip s)) in
      (
        λ h. elim (either.0 (ground (arith, h, e))) [ inl k ↦ inl (e, k) | inr k ↦ inr (e, k) ],
        λ h.
            let said = either.1 (elim h [ inl k ↦ inl k.1 | inr k ↦ inr k.1 ]) in
            ground (arith, e, said),
      )
  | inr e ↦ (
    λ h. absurd (ground (arith, h, e)),
    λ h. absurd (elim h [ inl k ↦ true_not_false k.0 e | inr k ↦ true_not_false k.0 e ]),
  )
]
failed_text none = none_read
failed_text (some none_value) = none_read
failed_text (some (boolean b)) = none_read
failed_text (some (integer n)) = none_read
failed_text (some (float n)) = none_read
failed_text (some (list x)) = none_read
failed_text (some (tuple x)) = none_read
failed_text (some (dict x)) = none_read
failed_text (some (mapping_proxy x)) = none_read
failed_text (some foreign) = none_read

IsErrorCode-told : (v : Option Value) → (is_error_code v ≡ true) ↔ IsErrorCode v
IsErrorCode-told (some (integer n)) = (λ h. ground (arith, h), λ h. ground (arith, h))
IsErrorCode-told none = none_told
IsErrorCode-told (some none_value) = none_told
IsErrorCode-told (some (boolean b)) = none_told
IsErrorCode-told (some (text s)) = none_told
IsErrorCode-told (some (float n)) = none_told
IsErrorCode-told (some (list x)) = none_told
IsErrorCode-told (some (tuple x)) = none_told
IsErrorCode-told (some (dict x)) = none_told
IsErrorCode-told (some (mapping_proxy x)) = none_told
IsErrorCode-told (some foreign) = none_told

any_of_three : (a b c : Bool) → (a || b || c) ≡ true → (a ≡ true) ⊎ (b ≡ true) ⊎ (c ≡ true)
any_of_three true b c h = inl refl
any_of_three false true c h = inr (inl refl)
any_of_three false false c h = inr (inr h)

first_of_three : (a b c : Bool) → a ≡ true → (a || b || c) ≡ true
first_of_three a b c h = ground (arith, h)

second_of_three : (a b c : Bool) → b ≡ true → (a || b || c) ≡ true
second_of_three a b c h = ground (arith, h)

third_of_three : (a b c : Bool) → c ≡ true → (a || b || c) ≡ true
third_of_three a b c h = ground (arith, h)

pub failure_told :
    (state : String) (attributes : Fields)
    → (reports_failure state attributes ≡ true) ↔ TellsFailure state attributes
unfolding reports_failure list_beq code_points
failure_told state attributes =
    let by_state = two_words "error" "failed" (normalized_state state) in
    let error = state-Reads state "error" refl in
    let failed = state-Reads state "failed" refl in
    let by_text = failed_text (entry (named "error") attributes) in
    let by_code = IsErrorCode-told (entry (named "error_code") attributes) in
    let in_state = is_one_of failed_states (normalized_state state) in
    let in_text = is_failed_text (normalized_text (entry (named "error") attributes)) in
    let in_code = is_error_code (entry (named "error_code") attributes) in
    (
      λ h. elim (any_of_three in_state in_text in_code h) [
        | inl a ↦ elim (by_state.0 a) [ inl e ↦ inl (error.0 e) | inr e ↦ inr (inl (failed.0 e)) ]
        | inr (inl b) ↦ elim (by_text.0 b) [
          | inl e ↦ inr (inr (inl e))
          | inr e ↦ inr (inr (inr (inl e)))
        ]
        | inr (inr c) ↦ inr (inr (inr (inr (by_code.0 c))))
      ],
      λ h. elim h [
        | inl a ↦ first_of_three in_state in_text in_code (by_state.1 (inl (error.1 a)))
        | inr (inl a) ↦ first_of_three in_state in_text in_code (by_state.1 (inr (failed.1 a)))
        | inr (inr (inl a)) ↦ second_of_three in_state in_text in_code (by_text.1 (inl a))
        | inr (inr (inr (inl a))) ↦ second_of_three in_state in_text in_code (by_text.1 (inr a))
        | inr (inr (inr (inr a))) ↦ third_of_three in_state in_text in_code (by_code.1 a)
      ],
    )

words-IsBlank : (v : Option Value) → (normalized_text v ≡ none) ↔ IsBlank v
unfolding normalized_text
words-IsBlank (some (text s)) = (λ h. ground (arith, h), λ h. ground (arith, h))
words-IsBlank none = (λ h. tt, λ h. refl)
words-IsBlank (some none_value) = (λ h. tt, λ h. refl)
words-IsBlank (some (boolean b)) = (λ h. tt, λ h. refl)
words-IsBlank (some (integer n)) = (λ h. tt, λ h. refl)
words-IsBlank (some (float n)) = (λ h. tt, λ h. refl)
words-IsBlank (some (list x)) = (λ h. tt, λ h. refl)
words-IsBlank (some (tuple x)) = (λ h. tt, λ h. refl)
words-IsBlank (some (dict x)) = (λ h. tt, λ h. refl)
words-IsBlank (some (mapping_proxy x)) = (λ h. tt, λ h. refl)
words-IsBlank (some foreign) = (λ h. tt, λ h. refl)

no_words_left : (ws : List (Option Words)) → (present_words ws ≡ []) ↔ All (λ w. w ≡ none) ws
no_words_left [] = (λ h. tt, λ h. refl)
no_words_left (none ∷ ws) = let rest = no_words_left ws in (λ h. (refl, rest.0 h), λ h. rest.1 h.1)
no_words_left (some w ∷ ws) = (λ h. absurd (cc), λ h. absurd (cc))

pub details-IsBlank :
    (attributes : Fields)
    → (details_of attributes ≡ []) ↔ (
        IsBlank (entry (named "activity") attributes)
        × IsBlank (entry (named "status") attributes)
        × IsBlank (entry (named "task_status") attributes))
unfolding details_of
details-IsBlank attributes =
    let all_none = no_words_left (
      map (λ key. normalized_text (entry (named key) attributes))
        ("activity" ∷ "status" ∷ "task_status" ∷ [])) in
    (
      λ h.
          let (a, (b, (c, u))) = all_none.0 h in
          ((words-IsBlank _).0 a, (words-IsBlank _).0 b, (words-IsBlank _).0 c),
      λ (a, b, c).
          all_none.1 ((words-IsBlank _).1 a, ((words-IsBlank _).1 b, ((words-IsBlank _).1 c, tt))),
    )
