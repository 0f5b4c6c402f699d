-- ===== src/Base/Results.antt =====
-- Code that may raise returns a `Result`; an error is the exception with its text.
use Prim.Native.String.{String}
use mathlib.Core.Path.{◌≡◌, refl}
use mathlib.Core.Bool.{Bool, true, false}
use mathlib.Core.List.{List, [], ◌∷◌}

pub data Error : Type 0 where
  value_error key_error duplicate_identity_error lane_already_open_error : String → Error
  revision_conflict_error : Error
  planning_validation_error : List String → Error
  schema_version_error : Error
  type_error stop_iteration overflow_error : Error
  runtime_error runtime_inactive_error topology_not_ready_error : String → Error
  validation_error home_assistant_error invalid : String → Error
  -- an `ExceptionGroup` of two
  exception_group : String → Error → Error → Error

-- `err e` is what `raise e` leaves, and `ok a` what `return a` does.
pub data Result {ℓ} (A : Type ℓ) : Type ℓ where
  err : Error → Result A
  ok : A → Result A

-- one statement after another, the second of which may read what the first returned
infixl 5 ◌>>=◌
abbrev pub ◌>>=◌ {ℓ κ} : {A : Type ℓ} {B : Type κ} → Result A → (A → Result B) → Result B
err raised >>= next = err raised
ok returned >>= next = next returned

-- `if test: raise e`
abbrev pub raise_if : Bool → Error → Result (Unit {0})
raise_if false raised = ok tt
raise_if true raised = err raised

infixl 5 ◌>>◌
abbrev pub ◌>>◌ {ℓ} : {B : Type ℓ} → Result (Unit {0}) → Result B → Result B
first >> next = first >>= λ u. next

-- `[f(x) for x in xs]`, where `f` may raise.
unfoldable pub map_result {ℓ κ} :
    {A : Type ℓ} {B : Type κ} → (A → Result B) → List A → Result (List B)
map_result f [] = ok []
map_result f (x ∷ xs) = do y ← f x; ys ← map_result f xs; ok (y ∷ ys)

-- A test that did not raise was false.
pub raise_if-eq-ok : (b : Bool) (e : Error) → raise_if b e ≡ ok tt → b ≡ false
raise_if-eq-ok false raised h = refl
raise_if-eq-ok true raised h = cc

-- What two statements returned, the second one returned from what the first one had.
pub >>=-eq-ok {ℓ κ} :
    {A : Type ℓ} {B : Type κ} (first : Result A) (next : A → Result B) {result : B}
    → first >>= next ≡ ok result
    → (a : A) × (first ≡ ok a) × (next a ≡ ok result)
>>=-eq-ok (err raised) next h = cc
>>=-eq-ok (ok a) next h = (a, refl, h)

pub >>-eq-ok {ℓ} :
    {B : Type ℓ} (first : Result (Unit {0})) (next : Result B) {result : B}
    → first >> next ≡ ok result
    → (first ≡ ok tt) × (next ≡ ok result)
>>-eq-ok (err raised) next h = cc
>>-eq-ok (ok tt) next h = (refl, h)
