-- ===== src/Laws/Freezing.antt =====
-- `freeze_json` accepts what it returns, and leaves it as it is.
use ha_vacuum_planner.Base.{
  >>=-eq-ok, All, Bool, Bool-cases, List, [], arith, err, false, inl, inr, insert_by, ok, sort_by,
  sort_by-Ordered, sort_by_fixed, string_lt-asym, subst, true, ◌>>=◌, ◌∷◌, ◌≡◌,
}
use ha_vacuum_planner.Models.{
  Entry, Fields, Items, Value, boolean, collect, cons, dict, end, entry_lt, field, float, foreign,
  freeze_fields, freeze_items, freeze_json, freeze_mapping, has_other_key, integer, is_name, list,
  mapping_proxy, named, nil, none_value, other_key, text, tuple,
}

entry_lt-asym : (a b : Entry) → entry_lt a b ≡ true → entry_lt b a ≡ false
entry_lt-asym (named j, r) (named k, q) h = string_lt-asym j k h
entry_lt-asym (named j, r) (other_key k, q) h = cc
entry_lt-asym (other_key j, r) (k, q) h = cc

-- an entry whose value, if it was not refused, is frozen
record IsFrozen (e : Entry) : Type 0 where
  by_name : is_name e.0 ≡ true
  fixed : (v : Value) → e.1 ≡ ok v → freeze_json v ≡ ok v

insert_by-All :
    {A : Type 0} (P : A → Type 0) (lt : A → A → Bool) (x : A) (xs : List A)
    → P x
    → All P xs
    → All P (insert_by lt x xs)
unfolding insert_by
insert_by-All P lt x [] h k = (h, tt)
insert_by-All P lt x (y ∷ ys) h k = elim (Bool-cases (lt y x)) [
  | inl e ↦ rw e (k.0, insert_by-All P lt x ys h k.1)
  | inr e ↦ rw e (h, k)
]

pub sort_by-All :
    {A : Type 0} (P : A → Type 0) (lt : A → A → Bool) (xs : List A)
    → All P xs
    → All P (sort_by lt xs)
unfolding sort_by
sort_by-All P lt [] h = tt
sort_by-All P lt (x ∷ xs) h = insert_by-All P lt x (sort_by lt xs) h.0 (sort_by-All P lt xs h.1)

-- Frozen entries that are collected are the entries of the collected fields.
collect-fields :
    (es : List Entry) {fs : Fields}
    → All IsFrozen es
    → collect es ≡ ok fs
    → (freeze_fields fs ≡ es) × (has_other_key fs ≡ false)
unfolding collect freeze_json
collect-fields [] h c = ground arith
collect-fields ((k, ok v) ∷ es) {fs} h c =
    let (fs', rest, eq) = >>=-eq-ok (collect es) (λ fs. ok (field k v fs)) c in
    let (same, names) = collect-fields es h.1 rest in ground (arith, h.0.fixed v, h.0.by_name)
collect-fields ((k, err e) ∷ es) h c = cc

freeze_json-proxy :
    (fs : Fields) (es : List Entry)
    → freeze_fields fs ≡ es
    → has_other_key fs ≡ false
    → sort_by entry_lt es ≡ es
    → collect es ≡ ok fs
    → freeze_json (mapping_proxy fs) ≡ ok (mapping_proxy fs)
unfolding freeze_json freeze_mapping
freeze_json-proxy fs es same names sorted collected = rw (same, names, sorted, collected)

freeze_mapping_idem :
    (refused : Bool) (es : List Entry) {w : Value}
    → All IsFrozen es
    → freeze_mapping refused es ≡ ok w
    → freeze_json w ≡ ok w
unfolding freeze_mapping
freeze_mapping_idem true es h f = cc
freeze_mapping_idem false es {w} h f =
    let (fs, collected, eq) =
      >>=-eq-ok (collect (sort_by entry_lt es)) (λ fs. ok (mapping_proxy fs)) f in
    let (same, names) =
      collect-fields (sort_by entry_lt es) (sort_by-All IsFrozen entry_lt es h) collected in
    let again : sort_by entry_lt (sort_by entry_lt es) ≡ sort_by entry_lt es =
      sort_by_fixed entry_lt (sort_by entry_lt es) (sort_by-Ordered entry_lt entry_lt-asym es) in
    subst (λ u. freeze_json u ≡ ok u) {x = mapping_proxy fs} (ground arith)
      (freeze_json-proxy fs (sort_by entry_lt es) same names again collected)

fields_idem :
    (fs : Fields) {w : Value}
    → (has_other_key fs ≡ false → All IsFrozen (freeze_fields fs))
    → freeze_mapping (has_other_key fs) (freeze_fields fs) ≡ ok w
    → freeze_json w ≡ ok w
unfolding freeze_mapping
fields_idem fs frozen h = elim (Bool-cases (has_other_key fs)) [
  | inl e ↦ absurd (ground arith)
  | inr e ↦ freeze_mapping_idem (has_other_key fs) (freeze_fields fs) (frozen e) h
]

tuple_idem :
    (ys : Items) {w : Value} → ok (tuple ys) ≡ ok w → freeze_items ys ≡ ok ys → freeze_json w ≡ ok w
unfolding freeze_json
tuple_idem ys eq h = subst (λ u. freeze_json u ≡ ok u) {x = tuple ys} (ground arith) (rw h)

cons_idem :
    (y : Value) (zs : Items) {ys : Items}
    → ok (cons y zs) ≡ ok ys
    → freeze_json y ≡ ok y
    → freeze_items zs ≡ ok zs
    → freeze_items ys ≡ ok ys
unfolding freeze_json
cons_idem y zs eq h k =
    subst (λ u. freeze_items u ≡ ok u) {x = cons y zs} (ground arith) (rw (h, k))

mutual
  unfolding freeze_json

  json_idem : (v : Value) {w : Value} → freeze_json v ≡ ok w → freeze_json w ≡ ok w
  json_idem none_value h = ground arith
  json_idem (boolean b) h = ground arith
  json_idem (integer n) h = ground arith
  json_idem (text s) h = ground arith
  json_idem (float bits) h = ground arith
  json_idem (list xs) {w} h =
      let (ys, frozen, eq) = >>=-eq-ok (freeze_items xs) (λ ys. ok (tuple ys)) h in
      tuple_idem ys eq (items_idem xs frozen)
  json_idem (tuple xs) {w} h =
      let (ys, frozen, eq) = >>=-eq-ok (freeze_items xs) (λ ys. ok (tuple ys)) h in
      tuple_idem ys eq (items_idem xs frozen)
  json_idem (dict fs) {w} h = fields_idem fs (fields-IsFrozen fs) h
  json_idem (mapping_proxy fs) {w} h = fields_idem fs (fields-IsFrozen fs) h
  json_idem foreign h = cc

  items_idem : (xs : Items) {ys : Items} → freeze_items xs ≡ ok ys → freeze_items ys ≡ ok ys
  items_idem nil h = ground arith
  items_idem (cons x xs) {ys} h =
      let (y, frozen, more) =
        >>=-eq-ok (freeze_json x) (λ y. freeze_items xs >>= λ ys. ok (cons y ys)) h in
      let (zs, rest, eq) = >>=-eq-ok (freeze_items xs) (λ zs. ok (cons y zs)) more in
      cons_idem y zs eq (json_idem x frozen) (items_idem xs rest)

  fields-IsFrozen : (fs : Fields) → has_other_key fs ≡ false → All IsFrozen (freeze_fields fs)
  fields-IsFrozen end h = tt
  fields-IsFrozen (field k v fs) h = (
    record { by_name = ground arith; fixed = λ w e. json_idem v e },
    fields-IsFrozen fs (ground arith),
  )

-- Freezing a frozen value changes nothing: `freeze_json` accepts what it returned, and returns it.
pub freeze_json_idem : (v : Value) {w : Value} → freeze_json v ≡ ok w → freeze_json w ≡ ok w
freeze_json_idem v h = json_idem v h
