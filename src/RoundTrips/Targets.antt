-- ===== src/RoundTrips/Targets.antt =====
-- The target of a job: what is thawed for the payload is read and frozen again.
use ha_vacuum_planner.Base.{
  >>=-eq-ok, All, Bool, List, String, [], arith, err, false, ok, refl, sort_by, subst, true, ◌>>=◌,
  ◌∙◌, ◌∷◌, ◌≡◌,
}
use ha_vacuum_planner.Models.{
  Entry, Fields, Items, Value, boolean, collect, cons, dict, end, entry_lt, field, float, foreign,
  freeze_fields, freeze_items, freeze_json, freeze_mapping, has_other_key, integer, is_name, list,
  mapping_proxy, nil, none_value, text, thaw_fields, thaw_items, thaw_json, tuple,
}
use ha_vacuum_planner.Codec.{json_fields, json_items, json_value}
use ha_vacuum_planner.Laws.Freezing.{sort_by-All}

mutual
  unfolding freeze_json freeze_mapping thaw_json

  pub freeze_json-thaw_json : (v : Value) → freeze_json (thaw_json v) ≡ freeze_json v
  freeze_json-thaw_json none_value = refl
  freeze_json-thaw_json (boolean b) = refl
  freeze_json-thaw_json (integer n) = refl
  freeze_json-thaw_json (float bits) = refl
  freeze_json-thaw_json (text s) = refl
  freeze_json-thaw_json (list xs) = refl
  freeze_json-thaw_json (tuple xs) = rw (freeze_items-thaw_items xs) refl
  freeze_json-thaw_json (dict fs) = rw (thaw_fields-keys fs, freeze_fields-thaw_fields fs) refl
  freeze_json-thaw_json (mapping_proxy fs) =
      rw (thaw_fields-keys fs, freeze_fields-thaw_fields fs) refl
  freeze_json-thaw_json foreign = refl

  freeze_items-thaw_items : (xs : Items) → freeze_items (thaw_items xs) ≡ freeze_items xs
  freeze_items-thaw_items nil = refl
  freeze_items-thaw_items (cons x xs) =
      rw (freeze_json-thaw_json x, freeze_items-thaw_items xs) refl

  freeze_fields-thaw_fields : (fs : Fields) → freeze_fields (thaw_fields fs) ≡ freeze_fields fs
  freeze_fields-thaw_fields end = refl
  freeze_fields-thaw_fields (field k v fs) =
      rw (freeze_json-thaw_json v, freeze_fields-thaw_fields fs) refl

  thaw_fields-keys : (fs : Fields) → has_other_key (thaw_fields fs) ≡ has_other_key fs
  thaw_fields-keys end = refl
  thaw_fields-keys (field k v fs) = rw (thaw_fields-keys fs) refl

-- an entry whose frozen value, if there is one, is read back after thawing
record IsReadable (name : String) (e : Entry) : Type 0 where
  by_name : is_name e.0 ≡ true
  read : (v : Value) → e.1 ≡ ok v → json_value name (thaw_json v) ≡ ok (thaw_json v)

collect-json_fields :
    (name : String) (es : List Entry) {fs : Fields}
    → All (IsReadable name) es
    → collect es ≡ ok fs
    → (json_fields name (thaw_fields fs) ≡ ok (thaw_fields fs))
      × (has_other_key (thaw_fields fs) ≡ false)
unfolding collect json_value thaw_json
collect-json_fields name [] h c =
    subst
      (λ fs.
        (json_fields name (thaw_fields fs) ≡ ok (thaw_fields fs))
        × (has_other_key (thaw_fields fs) ≡ false))
      {x = end} (ground arith) (refl, refl)
collect-json_fields name ((k, err e) ∷ es) h c = cc
collect-json_fields name ((k, ok v) ∷ es) {fs} h c =
    let (gs, rest, eq) = >>=-eq-ok (collect es) (λ fs. ok (field k v fs)) c in
    let (same, names) = collect-json_fields name es h.1 rest in
    subst
      (λ fs.
        (json_fields name (thaw_fields fs) ≡ ok (thaw_fields fs))
        × (has_other_key (thaw_fields fs) ≡ false))
      {x = field k v gs} (ground arith)
      (rw (h.0.read v refl, same) refl, rw (h.0.by_name, names) refl)

freeze_mapping-json_value :
    (name : String) (refused : Bool) (es : List Entry) {w : Value}
    → (refused ≡ false → All (IsReadable name) es)
    → freeze_mapping refused es ≡ ok w
    → json_value name (thaw_json w) ≡ ok (thaw_json w)
unfolding freeze_mapping json_value thaw_json
freeze_mapping-json_value name true es h f = cc
freeze_mapping-json_value name false es {w} h f =
    let (fs, collected, eq) =
      >>=-eq-ok (collect (sort_by entry_lt es)) (λ fs. ok (mapping_proxy fs)) f in
    let (same, names) =
      collect-json_fields name (sort_by entry_lt es)
        (sort_by-All (IsReadable name) entry_lt es (h refl)) collected in
    subst (λ u. json_value name (thaw_json u) ≡ ok (thaw_json u)) {x = mapping_proxy fs}
      (ground arith) (rw (names, same) refl)

mutual
  unfolding freeze_json json_value thaw_json

  value_readable :
      (name : String) (v : Value) {w : Value}
      → freeze_json v ≡ ok w
      → json_value name (thaw_json w) ≡ ok (thaw_json w)
  value_readable name none_value h =
      subst (λ u. json_value name (thaw_json u) ≡ ok (thaw_json u)) {x = none_value} (ground arith)
        refl
  value_readable name (boolean b) h =
      subst (λ u. json_value name (thaw_json u) ≡ ok (thaw_json u)) {x = boolean b} (ground arith)
        refl
  value_readable name (integer n) h =
      subst (λ u. json_value name (thaw_json u) ≡ ok (thaw_json u)) {x = integer n} (ground arith)
        refl
  value_readable name (text s) h =
      subst (λ u. json_value name (thaw_json u) ≡ ok (thaw_json u)) {x = text s} (ground arith) refl
  value_readable name (float bits) h =
      subst (λ u. json_value name (thaw_json u) ≡ ok (thaw_json u)) {x = float bits} (ground arith)
        (ground arith)
  value_readable name (list xs) h =
      let (ys, frozen, eq) = >>=-eq-ok (freeze_items xs) (λ ys. ok (tuple ys)) h in
      subst (λ u. json_value name (thaw_json u) ≡ ok (thaw_json u)) {x = tuple ys} (ground arith)
        (rw (items_readable name xs frozen) refl)
  value_readable name (tuple xs) h =
      let (ys, frozen, eq) = >>=-eq-ok (freeze_items xs) (λ ys. ok (tuple ys)) h in
      subst (λ u. json_value name (thaw_json u) ≡ ok (thaw_json u)) {x = tuple ys} (ground arith)
        (rw (items_readable name xs frozen) refl)
  value_readable name (dict fs) h =
      freeze_mapping-json_value name (has_other_key fs) (freeze_fields fs)
        (fields-IsReadable name fs) h
  value_readable name (mapping_proxy fs) h =
      freeze_mapping-json_value name (has_other_key fs) (freeze_fields fs)
        (fields-IsReadable name fs) h
  value_readable name foreign h = cc

  items_readable :
      (name : String) (xs : Items) {ys : Items}
      → freeze_items xs ≡ ok ys
      → json_items name (thaw_items ys) ≡ ok (thaw_items ys)
  items_readable name nil h =
      subst (λ u. json_items name (thaw_items u) ≡ ok (thaw_items u)) {x = nil} (ground arith) refl
  items_readable name (cons x xs) h =
      let (y, frozen, more) =
        >>=-eq-ok (freeze_json x) (λ y. freeze_items xs >>= λ ys. ok (cons y ys)) h in
      let (zs, rest, eq) = >>=-eq-ok (freeze_items xs) (λ zs. ok (cons y zs)) more in
      subst (λ u. json_items name (thaw_items u) ≡ ok (thaw_items u)) {x = cons y zs} (ground arith)
        (rw (value_readable name x frozen, items_readable name xs rest) refl)

  fields-IsReadable :
      (name : String) (fs : Fields)
      → has_other_key fs ≡ false
      → All (IsReadable name) (freeze_fields fs)
  fields-IsReadable name end h = tt
  fields-IsReadable name (field k v fs) h = (
    record { by_name = ground arith; read = λ w e. value_readable name v e },
    fields-IsReadable name fs (ground arith),
  )

-- A frozen target is read back from the payload that holds it thawed, and freezing what was read
-- gives the target again.
pub frozen_target-read :
    (name : String) (v : Value)
    → freeze_json v ≡ ok v
    → (json_value name (thaw_json v) ≡ ok (thaw_json v)) × (freeze_json (thaw_json v) ≡ ok v)
frozen_target-read name v h = (value_readable name v h, freeze_json-thaw_json v ∙ h)
