-- ===== src/Codec/Readers.antt =====
-- The readers and the envelope of domain/serialization.py. A payload is the entries of a dictionary.
use ha_vacuum_planner.Base.{
  Bool, List, Option, Result, String, [], err, false, find, if◌then◌else◌, int_eq, key_error,
  nat_eq, none, not, ok, pos, raise_if, schema_version_error, some, str_append, string_eq,
  value_error, ℕ, ℤ, ◌==◌, ◌>>=◌, ◌>>◌, ◌∷◌,
}
use ha_vacuum_planner.Models.{
  DateTime, Fields, Items, Key, Value, block_guarantee_eq, block_kind_eq, block_state_eq, boolean,
  cons, dict, dispatch_strategy_eq, end, field, float, foreign, has_other_key, integer, is_finite,
  job_state_eq, list, mapping_proxy, mode_eq, named, nil, none_value, other_key, preferred_mode_eq,
  text, tuple,
}

abbrev pub Payload : Type 0
Payload = Fields

-- `datetime.isoformat` and `datetime.fromisoformat`
pub record IsoFormat : Type 0 where
  pub isoformat : DateTime → String
  pub fromisoformat : String → Result DateTime

-- the dictionary with these entries
unfoldable pub object_of : List (String × Value) → Payload
object_of [] = end
object_of ((k, v) ∷ es) = field (named k) v (object_of es)

-- `[f(x) for x in xs]` as a list of JSON values
unfoldable pub items_of {ℓ} : {A : Type ℓ} → (A → Value) → List A → Items
items_of f [] = nil
items_of f (x ∷ xs) = cons (f x) (items_of f xs)

abbrev pub is_key : String → Key → Bool
is_key name (named k) = k == name
is_key name (other_key n) = false

unfoldable pub lookup : Payload → String → Option Value
lookup end name = none
lookup (field k v fs) name = let rest = lookup fs name in if is_key name k then some v else rest

-- `data.get(name)`
unfoldable pub get : Payload → String → Value
get fields name = elim (lookup fields name) [ none ↦ none_value | some v ↦ v ]

-- `data[name]`
unfoldable pub require : Payload → String → Result Value
require fields name = elim (lookup fields name) [ none ↦ err (key_error name) | some v ↦ ok v ]

-- `{**data, name: value}`
unfoldable pub put_field : String → Value → Payload → Payload
put_field name value end = field (named name) value end
put_field name value (field k v fs) =
    let rest = put_field name value fs in if is_key name k then field k value fs else field k v rest

-- `[f(x) for x in xs]` over a read array
unfoldable pub map_items {ℓ} : {A : Type ℓ} → (Value → Result A) → Items → Result (List A)
map_items f nil = ok []
map_items f (cons x xs) = do y ← f x; ys ← map_items f xs; ok (y ∷ ys)

unfoldable pub envelope : String → Payload → Payload
envelope kind fields =
    object_of
      (("schema_version", integer (pos 1)) ∷ ("kind", text kind) ∷ ("data", dict fields) ∷ [])

-- `type(version) is int and version == n`
abbrev pub is_version : ℕ → Value → Bool
is_version n (integer z) = z == pos n
is_version n _ = false

abbrev pub is_kind : String → Value → Bool
is_kind kind (text s) = s == kind
is_kind kind _ = false

abbrev pub require_kind : String → Payload → Result (Unit {0})
require_kind kind payload =
    raise_if (not (is_kind kind (get payload "kind")))
      (value_error (str_append "expected payload kind " kind))

abbrev pub require_dict : Value → Result Payload
require_dict (dict fs) = ok fs
require_dict _ = err (value_error "payload data must be an object")

unfoldable pub data_of : Payload → String → Result Payload
data_of payload kind = do
  raise_if (not (is_version 1 (get payload "schema_version"))) schema_version_error
  require_kind kind payload
  require_dict (get payload "data")

abbrev wrong {ℓ} : {A : Type ℓ} → String → String → Result A
wrong name what = err (value_error (str_append name what))

unfoldable pub string_of : String → Value → Result String
string_of name (text s) = ok s
string_of name _ = wrong name " must be a string"

unfoldable pub optional_string : String → Value → Result (Option String)
optional_string name none_value = ok none
optional_string name v = do s ← string_of name v; ok (some s)

unfoldable pub boolean_of : String → Value → Result Bool
boolean_of name (boolean b) = ok b
boolean_of name _ = wrong name " must be a boolean"

unfoldable pub integer_of : String → Value → Result ℤ
integer_of name (integer n) = ok n
integer_of name _ = wrong name " must be an integer"

unfoldable pub optional_integer : String → Value → Result (Option ℤ)
optional_integer name none_value = ok none
optional_integer name v = do n ← integer_of name v; ok (some n)

unfoldable pub array_of : String → Value → Result Items
array_of name (list xs) = ok xs
array_of name _ = wrong name " must be an array"

abbrev require_names : String → Payload → Result (Unit {0})
require_names name fs =
    raise_if (has_other_key fs) (value_error (str_append name " keys must be strings"))

unfoldable pub object_in : String → Value → Result Payload
object_in name (dict fs) = do require_names name fs; ok fs
object_in name _ = wrong name " must be an object"

unfoldable mutual
  pub json_value : String → Value → Result Value
  json_value name none_value = ok none_value
  json_value name (text s) = ok (text s)
  json_value name (boolean b) = ok (boolean b)
  json_value name (integer n) = ok (integer n)
  json_value name (float bits) = do
    raise_if (not (is_finite bits))
        (value_error (str_append name " must contain finite JSON numbers"))
    ok (float bits)
  json_value name (list xs) = do ys ← json_items name xs; ok (list ys)
  json_value name (dict fs) = do require_names name fs; gs ← json_fields name fs; ok (dict gs)
  json_value name (tuple xs) = wrong name " must be a JSON value"
  json_value name (mapping_proxy fs) = wrong name " must be a JSON value"
  json_value name foreign = wrong name " must be a JSON value"

  pub json_items : String → Items → Result Items
  json_items name nil = ok nil
  json_items name (cons x xs) = do y ← json_value name x; ys ← json_items name xs; ok (cons y ys)

  pub json_fields : String → Fields → Result Fields
  json_fields name end = ok end
  json_fields name (field k v fs) = do
    w ← json_value name v
    gs ← json_fields name fs
    ok (field k w gs)

-- `_dt`, `_dt_required` and `_dt_dump`
unfoldable pub time_of : IsoFormat → Value → Result (Option DateTime)
time_of iso none_value = ok none
time_of iso (text s) = do t ← iso.fromisoformat s; ok (some t)
time_of iso _ = err (value_error "timestamp must be an ISO-8601 string")

unfoldable pub required_time : IsoFormat → Value → Result DateTime
required_time iso value = do
  parsed ← time_of iso value
  elim parsed [ none ↦ err (value_error "required timestamp is missing") | some t ↦ ok t ]

unfoldable pub dump_time : IsoFormat → Option DateTime → Value
dump_time iso none = none_value
dump_time iso (some t) = text (iso.isoformat t)

-- `Mode(value)`: the member of the enumeration whose value this is
unfoldable pub member_of {ℓ} : {A : Type ℓ} → (A → String) → List A → String → Result A
member_of value_of members s = elim (find (λ m. value_of m == s) members) [
  | none ↦ err (value_error (str_append s " is not a valid member"))
  | some m ↦ ok m
]

-- an optional text or number as JSON
abbrev pub text? : Option String → Value
text? none = none_value
text? (some s) = text s

abbrev pub integer? : Option ℤ → Value
integer? none = none_value
integer? (some n) = integer n
