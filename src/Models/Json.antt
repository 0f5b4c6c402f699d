-- ===== src/Models/Json.antt =====
-- `JsonValue`, `freeze_json` and `thaw_json` of domain/models.py. A `Value` is what Python may hold in
-- an adapter target or a stored payload. A float is its IEEE 754 bit pattern; `foreign` stands for an
-- object that is none of the others, and `other_key` for a dictionary key that is no string.
-- The keys of a dictionary are distinct in Python; the model does not rest on it.
use ha_vacuum_planner.Base.{
  Bool, List, Result, String, [], err, false, nat_beq, not, ok, raise_if, sort_by, string_lt, true,
  value_error, ℕ, ℤ, ◌%◌, ◌/◌, ◌>>=◌, ◌>>◌, ◌^◌, ◌||◌, ◌∷◌,
}

pub data Key : Type 0 where
  named : String → Key
  other_key : ℕ → Key

mutual
  pub data Value : Type 0 where
    none_value : Value
    boolean : Bool → Value
    integer : ℤ → Value
    float : ℕ → Value
    text : String → Value
    list tuple : Items → Value
    dict mapping_proxy : Fields → Value
    foreign : Value

  pub data Items : Type 0 where
    nil : Items
    cons : Value → Items → Items

  pub data Fields : Type 0 where
    end : Fields
    field : Key → Value → Fields → Fields

abbrev pub is_name : Key → Bool
is_name (named k) = true
is_name (other_key k) = false

-- `isfinite`: the exponent of an infinity and of a NaN has all its eleven bits set.
unfoldable pub is_finite : ℕ → Bool
is_finite bits = not (nat_beq (bits / 2 ^ 52 % 2048) 2047)

-- `<` of two keys; keys that are no strings are refused before the order matters
abbrev pub key_lt : Key → Key → Bool
key_lt (named a) (named b) = string_lt a b
key_lt _ _ = false

-- an entry of a dictionary, its value frozen or refused
abbrev pub Entry : Type 0
Entry = Key × Result Value

abbrev pub entry_lt : Entry → Entry → Bool
entry_lt (k, _) (j, _) = key_lt k j

-- The entries are read in their order, and the first refusal is raised.
unfoldable pub collect : List Entry → Result Fields
collect [] = ok end
collect ((k, r) ∷ es) = do v ← r; fs ← collect es; ok (field k v fs)

abbrev pub has_other_key : Fields → Bool
has_other_key end = false
has_other_key (field k v fs) = not (is_name k) || has_other_key fs

-- `{key: freeze_json(value[key]) for key in sorted(value)}` behind the check of the keys
unfoldable pub freeze_mapping : Bool → List Entry → Result Value
freeze_mapping refused es = do
  raise_if refused (value_error "JSON object keys must be strings")
  fs ← collect (sort_by entry_lt es)
  ok (mapping_proxy fs)

unfoldable mutual
  pub freeze_json : Value → Result Value
  freeze_json none_value = ok none_value
  freeze_json (boolean b) = ok (boolean b)
  freeze_json (integer n) = ok (integer n)
  freeze_json (text s) = ok (text s)
  freeze_json (float bits) = do
    raise_if (not (is_finite bits)) (value_error "JSON numbers must be finite")
    ok (float bits)
  freeze_json (list xs) = do ys ← freeze_items xs; ok (tuple ys)
  freeze_json (tuple xs) = do ys ← freeze_items xs; ok (tuple ys)
  freeze_json (dict fs) = freeze_mapping (has_other_key fs) (freeze_fields fs)
  freeze_json (mapping_proxy fs) = freeze_mapping (has_other_key fs) (freeze_fields fs)
  freeze_json foreign = err (value_error "adapter target must be JSON-compatible")

  pub freeze_items : Items → Result Items
  freeze_items nil = ok nil
  freeze_items (cons x xs) = do y ← freeze_json x; ys ← freeze_items xs; ok (cons y ys)

  pub freeze_fields : Fields → List Entry
  freeze_fields end = []
  freeze_fields (field k v fs) = (k, freeze_json v) ∷ freeze_fields fs

unfoldable mutual
  pub thaw_json : Value → Value
  thaw_json (mapping_proxy fs) = dict (thaw_fields fs)
  thaw_json (dict fs) = dict (thaw_fields fs)
  thaw_json (tuple xs) = list (thaw_items xs)
  thaw_json none_value = none_value
  thaw_json (boolean b) = boolean b
  thaw_json (integer n) = integer n
  thaw_json (float bits) = float bits
  thaw_json (text s) = text s
  thaw_json (list xs) = list xs
  thaw_json foreign = foreign

  pub thaw_items : Items → Items
  thaw_items nil = nil
  thaw_items (cons x xs) = cons (thaw_json x) (thaw_items xs)

  pub thaw_fields : Fields → Fields
  thaw_fields end = end
  thaw_fields (field k v fs) = field k (thaw_json v) (thaw_fields fs)
