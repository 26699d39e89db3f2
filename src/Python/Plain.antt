-- ===== src/Python/Plain.antt =====
-- `json.loads` without hooks, and what Python does to dictionaries.
use zach.Common.{
  Bool, true, false, ◌&&◌, ◌||◌, Option, none, some, List, [], ◌∷◌, String, str_eq, if◌then◌else◌,
}
use zach.Python.Value.{
  Value, null, bool, int, negative, float, constant, str, list, dict, Items, nil, cons, Fields, end,
  field, has_key, lookup,
}
use zach.Action.{Result, ok, err}
use zach.Action.Error.{other_exception}

-- `obj[key] = value`: at the place of the key, or last
abbrev pub assign : String → Value → Fields → Fields
assign k v end = field k v end
assign k v (field j w fs) =
    let rest = assign k v fs in if str_eq j k then field j v fs else field j w rest

unfoldable mutual
  -- Of a key that is repeated the last value counts.
  pub plain : Value → Value
  plain (list vs) = list (plain_items vs)
  plain (dict fs) = dict (plain_fields end fs)
  plain null = null
  plain (bool b) = bool b
  plain (int n) = int n
  plain (negative n) = negative n
  plain (float s m e) = float s m e
  plain (constant c) = constant c
  plain (str s) = str s

  pub plain_items : Items → Items
  plain_items nil = nil
  plain_items (cons v vs) = cons (plain v) (plain_items vs)

  -- the entries built so far, and the pairs that are left
  pub plain_fields : Fields → Fields → Fields
  plain_fields built end = built
  plain_fields built (field k v fs) = plain_fields (assign k (plain v) built) fs

abbrev pub plain_loads : Option Value → Option Value
plain_loads none = none
plain_loads (some raw) = some (plain raw)

-- `dict(v, key=value)`
abbrev pub with_entry : String → Value → Value → Value
with_entry k v (dict fs) = dict (assign k v fs)
with_entry k v other = other

abbrev pub without_key : String → Fields → Fields
without_key k end = end
without_key k (field j w fs) =
    let rest = without_key k fs in if str_eq j k then rest else field j w rest

-- `{k: x for k, x in v.items() if k != key}`
abbrev pub without : String → Value → Value
without k (dict fs) = dict (without_key k fs)
without k v = v

-- `v[key]`: a `KeyError` or a `TypeError` where there is none
unfoldable pub item : String → Value → Result Value
item k (dict fs) = if has_key k fs then ok (lookup k fs) else err other_exception
item k v = err other_exception

-- `set(v) == names` of a dictionary
abbrev pub has_names : List String → Fields → Bool
has_names [] fs = true
has_names (k ∷ ks) fs = has_key k fs && has_names ks fs

abbrev pub is_name : String → List String → Bool
is_name k [] = false
is_name k (j ∷ js) = str_eq j k || is_name k js

abbrev pub names_only : List String → Fields → Bool
names_only ks end = true
names_only ks (field k v fs) = is_name k ks && names_only ks fs

unfoldable pub has_exactly : List String → Value → Bool
has_exactly names (dict fs) = has_names names fs && names_only names fs
has_exactly names v = false

-- `{...}` with its entries in order, and `[...]`
abbrev pub fields_from : List (String × Value) → Fields
fields_from [] = end
fields_from ((k, v) ∷ es) = field k v (fields_from es)

abbrev pub object : List (String × Value) → Value
object es = dict (fields_from es)
