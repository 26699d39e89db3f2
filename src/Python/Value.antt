-- ===== src/Python/Value.antt =====
-- Decoded JSON as Python values. A dictionary is its list of entries in order; `dict.get` takes the
-- first entry of a key. `bool` is no `int` here, as under `type(v) is int`.
use zach.Common.{
  ℕ, ◌*◌, ◌^◌, Bool, true, false, ◌&&◌, ◌||◌, Option, none, some, List, [], ◌∷◌, String, str_eq,
  ◌==◌, if◌then◌else◌,
}

mutual
  pub data Value : Type 0 where
    null : Value
    bool : Bool → Value
    -- an `int` of 0 or more, and the `int` -(n + 1)
    int : ℕ → Value
    negative : ℕ → Value
    -- the `float` m / 2 ^ e, negated if the flag is set
    float : Bool → ℕ → ℕ → Value
    -- a `float` that JSON writes as NaN, Infinity or -Infinity
    constant : String → Value
    str : String → Value
    list : Items → Value
    dict : Fields → Value

  pub data Items : Type 0 where
    nil : Items
    cons : Value → Items → Items

  pub data Fields : Type 0 where
    end : Fields
    field : String → Value → Fields → Fields

abbrev pub elements : Items → List Value
elements nil = []
elements (cons v vs) = v ∷ elements vs

abbrev pub items_of : List Value → Items
items_of [] = nil
items_of (v ∷ vs) = cons v (items_of vs)

abbrev pub fields_of : List (String × Value) → Fields
fields_of [] = end
fields_of ((k, v) ∷ fs) = field k v (fields_of fs)

-- `key in d`
abbrev pub has_key : String → Fields → Bool
has_key k end = false
has_key k (field j v fs) = str_eq j k || has_key k fs

-- `d.get(key)`, where the type of `d` has been tested
abbrev pub lookup : String → Fields → Value
lookup k end = null
lookup k (field j v fs) = if str_eq j k then v else lookup k fs

abbrev pub is_dict : Value → Bool
is_dict (dict fs) = true
is_dict _ = false

abbrev pub is_str : Value → Bool
is_str (str s) = true
is_str _ = false

abbrev pub is_null : Value → Bool
is_null null = true
is_null _ = false

-- `v.get(key)` under a test that `v` is a dictionary; `None` on any other value
abbrev pub get : String → Value → Value
get k (dict fs) = lookup k fs
get k _ = null

-- `v == s` for a text `s`
abbrev pub eq_str : Value → String → Bool
eq_str (str t) s = str_eq t s
eq_str _ s = false

-- `v == n` for an int `n` of 0 or more: `True == 1` and `2.0 == 2` hold in Python
abbrev pub eq_int : Value → ℕ → Bool
eq_int (int m) n = m == n
eq_int (bool true) n = n == 1
eq_int (bool false) n = n == 0
eq_int (float false m e) n = m == n * 2 ^ e
eq_int (float true m e) n = m == 0 && n == 0
eq_int _ n = false

abbrev pub as_str : Value → Option String
as_str (str s) = some s
as_str _ = none
